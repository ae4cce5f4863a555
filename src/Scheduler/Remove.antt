-- ===== src/Scheduler/Remove.antt =====
-- `CommSchedGroup::remove` of src/kernel/CommScheduler.cc.
use myworkflow.Base.{
  ℕ, suc, ◌+◌, ◌-◌, ◌<◌, ◌≡◌, inl, inr, refl, sym, ap, subst, ◌∙◌, true, false, none, ◌==◌,
  if◌then◌else◌, arith, Bool-cases, ==_iff,
}
use myworkflow.Scheduler.{Heap, heapify}
use myworkflow.Scheduler.Order.{IsHeap}
use myworkflow.Scheduler.Links.{sum, Indexed}
use myworkflow.Scheduler.Load.{less_total, less_trans}
use myworkflow.Scheduler.Group.{
  Group, before, in_group, set_group, heap_remove, GroupRet, ok, enomem, eexist, einval, ebusy,
  enoent, remove,
}
use myworkflow.Scheduler.Valid.{IsValid}
use myworkflow.Scheduler.Fill.{IsLeft, shorter-Indexed, filled, IsWithout, filled-IsWithout}

-- What `remove` gives, and when: the group without the target, or an error and nothing changed. Of the
-- conditions exactly one holds.
abbrev pub Removes : ℕ → Group → GroupRet × Group → Type 0
Removes t s (ok, u) =
    ((in_group s t ≡ true) × (s.target_wait t ≡ 0))
    × IsValid u
    × (in_group u t ≡ false)
    × (u.heap_size + 1 ≡ s.heap_size)
Removes t s (enoent, u) = (u ≡ s) × (in_group s t ≡ false)
Removes t s (ebusy, u) = (u ≡ s) × (in_group s t ≡ true) × (0 < s.target_wait t)
Removes t s (enomem, u) = ⊥
Removes t s (eexist, u) = ⊥
Removes t s (einval, u) = ⊥

abbrev removed : ℕ → Group → Group
removed t s =
    let r = heap_remove (s.heap.index t) s in
    record r {
      max_load = s.max_load - s.target_max t;
      cur_load = s.cur_load - s.target_cur t;
      target_group = set_group s.target_group t none;
    }

in_group-unset :
    (s : Group) (t x : ℕ)
    → in_group (record s { target_group = set_group s.target_group t none }) x
      ≡ (if x == t then false else in_group s x)
in_group-unset s t x = ground arith

left-IsValid :
    (s : Group) (t n : ℕ) (g : Heap)
    → IsValid s
    → s.heap_size ≡ suc n
    → s.heap.tg_heap (s.heap.index t) ≡ t
    → IsWithout
        (before s)
        (in_group (record s { target_group = set_group s.target_group t none }))
        n
        s.heap
        (s.heap.index t)
        g
    → IsValid (record s {
      heap = g;
      heap_size = n;
      max_load = s.max_load - s.target_max t;
      cur_load = s.cur_load - s.target_cur t;
      target_group = set_group s.target_group t none;
    })
left-IsValid s t n g v e here (heap, indexed, sums) =
    let eq = λ (f : ℕ → ℕ). ap (λ k. sum f k s.heap.tg_heap) e in
    record {
      heap = heap;
      indexed = indexed;
      room = omega (arith, v.room);
      buffer = v.buffer;
      max_sum = omega (arith, v.max_sum, eq s.target_max, sums s.target_max, ap s.target_max here);
      cur_sum = omega (arith, v.cur_sum, eq s.target_cur, sums s.target_cur, ap s.target_cur here);
      small = omega (arith, v.small);
      loads = v.loads;
    }

removed-IsValid : (t : ℕ) (s : Group) → IsValid s → in_group s t ≡ true → IsValid (removed t s)
unfolding heap_remove
removed-IsValid t s v m =
    let n = s.heap_size - 1 in
    let i = s.heap.index t in
    let a = s.heap.tg_heap in
    let (q, here) = v.indexed.found t m in
    let e : s.heap_size ≡ suc n = omega arith in
    let s' = record s { target_group = set_group s.target_group t none } in
    let whole = subst (λ k. Indexed (in_group s) k s.heap) e v.indexed in
    let order = subst (λ k. IsHeap (before s) k a) e v.heap in
    let left : (y : ℕ) → y ≡ t → IsLeft (in_group s) y (in_group s') =
      λ y d. subst (λ z. IsLeft (in_group s) z (in_group s')) (sym d) (in_group-unset s t) in
    elim (Bool-cases (i == n)) [
      | inl f ↦
          let f' : i ≡ n = (==_iff i n).0 f in
          rw f (
            left-IsValid s t n s.heap v e here (
              λ c p r. order c p (omega arith),
              shorter-Indexed (in_group s) (in_group s') n s.heap
                  (left (a n) (ap a (sym f') ∙ here)) whole,
              λ g. omega (arith, ap g (ap a f')),
            ))
      | inr f ↦ rw f (
          left-IsValid s t n
            (heapify (before s) n ((filled (before s) n s.heap i).index (a n))
              (filled (before s) n s.heap i))
            v e here
            (filled-IsWithout (before s) (less_total s.target_cur s.target_max v.loads)
              (less_trans s.target_cur s.target_max v.loads) (in_group s) (in_group s') n s.heap i
              (ground (arith, f)) (left (a i) here) whole order))
    ]

removed-size :
    (t : ℕ) (s : Group)
    → IsValid s
    → in_group s t ≡ true
    → (removed t s).heap_size + 1 ≡ s.heap_size
unfolding heap_remove
removed-size t s v m =
    let (q, here) = v.indexed.found t m in
    elim (Bool-cases (s.heap.index t == s.heap_size - 1)) [
      | inl f ↦ rw f (omega arith)
      | inr f ↦ rw f (omega arith)
    ]

removed-out : (t : ℕ) (s : Group) → in_group (removed t s) t ≡ false
unfolding heap_remove
removed-out t s = elim (Bool-cases (s.heap.index t == s.heap_size - 1)) [
  | inl f ↦ rw f (ground arith)
  | inr f ↦ rw f (ground arith)
]

-- `CommSchedGroup::remove` takes a target out of the group that is in it and that nobody waits for, and
-- keeps the group valid. It refuses a target that is not in the group (ENOENT), or that somebody waits
-- for (EBUSY), and leaves the group as it is.
pub remove-Removes : (t : ℕ) (s : Group) → IsValid s → Removes t s (remove t s)
unfolding remove
remove-Removes t s v = elim (Bool-cases (in_group s t)) [
  | inr m ↦ rw m (refl, m)
  | inl m ↦ elim (Bool-cases (s.target_wait t == 0)) [
    | inl f ↦
        rw (m, f)
          ((m, ground (arith, f)), removed-IsValid t s v m, removed-out t s, removed-size t s v m)
    | inr f ↦ rw (m, f) (refl, m, ground (arith, f))
  ]
]
