-- ===== src/Scheduler/Target.antt =====
-- A single target of src/kernel/CommScheduler.cc is acquired and released, in a group or in none.
use myworkflow.Base.{
  ℕ, ◌+◌, ◌≤◌, ◌<◌, ◌≡◌, ◌≢◌, inl, inr, refl, sym, subst, ◌∙◌, Bool, true, false, ltb, arith,
  Bool-cases,
}
use myworkflow.Scheduler.{update, parent, heap_adjust, heapify}
use myworkflow.Scheduler.Load.{AreLoads-update, less-others}
use myworkflow.Scheduler.Group.{Group, before, in_group, decrement, acquire_target, release}
use myworkflow.Scheduler.Valid.{IsValid, sum-off}
use myworkflow.Scheduler.Acquire.{raised, sunk-IsValid, lowered, risen-IsValid}

-- The load of a target of no group, or of another one, does not matter to the group.
outside-IsValid :
    (s : Group) (t x : ℕ)
    → IsValid s
    → in_group s t ≡ false
    → x ≤ s.target_max t
    → IsValid (record s { target_cur = update s.target_cur t x })
outside-IsValid s t x v out h =
    let a = s.heap.tg_heap in
    let other : (c : ℕ) → c < s.heap_size → a c ≢ t = λ c p e.
      let m : in_group s t ≡ true = subst (λ y. in_group s y ≡ true) e (v.indexed.members c p) in
      cc in
    record {
      heap = λ c p q.
          less-others s.target_cur s.target_max t x (a c) (a (parent c)) (other c q)
            (other (parent c) (omega arith))
          ∙ v.heap c p q;
      indexed = v.indexed;
      room = v.room;
      buffer = v.buffer;
      max_sum = v.max_sum;
      cur_sum = v.cur_sum ∙ sym (sum-off s.target_cur s.heap_size a t x other);
      small = v.small;
      loads = AreLoads-update s.target_cur s.target_max t x v.loads h;
    }

-- What `CommSchedTarget::acquire` gives: the target if it has room.
abbrev pub Takes : ℕ → Group → Bool × Group → Type 0
Takes t s (true, u) =
    IsValid u × (s.target_cur t < s.target_max t) × (u.target_cur t ≡ s.target_cur t + 1)
Takes t s (false, u) = (u ≡ s) × (s.target_max t ≤ s.target_cur t)

member-sunk :
    (s : Group) (t : ℕ)
    → IsValid s
    → in_group s t ≡ true
    → s.target_cur t < s.target_max t
    → IsValid (record (raised s t) {
      heap = heapify (before (raised s t)) s.heap_size (s.heap.index t) s.heap;
    })
member-sunk s t v m p =
    let (q, e) = v.indexed.found t m in
    subst
      (λ y. IsValid (record (raised s y) {
        heap = heapify (before (raised s y)) s.heap_size (s.heap.index t) s.heap;
      }))
      e
      (sunk-IsValid s (s.heap.index t) v q (subst (λ y. s.target_cur y < s.target_max y) (sym e) p))

-- `CommSchedTarget::acquire`, with the group valid, counts a target up that has room and keeps the group
-- valid, whether the target is in it or not; it leaves everything as it is if the target is full.
pub acquire_target-Takes : (t : ℕ) (s : Group) → IsValid s → Takes t s (acquire_target t s)
unfolding acquire_target
acquire_target-Takes t s v = elim (Bool-cases (ltb (s.target_cur t) (s.target_max t))) [
  | inr e ↦ rw e (refl, ground (arith, e))
  | inl e ↦
      let p : s.target_cur t < s.target_max t = ground (arith, e) in
      elim (Bool-cases (in_group s t)) [
        | inl m ↦ rw (e, m) (member-sunk s t v m p, p, ground arith)
        | inr m ↦
            rw (e, m) (outside-IsValid s t (s.target_cur t + 1) v m (omega arith), p, ground arith)
      ]
]

-- `CommSchedTarget::release` of a target that is in use counts it down and keeps the group valid, whether
-- the target is in it or not, and whether it has idle connections or not.
pub release-IsValid :
    (idle : Bool) (t : ℕ) (s : Group)
    → IsValid s
    → 0 < s.target_cur t
    → IsValid (release idle t s) × ((release idle t s).target_cur t + 1 ≡ s.target_cur t)
unfolding release
release-IsValid idle t s v p =
    let one_less : decrement (s.target_cur t) + 1 ≡ s.target_cur t =
      omega (arith, v.loads.bounded t, v.loads.small t) in
    elim (Bool-cases (in_group s t)) [
      | inl m ↦
          let (q, e) = v.indexed.found t m in
          rw m (
            subst
                (λ y. IsValid (record (lowered s y) {
                  heap = heap_adjust (before (lowered s y)) idle (s.heap.index t) s.heap;
                }))
                e
                (risen-IsValid idle s (s.heap.index t) v q
                  (subst (λ y. 0 < s.target_cur y) (sym e) p)),
            ground (arith, one_less),
          )
      | inr m ↦ rw m (
        outside-IsValid s t (decrement (s.target_cur t)) v m
            (omega (arith, v.loads.bounded t, one_less)),
        ground (arith, one_less),
      )
    ]
