-- ===== src/Scheduler/Add.antt =====
-- `CommSchedGroup::add` and `heap_insert` of src/kernel/CommScheduler.cc.
use myworkflow.Base.{
  ℕ, suc, ◌+◌, ◌*◌, ◌%◌, ◌<◌, ◌≡◌, ◌≢◌, inl, inr, refl, sym, ap, subst, ◌∙◌, Bool, true, false, not,
  ◌&&◌, none, some, ◌==◌, if◌then◌else◌, arith, Bool-cases, Option-cases,
}
use myworkflow.Scheduler.{update, Heap, word, place, heap_adjust}
use myworkflow.Scheduler.Order.{IsHeap, IsOpen}
use myworkflow.Scheduler.Rise.{heap_adjust-Settled, Settled-IsHeap}
use myworkflow.Scheduler.Links.{sum, sum-update_out, Linked, Indexed, adjust_loop-Kept}
use myworkflow.Scheduler.Load.{less_total, less_trans}
use myworkflow.Scheduler.Group.{
  Group, before, in_group, set_group, insert_at, heap_insert, GroupRet, ok, enomem, eexist, einval,
  ebusy, enoent, end_add, add,
}
use myworkflow.Scheduler.Valid.{IsValid, sum-le}

-- A place at the end is open, and nothing is below it.
end-IsOpen :
    (old : ℕ → ℕ → Bool) (n : ℕ) (a : ℕ → ℕ) (t : ℕ)
    → IsHeap old n a
    → IsOpen old (n + 1) (update a n t) n
end-IsOpen old n a t h = record {
  edges = λ c p q r s. ground (arith, h c p);
  over = λ c p q r s. absurd (omega arith);
}

end-Linked :
    (member member' : ℕ → Bool) (n : ℕ) (h : Heap) (t : ℕ)
    → member t ≡ false
    → ((x : ℕ) → member' x ≡ (if x == t then true else member x))
    → Indexed member n h
    → Linked member' (n + 1) (place n t h) n t
end-Linked member member' n h t out same x = record {
  at_index = λ i p q. ground (arith, x.at_index i, x.members i);
  members = λ i p q. ground (arith, x.members i, same (h.tg_heap i));
  found = λ y m d. ground (arith, x.found y, same y);
}

sum-end :
    (f : ℕ → ℕ) (n : ℕ) (a : ℕ → ℕ) (t : ℕ)
    → sum f (n + 1) (update (update a n t) n t) ≡ sum f n a + f t
sum-end f n a t =
    let e : n + 1 ≡ suc n = omega arith in
    rw e (ground (arith, sum-update_out f n (update a n t) n t, sum-update_out f n a n t))

in_group-set :
    (s : Group) (t x : ℕ)
    → in_group (record s { target_group = set_group s.target_group t (some s.this) }) x
      ≡ (if x == t then true else in_group s x)
in_group-set s t x = ground arith

abbrev joined : ℕ → Group → Group
joined t s = record s {
  target_group = set_group s.target_group t (some s.this);
  max_load = (s.max_load + s.target_max t) % word;
  cur_load = (s.cur_load + s.target_cur t) % word;
}

insert_at-IsValid :
    (t : ℕ) (s : Group)
    → IsValid s
    → in_group s t ≡ false
    → s.heap_size < s.heap_buf_size
    → s.max_load + s.target_max t < word
    → IsValid (joined t (insert_at t s))
unfolding insert_at heap_adjust
insert_at-IsValid t s v out room small =
    let n = s.heap_size in
    let a = s.heap.tg_heap in
    let total = less_total s.target_cur s.target_max v.loads in
    let trans = less_trans s.target_cur s.target_max v.loads in
    let h = place n t s.heap in
    let at_end : update a n t n ≡ t = ground arith in
    let s' = record s { target_group = set_group s.target_group t (some s.this) } in
    let linked =
      end-Linked (in_group s) (in_group s') n s.heap t out (in_group-set s t) v.indexed in
    let k =
      adjust_loop-Kept (in_group s') (n + 1) (before s) false n (h.tg_heap n) n h (omega arith)
        (subst (λ x. in_group s' x ≡ true) (sym at_end) (ground (arith, in_group-set s t t)))
        (subst (Linked (in_group s') (n + 1) h n) (sym at_end) linked) in
    let sums = λ (f : ℕ → ℕ).
      k.sums f ∙ (ap (λ x. sum f (n + 1) (update h.tg_heap n x)) at_end ∙ sum-end f n a t) in
    let settled =
      heap_adjust-Settled (before s) total trans false (n + 1) n h (Unit {0}) (omega arith)
        (end-IsOpen (before s) n a t v.heap) (λ u c p q r. absurd (omega arith)) in
    let le = sum-le s.target_cur s.target_max n a v.loads.bounded in
    record {
      heap =
          Settled-IsHeap (before s) total trans (n + 1) (h.tg_heap n)
            (heap_adjust (before s) false n h) (Unit {0}) settled tt;
      indexed = k.indexed;
      room = omega arith;
      buffer = v.buffer;
      max_sum = omega (arith, sums s.target_max, v.max_sum);
      cur_sum = omega (arith, sums s.target_cur, v.cur_sum, v.max_sum, le, v.loads.bounded t);
      small = omega arith;
      loads = v.loads;
    }

-- The target is in no group, and nobody waits for it.
abbrev pub IsFree : ℕ → Group → Type 0
IsFree t s = (s.target_group t ≡ none) × (s.target_wait t ≡ 0)

-- Whether the array is full and cannot grow.
abbrev pub is_stuck : (ℕ → Bool) → Group → Bool
is_stuck realloc_ok s = s.heap_size == s.heap_buf_size && not (realloc_ok (2 * s.heap_buf_size * 8))

-- What `add` gives, and when: the group with the target, or an error and nothing changed. Of the
-- conditions exactly one holds.
abbrev pub Adds : (ℕ → Bool) → ℕ → Group → GroupRet × Group → Type 0
Adds realloc_ok t s (ok, u) =
    (IsFree t s × (is_stuck realloc_ok s ≡ false))
    × IsValid u
    × (in_group u t ≡ true)
    × (u.heap_size ≡ s.heap_size + 1)
Adds realloc_ok t s (enomem, u) = (IsFree t s × (is_stuck realloc_ok s ≡ true)) × (u ≡ s)
Adds realloc_ok t s (eexist, u) = (in_group s t ≡ true) × (u ≡ s)
Adds realloc_ok t s (einval, u) = ((in_group s t ≡ false) × (s.target_group t ≢ none)) × (u ≡ s)
Adds realloc_ok t s (ebusy, u) = ((s.target_group t ≡ none) × (0 < s.target_wait t)) × (u ≡ s)
Adds realloc_ok t s (enoent, u) = ⊥

free-out : (s : Group) (t : ℕ) → s.target_group t ≡ none → in_group s t ≡ false
free-out s t e = rw (in_group, e)

-- What is left where the target has been inserted.
abbrev Joins : ℕ → Group → Group → Type 0
Joins t s u = IsValid u × (in_group u t ≡ true) × (u.heap_size ≡ s.heap_size + 1)

insert_at-Joins :
    (t : ℕ) (s : Group)
    → IsValid s
    → s.target_group t ≡ none
    → s.heap_size < s.heap_buf_size
    → s.max_load + s.target_max t < word
    → Joins t s (joined t (insert_at t s))
unfolding insert_at
insert_at-Joins t s v out room small = (
  insert_at-IsValid t s v (free-out s t out) room small,
  ground (arith, in_group-set s t t),
  refl,
)

Joins-Adds :
    (realloc_ok : ℕ → Bool) (t : ℕ) (s u : Group)
    → IsFree t s
    → is_stuck realloc_ok s ≡ false
    → Joins t s u
    → Adds realloc_ok t s (ok, u)
Joins-Adds realloc_ok t s u free room (v, member, size) = ((free, room), v, member, size)

heap_insert-Adds :
    (realloc_ok : ℕ → Bool) (t : ℕ) (s : Group)
    → IsValid s
    → IsFree t s
    → s.max_load + s.target_max t < word
    → Adds realloc_ok t s (end_add t (heap_insert realloc_ok t s))
unfolding heap_insert
heap_insert-Adds realloc_ok t s v (out, none_waits) small =
    let go = λ (u : Group). Joins-Adds realloc_ok t s u (out, none_waits) in
    elim (Bool-cases (s.heap_size == s.heap_buf_size)) [
      | inr e ↦ rw e (
          go (joined t (insert_at t s)) (ground (arith, e))
            (insert_at-Joins t s v out (let r = v.room in ground (arith, e)) small))
      | inl e ↦ elim (Bool-cases (realloc_ok (2 * s.heap_buf_size * 8))) [
        | inr f ↦ rw (e, f) (((out, none_waits), ground (arith, e, f)), refl)
        | inl f ↦
            let s' = record s { heap_buf_size = 2 * s.heap_buf_size } in
            let v' : IsValid s' = record {
              heap = v.heap;
              indexed = v.indexed;
              room = omega (arith, v.room);
              buffer = omega (arith, v.buffer);
              max_sum = v.max_sum;
              cur_sum = v.cur_sum;
              small = v.small;
              loads = v.loads;
            } in
            let r : s.heap_size < 2 * s.heap_buf_size = omega (arith, v.buffer, v.room) in
            rw (e, f)
              (go (joined t (insert_at t s')) (ground (arith, e, f))
                (insert_at-Joins t s' v' out r small))
      ]
    ]

-- `CommSchedGroup::add`, where the sum of the rooms fits a `size_t`, adds a target that is in no group
-- and that nobody waits for, the array grown if it must be, and keeps the group valid, unless the array
-- cannot grow: ENOMEM. It refuses a target of the group (EEXIST), of another group (EINVAL), or that
-- somebody waits for (EBUSY). Every error leaves the group as it is.
pub add-Adds :
    (realloc_ok : ℕ → Bool) (t : ℕ) (s : Group)
    → IsValid s
    → s.max_load + s.target_max t < word
    → Adds realloc_ok t s (add realloc_ok t s)
unfolding add
add-Adds realloc_ok t s v small = elim (Option-cases (s.target_group t)) [
  | inl e ↦ elim (Bool-cases (s.target_wait t == 0)) [
    | inl f ↦ rw (e, f) (heap_insert-Adds realloc_ok t s v (e, ground (arith, f)) small)
    | inr f ↦ rw (f, free-out s t e, e) ((e, ground (arith, f)), refl)
  ]
  | inr (g, e) ↦
      let m : in_group s t ≡ (g == s.this) = rw (in_group, e) in
      elim (Bool-cases (g == s.this)) [
        | inl f ↦ rw (m ∙ f, e) (m ∙ f, refl)
        | inr f ↦ rw (m ∙ f, e) ((m ∙ f, λ k. cc), refl)
      ]
]
