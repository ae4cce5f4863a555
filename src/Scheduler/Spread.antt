-- ===== src/Scheduler/Spread.antt =====
-- What a caller of src/kernel/CommScheduler.cc gets: a target that is least loaded and not full.
use myworkflow.Base.{
  ℕ, zero, suc, ◌+◌, ◌*◌, ◌≤◌, ◌<◌, ◌≡◌, inl, inr, refl, subst, Bool, true, false, Option, none,
  some, ltb, arith, Bool-cases,
}
use native.Mathlib.Nat.{lt_of_mul-lt-mul_right, mul-lt-mul_of_pos_right}
use myworkflow.Scheduler.{less, parent}
use myworkflow.Scheduler.Order.{IsHeap}
use myworkflow.Scheduler.Links.{sum}
use myworkflow.Scheduler.Load.{AreLoads, less_exact, less_total, less_trans}
use myworkflow.Scheduler.Group.{Group, before, in_group, acquire}
use myworkflow.Scheduler.Valid.{IsValid}
use myworkflow.Scheduler.Acquire.{sunk-IsValid}

root_least_below :
    (before : ℕ → ℕ → Bool) (total : (x y : ℕ) → before x y ≡ true → before y x ≡ false)
    (trans : (x y z : ℕ) → before y x ≡ false → before z y ≡ false → before z x ≡ false) (n : ℕ)
    (a : ℕ → ℕ) (k i : ℕ)
    → IsHeap before n a
    → i < k
    → i < n
    → before (a i) (a 0) ≡ false
root_least_below before total trans n a zero i h f p = absurd (omega arith)
root_least_below before total trans n a (suc k) zero h f p = ground (arith, total (a 0) (a 0))
root_least_below before total trans n a (suc k) (suc i) h f p =
    trans (a 0) (a (parent (suc i))) (a (suc i))
      (root_least_below before total trans n a k (parent (suc i)) h (omega arith) (omega arith))
      (h (suc i) (omega arith) p)

-- Where a sum is less than another, so is some summand.
sum-lt :
    (f g : ℕ → ℕ) (n : ℕ) (a : ℕ → ℕ)
    → sum f n a < sum g n a
    → (i : ℕ) × (i < n) × (f (a i) < g (a i))
sum-lt f g zero a h = absurd (omega arith)
sum-lt f g (suc n) a h = elim (Bool-cases (ltb (f (a n)) (g (a n)))) [
  | inl e ↦ (n, omega arith, ground (arith, e))
  | inr e ↦
      let q : g (a n) ≤ f (a n) = ground (arith, e) in
      let (i, p, r) = sum-lt f g n a (omega arith) in (i, omega arith, r)
]

-- What is not more loaded than a target with room has room.
not_full :
    (cur max : ℕ → ℕ) (l : AreLoads cur max) (a b : ℕ)
    → less cur max b a ≡ false
    → cur b < max b
    → cur a < max a
not_full cur max l a b h p =
    let q : cur a * max b ≤ cur b * max a = ground (arith, less_exact cur max l b a) in
    let r : cur b * max a < max b * max a = mul-lt-mul_of_pos_right p (l.positive a) in
    lt_of_mul-lt-mul_right (max b) (omega (arith, q, r))

-- What `CommSchedGroup::acquire` gives.
abbrev pub Acquires : Group → Option ℕ × Group → Type 0
Acquires s (none, u) = (u ≡ s) × (s.max_load ≤ s.cur_load)
Acquires s (some t, u) =
    IsValid u
    × (in_group s t ≡ true)
    × (s.target_cur t < s.target_max t)
    × (u.target_cur t ≡ s.target_cur t + 1)
    × ((x : ℕ) → in_group s x ≡ true → before s x t ≡ false)

-- `CommSchedGroup::acquire` of a valid group gives a target of the group that has room and than which
-- no target of the group is less loaded, counts it up and keeps the group valid; or it finds the whole
-- group full and leaves it as it is.
pub acquire-Acquires : (s : Group) → IsValid s → Acquires s (acquire s)
unfolding acquire
acquire-Acquires s v = elim (Bool-cases (ltb s.cur_load s.max_load)) [
  | inr e ↦ rw e (refl, ground (arith, e))
  | inl e ↦
      let a = s.heap.tg_heap in
      let lt : sum s.target_cur s.heap_size a < sum s.target_max s.heap_size a =
        ground (arith, e, v.cur_sum, v.max_sum) in
      let (i, p, room) = sum-lt s.target_cur s.target_max s.heap_size a lt in
      let least = λ (j : ℕ) (q : j < s.heap_size).
        root_least_below (before s) (less_total s.target_cur s.target_max v.loads)
          (less_trans s.target_cur s.target_max v.loads) s.heap_size a (suc j) j v.heap
          (omega arith) q in
      let free = not_full s.target_cur s.target_max v.loads (a 0) (a i) (least i p) room in
      rw e (
        sunk-IsValid s 0 v (omega arith) free,
        v.indexed.members 0 (omega arith),
        free,
        ground arith,
        λ x m.
            let (q, w) = v.indexed.found x m in
            subst (λ y. before s y (a 0) ≡ false) w (least (s.heap.index x) q),
      )
]
