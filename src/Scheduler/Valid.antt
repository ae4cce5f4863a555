-- ===== src/Scheduler/Valid.antt =====
-- What every operation of src/kernel/CommScheduler.cc keeps of a group.
use myworkflow.Base.{
  ℕ, zero, suc, ◌+◌, ◌≤◌, ◌<◌, ◌≡◌, ◌≢◌, inl, inr, refl, sym, ap, subst, ◌∙◌, Bool, false, ◌==◌,
  arith, Bool-cases, ==_iff,
}
use myworkflow.Scheduler.{update, Heap, word, parent}
use myworkflow.Scheduler.Order.{IsHeap, IsOpen}
use myworkflow.Scheduler.Links.{sum, Indexed}
use myworkflow.Scheduler.Load.{AreLoads}
use myworkflow.Scheduler.Group.{Group, before, in_group}

-- The heap is in order, holds the group's targets, each at its index, and the loads are their sums.
pub record IsValid (s : Group) : Type 0 where
  pub heap : IsHeap (before s) s.heap_size s.heap.tg_heap
  pub indexed : Indexed (in_group s) s.heap_size s.heap
  pub room : s.heap_size ≤ s.heap_buf_size
  pub buffer : 0 < s.heap_buf_size
  pub max_sum : s.max_load ≡ sum s.target_max s.heap_size s.heap.tg_heap
  pub cur_sum : s.cur_load ≡ sum s.target_cur s.heap_size s.heap.tg_heap
  pub small : s.max_load < word
  pub loads : AreLoads s.target_cur s.target_max

-- The place of a target whose load has changed is open, under the new order.
pub changed-IsOpen :
    (old new : ℕ → ℕ → Bool) (member : ℕ → Bool) (n : ℕ) (h : Heap) (i : ℕ)
    → ((x y z : ℕ) → old y x ≡ false → old z y ≡ false → old z x ≡ false)
    → ((a b : ℕ) → a ≢ h.tg_heap i → b ≢ h.tg_heap i → new a b ≡ old a b)
    → i < n
    → Indexed member n h
    → IsHeap old n h.tg_heap
    → IsOpen new n h.tg_heap i
changed-IsOpen old new member n h i trans same p x o =
    let a = h.tg_heap in
    let other : (c : ℕ) → c < n → c ≢ i → a c ≢ a i =
      λ c q d e. d (sym (x.at_index c q) ∙ (ap h.index e ∙ x.at_index i p)) in
    record {
      edges = λ c q r s t.
          same (a c) (a (parent c)) (other c r s) (other (parent c) (omega arith) t) ∙ o c q r;
      over = λ c q r s t.
          same (a c) (a (parent i)) (other c r (omega arith))
            (other (parent i) (omega arith) (omega arith))
          ∙ trans (a (parent i)) (a i) (a c) (o i t p)
              (subst (λ k. old (a c) (a k) ≡ false) s (o c q r));
    }

pub sum-off :
    (f : ℕ → ℕ) (n : ℕ) (a : ℕ → ℕ) (t x : ℕ)
    → ((j : ℕ) → j < n → a j ≢ t)
    → sum (update f t x) n a ≡ sum f n a
sum-off f zero a t x h = refl
sum-off f (suc n) a t x h = ground (arith, sum-off f n a t x (λ j p. h j (omega arith)), h n)

-- A change of the load of the one target at `i`.
pub sum-changed :
    (f : ℕ → ℕ) (n : ℕ) (a : ℕ → ℕ) (i x : ℕ)
    → i < n
    → ((j : ℕ) → j < n → j ≢ i → a j ≢ a i)
    → sum (update f (a i) x) n a + f (a i) ≡ sum f n a + x
sum-changed f zero a i x p h = absurd (omega arith)
sum-changed f (suc n) a i x p h = elim (Bool-cases (i == n)) [
  | inl e ↦
      let e' = (==_iff i n).0 e in
      let o = sum-off f n a (a i) x (λ j q. h j (omega arith) (omega (arith, e'))) in
      let e'' : a n ≡ a i = ap a (sym e') in ground (arith, o, e'')
  | inr e ↦
      let q : i < n = ground (arith, e) in
      ground (arith, sum-changed f n a i x q (λ j r. h j (omega arith)), h n)
]

pub sum-le : (f g : ℕ → ℕ) (n : ℕ) (a : ℕ → ℕ) → ((t : ℕ) → f t ≤ g t) → sum f n a ≤ sum g n a
sum-le f g zero a h = omega arith
sum-le f g (suc n) a h = omega (arith, sum-le f g n a h, h (a n))

pub distinct :
    (member : ℕ → Bool) (n : ℕ) (h : Heap) (i : ℕ)
    → i < n
    → Indexed member n h
    → (j : ℕ) → j < n
    → j ≢ i
    → h.tg_heap j ≢ h.tg_heap i
distinct member n h i p x j q d e = d (sym (x.at_index j q) ∙ (ap h.index e ∙ x.at_index i p))
