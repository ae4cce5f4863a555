-- ===== src/Scheduler/Fill.antt =====
-- The last target of a heap takes the place of one that goes: `heap_remove` of
-- src/kernel/CommScheduler.cc.
use myworkflow.Base.{
  ℕ, suc, ◌+◌, ◌<◌, ◌≡◌, sym, ap, subst, ◌∙◌, Bool, true, false, ◌==◌, if◌then◌else◌, arith,
}
use myworkflow.Scheduler.{update, Heap, place, parent, heap_adjust, heapify}
use myworkflow.Scheduler.Order.{IsHeap, IsOpen, FitsAbove, FitsBelow, heapify-IsHeap}
use myworkflow.Scheduler.Rise.{heap_adjust-Settled}
use myworkflow.Scheduler.Links.{
  sum, sum-update, sum-same, Linked, Indexed, adjust_loop-Kept, heapify-Kept,
}

pub IsOpen-update :
    (old : ℕ → ℕ → Bool) (n : ℕ) (a : ℕ → ℕ) (h x : ℕ)
    → IsOpen old n a h
    → IsOpen old n (update a h x) h
IsOpen-update old n a h x o = record {
  edges = λ c p q r s. ground (arith, o.edges c p q r s);
  over = λ c p q r s. ground (arith, o.over c p q r s);
}

-- A place of a heap is open once its target is to go.
heap-IsOpen :
    (old : ℕ → ℕ → Bool) (n : ℕ) (a : ℕ → ℕ) (i : ℕ)
    → ((x y z : ℕ) → old y x ≡ false → old z y ≡ false → old z x ≡ false)
    → i < suc n
    → IsHeap old (suc n) a
    → IsOpen old n a i
heap-IsOpen old n a i trans p h = record {
  edges = λ c q r s t. h c q (omega arith);
  over = λ c q r s t.
      trans (a (parent i)) (a i) (a c) (h i t p)
        (subst (λ k. old (a c) (a k) ≡ false) s (h c q (omega arith)));
}

abbrev pub IsLeft : (ℕ → Bool) → ℕ → (ℕ → Bool) → Type 0
IsLeft member t member' = (x : ℕ) → member' x ≡ (if x == t then false else member x)

module _ (member member' : ℕ → Bool) (n : ℕ) (h : Heap) where
  -- The last target takes the place of the one that goes.
  last-Linked :
      (i : ℕ)
      → i < n
      → IsLeft member (h.tg_heap i) member'
      → Indexed member (suc n) h
      → Linked member' n (place i (h.tg_heap n) h) i (h.tg_heap n)
  last-Linked i p same x =
      let last = x.at_index n (omega arith) in
      let here = x.at_index i (omega arith) in
      record {
        at_index = λ j q r. ground (arith, x.at_index j (omega arith), last);
        members = λ j q r. ground (
          arith,
          x.at_index j (omega arith),
          x.members j (omega arith),
          last,
          here,
          same (h.tg_heap j),
        );
        found = λ y m d. ground (arith, x.found y, same y, here, last);
      }

  pub shorter-Indexed :
      IsLeft member (h.tg_heap n) member' → Indexed member (suc n) h → Indexed member' n h
  shorter-Indexed same x =
      let last = x.at_index n (omega arith) in
      record {
        at_index = λ j q. x.at_index j (omega arith);
        members = λ j q. ground (
          arith,
          x.at_index j (omega arith),
          x.members j (omega arith),
          last,
          same (h.tg_heap j),
        );
        found = λ y m. ground (arith, x.found y, same y, last);
      }

sum-removed :
    (f : ℕ → ℕ) (n : ℕ) (a : ℕ → ℕ) (i : ℕ)
    → i < n
    → sum f n (update (update a i (a n)) i (a n)) + f (a i) ≡ sum f (suc n) a
sum-removed f n a i p =
    let e : update a i (a n) i ≡ a n = ground arith in
    omega (arith, sum-update f n (update a i (a n)) i (a n) p, sum-update f n a i (a n) p, ap f e)

abbrev pub filled : (ℕ → ℕ → Bool) → ℕ → Heap → ℕ → Heap
filled old n h i = heap_adjust old false i (place i (h.tg_heap n) h)

-- The heap without the target at `i`: the last one takes its place, rises and sinks.
abbrev pub IsWithout : (ℕ → ℕ → Bool) → (ℕ → Bool) → ℕ → Heap → ℕ → Heap → Type 0
IsWithout old member n h i g =
    IsHeap old n g.tg_heap
    × Indexed member n g
    × ((f : ℕ → ℕ) → sum f n g.tg_heap + f (h.tg_heap i) ≡ sum f (suc n) h.tg_heap)

pub filled-IsWithout :
    (old : ℕ → ℕ → Bool) (total : (x y : ℕ) → old x y ≡ true → old y x ≡ false)
    (trans : (x y z : ℕ) → old y x ≡ false → old z y ≡ false → old z x ≡ false)
    (member member' : ℕ → Bool) (n : ℕ) (h : Heap) (i : ℕ)
    → i < n
    → IsLeft member (h.tg_heap i) member'
    → Indexed member (suc n) h
    → IsHeap old (suc n) h.tg_heap
    → IsWithout old member' n h i
        (heapify old n ((filled old n h i).index (h.tg_heap n)) (filled old n h i))
unfolding heap_adjust
filled-IsWithout old total trans member member' n h i p same x o =
    let a = h.tg_heap in
    let t = a n in
    let h₀ = place i t h in
    let here : h₀.tg_heap i ≡ t = ground arith in
    let h₁ = filled old n h i in
    let linked = last-Linked member member' n h i p same x in
    let last : member' t ≡ true = ground (
      arith,
      same t,
      x.members n (omega arith),
      x.at_index n (omega arith),
      x.at_index i (omega arith),
    ) in
    let k₁ =
      adjust_loop-Kept member' n old false i (h₀.tg_heap i) i h₀ p
        (subst (λ y. member' y ≡ true) (sym here) last)
        (subst (Linked member' n h₀ i) (sym here) linked) in
    let open_i = IsOpen-update old n a i t (heap-IsOpen old n a i trans (omega arith) o) in
    let s =
      heap_adjust-Settled old total trans false n i h₀ (FitsBelow old n h₀.tg_heap i (h₀.tg_heap i))
        p open_i (λ b. b) in
    let top : h₁.index t ≡ s.at = ap h₁.index (sym here) ∙ s.indexed in
    let k₂ = heapify-Kept member' n old s.at h₁ s.inside k₁.indexed in
    subst (λ y. IsWithout old member' n h i (heapify old n y h₁)) (sym top)
      (
        heapify-IsHeap old total trans n s.at h₁ s.inside
            (subst (λ g. IsOpen old n g s.at) (sym s.heap)
              (IsOpen-update old n s.others s.at (h₀.tg_heap i) s.open_at))
            (subst (λ g. FitsAbove old g s.at (g s.at)) (sym s.heap)
              (λ q. ground (arith, s.above q))),
        k₂.indexed,
        λ f. omega (
          arith,
          k₂.sums f,
          sum-same f n h₁.tg_heap s.at s.inside,
          k₁.sums f,
          ap (λ y. sum f n (update h₀.tg_heap i y)) here,
          sum-removed f n a i p,
        ),
      )
