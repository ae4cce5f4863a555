-- ===== src/Scheduler/Rise.antt =====
-- A target rises in the heap of src/kernel/CommScheduler.cc: `heap_adjust`.
use myworkflow.Base.{
  ℕ, zero, suc, ◌≤◌, ◌<◌, ◌≡◌, inl, inr, refl, sym, subst, Bool, true, false, ◌&&◌, ltb, arith,
  Bool-cases,
}
use myworkflow.Scheduler.{update, Heap, place, parent, rises, adjust_loop, heap_adjust}
use myworkflow.Scheduler.Order.{IsHeap, IsOpen, FitsAbove, FitsBelow, closed}

module _ (before : ℕ → ℕ → Bool) where
  module _ (total : (x y : ℕ) → before x y ≡ true → before y x ≡ false)
      (trans : (x y z : ℕ) → before y x ≡ false → before z y ≡ false → before z x ≡ false) where
    -- The parent moves down into the open place.
    up-IsOpen :
        (n : ℕ) (a : ℕ → ℕ) (h : ℕ)
        → 0 < h
        → h < n
        → IsOpen before n a h
        → IsOpen before n (update a h (a (parent h))) (parent h)
    up-IsOpen n a h p q o = record {
      edges = λ c r s t u. ground (arith, o.edges c r s, o.over c r s);
      over = λ c r s t u. ground (
        arith,
        o.edges c r s,
        o.edges (parent h),
        trans (a (parent (parent h))) (a (parent h)) (a c),
      );
    }

    up-FitsBelow :
        (n : ℕ) (a : ℕ → ℕ) (h t : ℕ)
        → 0 < h
        → IsOpen before n a h
        → before (a (parent h)) t ≡ false
        → FitsBelow before n (update a h (a (parent h))) (parent h) t
    up-FitsBelow n a h t p o le c r s e =
        ground (arith, o.edges c r s, trans t (a (parent h)) (a c))

    -- Where `heap_adjust` leaves the target: `at`, with the other places as in `others`.
    pub record Settled (n t : ℕ) (g : Heap) (P : Type 0) : Type 0 where
      pub at : ℕ
      pub others : ℕ → ℕ
      pub inside : at < n
      pub open_at : IsOpen before n others at
      pub above : FitsAbove before others at t
      pub heap : g.tg_heap ≡ update others at t
      pub indexed : g.index t ≡ at
      pub below : P → FitsBelow before n others at t

    adjust_loop-Settled :
        (swap : Bool) (n m t i : ℕ) (h : Heap) (P : Type 0)
        → i ≤ m
        → i < n
        → IsOpen before n h.tg_heap i
        → (P → FitsBelow before n h.tg_heap i t)
        → Settled n t (adjust_loop before swap m t i h) P
    unfolding adjust_loop
    adjust_loop-Settled swap n zero t i h P f p o below = record {
      at = i;
      others = h.tg_heap;
      inside = p;
      open_at = o;
      above = λ q. absurd (omega arith);
      heap = refl;
      indexed = ground arith;
      below = below;
    }
    adjust_loop-Settled swap n (suc m) t i h P f p o below =
        let a = h.tg_heap in
        let up = a (parent i) in
        elim (Bool-cases (ltb 0 i && rises before swap t up)) [
          | inl e ↦ rw e (
              adjust_loop-Settled swap n m t (parent i) (place i up h) P (omega arith) (omega arith)
                (up-IsOpen n a i (ground arith) p o)
                (λ b. up-FitsBelow n a i t (ground arith) o (ground (arith, e, total t up))))
          | inr e ↦ rw e (record {
            at = i;
            others = a;
            inside = p;
            open_at = o;
            above = λ q. ground (arith, e, total up t);
            heap = refl;
            indexed = ground arith;
            below = below;
          })
        ]

    -- `heap_adjust` on a heap whose place `i` may be less loaded than those above it.
    pub heap_adjust-Settled :
        (swap : Bool) (n i : ℕ) (h : Heap) (P : Type 0)
        → i < n
        → IsOpen before n h.tg_heap i
        → (P → FitsBelow before n h.tg_heap i (h.tg_heap i))
        → Settled n (h.tg_heap i) (heap_adjust before swap i h) P
    unfolding heap_adjust
    heap_adjust-Settled swap n i h P p o below =
        adjust_loop-Settled swap n i (h.tg_heap i) i h P (omega arith) p o below

    pub Settled-IsHeap :
        (n t : ℕ) (g : Heap) (P : Type 0) → Settled n t g P → P → IsHeap before n g.tg_heap
    Settled-IsHeap n t g P s p =
        subst (IsHeap before n) (sym s.heap)
          (closed before n s.others s.at t s.open_at s.above (s.below p))
