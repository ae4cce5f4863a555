-- ===== src/Scheduler/Order.antt =====
-- The two loops of src/kernel/CommScheduler.cc that restore the heap, over any total order of targets.
use myworkflow.Base.{
  ℕ, zero, suc, ◌+◌, ◌-◌, ◌*◌, ◌≤◌, ◌<◌, ◌≡◌, ◌≢◌, ◌⊎◌, inl, inr, Bool, true, false, ◌&&◌, none,
  some, ltb, ◌==◌, arith, Bool-cases, Option-cases,
}
use myworkflow.Scheduler.{update, Heap, place, parent, child, last_child, heapify_loop, heapify}

module _ (before : ℕ → ℕ → Bool) where
  -- Every target is at most as loaded as those below it: `before b a` is that `b` is less than `a`.
  abbrev pub IsHeap : ℕ → (ℕ → ℕ) → Type 0
  IsHeap n a = (c : ℕ) → 0 < c → c < n → before (a c) (a (parent c)) ≡ false

  -- The place `h` is open: the edges that do not touch it are in order, also over it.
  pub record IsOpen (n : ℕ) (a : ℕ → ℕ) (h : ℕ) : Type 0 where
    pub edges : (c : ℕ) → 0 < c → c < n → c ≢ h → parent c ≢ h → before (a c) (a (parent c)) ≡ false
    pub over : (c : ℕ) → 0 < c → c < n → parent c ≡ h → 0 < h → before (a c) (a (parent h)) ≡ false

  -- The target `t` in the open place is in order with what is above, or with what is below.
  abbrev pub FitsAbove : (ℕ → ℕ) → ℕ → ℕ → Type 0
  FitsAbove a h t = 0 < h → before t (a (parent h)) ≡ false

  abbrev pub FitsBelow : ℕ → (ℕ → ℕ) → ℕ → ℕ → Type 0
  FitsBelow n a h t = (c : ℕ) → 0 < c → c < n → parent c ≡ h → before (a c) t ≡ false

  pub closed :
      (n : ℕ) (a : ℕ → ℕ) (h t : ℕ)
      → IsOpen n a h
      → FitsAbove a h t
      → FitsBelow n a h t
      → IsHeap n (update a h t)
  closed n a h t o above below c p q = ground (arith, o.edges c p q, above, below c p q)

  module _ (total : (x y : ℕ) → before x y ≡ true → before y x ≡ false)
      (trans : (x y z : ℕ) → before y x ≡ false → before z y ≡ false → before z x ≡ false) where
    -- A child that is least moves up into the open place.
    down-IsOpen :
        (n : ℕ) (a : ℕ → ℕ) (h j : ℕ)
        → 0 < j
        → j < n
        → parent j ≡ h
        → ((c : ℕ) → 0 < c → c < n → parent c ≡ h → before (a c) (a j) ≡ false)
        → IsOpen n a h
        → IsOpen n (update a h (a j)) j
    down-IsOpen n a h j p q e least o = record {
      edges = λ c r s t u. ground (arith, o.edges c r s, o.over j p q, least c r s);
      over = λ c r s t u. ground (arith, o.edges c r s);
    }

    last_child-IsHeap :
        (n t top : ℕ) (h : Heap)
        → top < n
        → n - 1 ≤ 2 * top + 1
        → IsOpen n h.tg_heap top
        → FitsAbove h.tg_heap top t
        → IsHeap n (last_child before (n - 1) t top h).tg_heap
    unfolding last_child
    last_child-IsHeap n t top h p q o above =
        let i = 2 * top + 1 in
        let a = h.tg_heap in
        elim (Bool-cases (i == n - 1 && before (a i) t)) [
          | inl e ↦ rw e (
              closed n (update a top (a i)) i t
                (down-IsOpen n a top i (omega arith) (ground (arith, e)) (omega arith)
                  (λ c r s u. ground (arith, e, total (a i) (a i))) o)
                (λ r. ground (arith, e, total (a i) t)) (λ c r s u. ground (arith, e)))
          | inr e ↦ rw e (
              closed n a top t o above
                (λ c r s u. let f : c ≡ i = ground arith in ground (arith, e, f)))
        ]

    -- What `child` chooses among the two children.
    child-least :
        (n : ℕ) (a : ℕ → ℕ) (t top j : ℕ)
        → child before t (2 * top + 1) a ≡ some j
        → (before (a j) t ≡ true)
          × ((j ≡ 2 * top + 1) ⊎ (j ≡ 2 * top + 2))
          × ((c : ℕ) → 0 < c → c < n → parent c ≡ top → before (a c) (a j) ≡ false)
    unfolding child
    child-least n a t top j e =
        let i = 2 * top + 1 in
        let irreflexive = total (a i) (a i) in
        (
          ground (arith, e, total (a (i + 1)) (a i), trans t (a (i + 1)) (a i)),
          ground (arith, e),
          λ c p q r. ground (
            arith,
            e,
            total (a (i + 1)) (a i),
            total (a (i + 1)) t,
            total (a (i + 1)) (a (i + 1)),
            irreflexive,
            trans (a (i + 1)) t (a i),
          ),
        )

    child-none :
        (n : ℕ) (a : ℕ → ℕ) (t top : ℕ)
        → child before t (2 * top + 1) a ≡ none
        → FitsBelow n a top t
    unfolding child
    child-none n a t top e c p q r = ground (arith, e)

    heapify_loop-IsHeap :
        (n m t top : ℕ) (h : Heap)
        → n ≤ m + top
        → top < n
        → IsOpen n h.tg_heap top
        → FitsAbove h.tg_heap top t
        → IsHeap n (heapify_loop before (n - 1) m t top h).tg_heap
    unfolding heapify_loop
    heapify_loop-IsHeap n zero t top h f p o above = absurd (omega arith)
    heapify_loop-IsHeap n (suc m) t top h f p o above =
        let a = h.tg_heap in
        elim (Bool-cases (ltb (2 * top + 1) (n - 1))) [
          | inr e ↦ rw (e, heapify_loop) (last_child-IsHeap n t top h p (ground arith) o above)
          | inl e ↦ elim (Option-cases (child before t (2 * top + 1) a)) [
            | inl e' ↦ rw (e, e', heapify_loop) (closed n a top t o above (child-none n a t top e'))
            | inr (j, e') ↦
                let (less_t, side, least) = child-least n a t top j e' in
                rw (e, e', heapify_loop)
                  (heapify_loop-IsHeap n m t j (place top (a j) h) (omega arith) (ground arith)
                    (down-IsOpen n a top j (omega arith) (ground arith) (omega arith) least o)
                    (λ r. ground (arith, total (a j) t)))
          ]
        ]

    -- `heapify` makes a heap of one whose place `top` may be more loaded than those below it.
    pub heapify-IsHeap :
        (n top : ℕ) (h : Heap)
        → top < n
        → IsOpen n h.tg_heap top
        → FitsAbove h.tg_heap top (h.tg_heap top)
        → IsHeap n (heapify before n top h).tg_heap
    unfolding heapify
    heapify-IsHeap n top h p o above =
        heapify_loop-IsHeap n n (h.tg_heap top) top h (omega arith) p o above
