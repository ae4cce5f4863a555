-- ===== src/Scheduler/Links.antt =====
-- The loops of src/kernel/CommScheduler.cc keep the targets of the heap, and the index that each has.
use myworkflow.Base.{
  ℕ, zero, suc, ◌+◌, ◌-◌, ◌*◌, ◌≤◌, ◌<◌, ◌≡◌, ◌≢◌, ◌⊎◌, inl, inr, refl, sym, ap, ◌∙◌, Bool, true,
  ◌&&◌, some, ltb, ◌==◌, arith, Bool-cases, Option-cases,
}
use myworkflow.Scheduler.{
  update, Heap, place, parent, rises, adjust_loop, heap_adjust, child, last_child, heapify_loop,
  heapify,
}

-- The sum of `f` over the targets at the first `n` places.
abbrev pub sum : (ℕ → ℕ) → ℕ → (ℕ → ℕ) → ℕ
sum f zero a = 0
sum f (suc n) a = sum f n a + f (a n)

pub sum-update_out :
    (f : ℕ → ℕ) (n : ℕ) (a : ℕ → ℕ) (i x : ℕ) → n ≤ i → sum f n (update a i x) ≡ sum f n a
sum-update_out f zero a i x p = refl
sum-update_out f (suc n) a i x p = ground (arith, sum-update_out f n a i x)

pub sum-update :
    (f : ℕ → ℕ) (n : ℕ) (a : ℕ → ℕ) (i x : ℕ)
    → i < n
    → sum f n (update a i x) + f (a i) ≡ sum f n a + f x
sum-update f zero a i x p = absurd (omega arith)
sum-update f (suc n) a i x p = ground (arith, sum-update f n a i x, sum-update_out f n a i x)

sum-move :
    (f : ℕ → ℕ) (n : ℕ) (a : ℕ → ℕ) (hole j t : ℕ)
    → hole < n
    → j < n
    → j ≢ hole
    → sum f n (update (update a hole (a j)) j t) ≡ sum f n (update a hole t)
sum-move f n a hole j t p q r =
    let b = update a hole (a j) in
    let e : b j ≡ a j = ground arith in
    omega (
      arith,
      sum-update f n b j t q,
      ap f e,
      sum-update f n a hole (a j) p,
      sum-update f n a hole t p,
    )

child-side :
    (before : ℕ → ℕ → Bool) (t top : ℕ) (a : ℕ → ℕ) (j : ℕ)
    → child before t (2 * top + 1) a ≡ some j
    → (j ≡ 2 * top + 1) ⊎ (j ≡ 2 * top + 2)
unfolding child
child-side before t top a j e = ground (arith, e)

module _ (member : ℕ → Bool) (n : ℕ) where
  -- Outside the open place the heap holds members, each at its index, and it holds all but `t`.
  pub record Linked (h : Heap) (hole t : ℕ) : Type 0 where
    pub at_index : (i : ℕ) → i < n → i ≢ hole → h.index (h.tg_heap i) ≡ i
    pub members : (i : ℕ) → i < n → i ≢ hole → (member (h.tg_heap i) ≡ true) × (h.tg_heap i ≢ t)
    pub found :
        (x : ℕ)
        → member x ≡ true
        → x ≢ t
        → (h.index x < n) × (h.index x ≢ hole) × (h.tg_heap (h.index x) ≡ x)

  -- The heap holds the members, each once and at its index.
  pub record Indexed (h : Heap) : Type 0 where
    pub at_index : (i : ℕ) → i < n → h.index (h.tg_heap i) ≡ i
    pub members : (i : ℕ) → i < n → member (h.tg_heap i) ≡ true
    pub found : (x : ℕ) → member x ≡ true → (h.index x < n) × (h.tg_heap (h.index x) ≡ x)

  move-Linked :
      (h : Heap) (hole j t : ℕ)
      → hole < n
      → j < n
      → j ≢ hole
      → Linked h hole t
      → Linked (place hole (h.tg_heap j) h) j t
  move-Linked h hole j t p q r l = record {
    at_index = λ i s u. ground (arith, l.at_index i s, l.at_index j q r);
    members = λ i s u. ground (arith, l.members i s, l.members j q r);
    found = λ x m d. ground (arith, l.found x m d, l.members j q r);
  }

  place-Indexed :
      (h : Heap) (hole t : ℕ)
      → hole < n
      → member t ≡ true
      → Linked h hole t
      → Indexed (place hole t h)
  place-Indexed h hole t p m l = record {
    at_index = λ i s. ground (arith, l.at_index i s, l.members i s);
    members = λ i s. ground (arith, l.members i s);
    found = λ x k. ground (arith, l.found x k);
  }

  pub Indexed-Linked : (h : Heap) (hole : ℕ) → hole < n → Indexed h → Linked h hole (h.tg_heap hole)
  Indexed-Linked h hole p x = record {
    at_index = λ i s u. x.at_index i s;
    members = λ i s u.
        (x.members i s, λ e. u (sym (x.at_index i s) ∙ (ap h.index e ∙ x.at_index hole p)));
    found = λ y m d. let (a, b) = x.found y m in (a, λ e. d (sym b ∙ ap h.tg_heap e), b);
  }

  -- What a loop that puts `t` into the open place makes of the heap.
  pub record Kept (h : Heap) (hole t : ℕ) (g : Heap) : Type 0 where
    pub indexed : Indexed g
    pub sums : (f : ℕ → ℕ) → sum f n g.tg_heap ≡ sum f n (update h.tg_heap hole t)

  place-Kept :
      (h : Heap) (hole t : ℕ)
      → hole < n
      → member t ≡ true
      → Linked h hole t
      → Kept h hole t (place hole t h)
  place-Kept h hole t p m l = record { indexed = place-Indexed h hole t p m l; sums = λ f. refl }

  Kept-moved :
      (h : Heap) (hole j t : ℕ) (g : Heap)
      → hole < n
      → j < n
      → j ≢ hole
      → Kept (place hole (h.tg_heap j) h) j t g
      → Kept h hole t g
  Kept-moved h hole j t g p q r k = record {
    indexed = k.indexed;
    sums = λ f. k.sums f ∙ sum-move f n h.tg_heap hole j t p q r;
  }

  module _ (before : ℕ → ℕ → Bool) where
    pub adjust_loop-Kept :
        (swap : Bool) (m t i : ℕ) (h : Heap)
        → i < n
        → member t ≡ true
        → Linked h i t
        → Kept h i t (adjust_loop before swap m t i h)
    unfolding adjust_loop
    adjust_loop-Kept swap zero t i h p k l = place-Kept h i t p k l
    adjust_loop-Kept swap (suc m) t i h p k l =
        let up = h.tg_heap (parent i) in
        elim (Bool-cases (ltb 0 i && rises before swap t up)) [
          | inl e ↦
              let q : parent i ≢ i = ground (arith, e) in
              rw e (
                Kept-moved h i (parent i) t (adjust_loop before swap m t (parent i) (place i up h))
                  p (omega arith) q
                  (adjust_loop-Kept swap m t (parent i) (place i up h) (omega arith) k
                    (move-Linked h i (parent i) t p (omega arith) q l)))
          | inr e ↦ rw e (place-Kept h i t p k l)
        ]

    last_child-Kept :
        (t top : ℕ) (h : Heap)
        → top < n
        → member t ≡ true
        → Linked h top t
        → Kept h top t (last_child before (n - 1) t top h)
    unfolding last_child
    last_child-Kept t top h p k l =
        let i = 2 * top + 1 in
        elim (Bool-cases (i == n - 1 && before (h.tg_heap i) t)) [
          | inl e ↦
              let q : i < n = ground (arith, e) in
              rw e (
                Kept-moved h top i t (place i t (place top (h.tg_heap i) h)) p q (omega arith) (
                  place-Kept (place top (h.tg_heap i) h) i t q k
                    (move-Linked h top i t p q (omega arith) l)))
          | inr e ↦ rw e (place-Kept h top t p k l)
        ]

    heapify_loop-Kept :
        (m t top : ℕ) (h : Heap)
        → top < n
        → member t ≡ true
        → Linked h top t
        → Kept h top t (heapify_loop before (n - 1) m t top h)
    unfolding heapify_loop
    heapify_loop-Kept zero t top h p k l = last_child-Kept t top h p k l
    heapify_loop-Kept (suc m) t top h p k l = elim (Bool-cases (ltb (2 * top + 1) (n - 1))) [
      | inr e ↦ rw (e, heapify_loop) (last_child-Kept t top h p k l)
      | inl e ↦ elim (Option-cases (child before t (2 * top + 1) h.tg_heap)) [
        | inl e' ↦ rw (e, e', heapify_loop) (place-Kept h top t p k l)
        | inr (j, e') ↦
            let side = child-side before t top h.tg_heap j e' in
            let q : j < n = ground (arith, e, side) in
            let r : j ≢ top = ground (arith, side) in
            let g = place top (h.tg_heap j) h in
            rw (e, e', heapify_loop)
              (Kept-moved h top j t (heapify_loop before (n - 1) m t j g) p q r
                (heapify_loop-Kept m t j g q k (move-Linked h top j t p q r l)))
      ]
    ]

    -- The two loops on a whole heap.
    pub heap_adjust-Kept :
        (swap : Bool) (i : ℕ) (h : Heap)
        → i < n
        → Indexed h
        → Kept h i (h.tg_heap i) (heap_adjust before swap i h)
    unfolding heap_adjust
    heap_adjust-Kept swap i h p x =
        adjust_loop-Kept swap i (h.tg_heap i) i h p (x.members i p) (Indexed-Linked h i p x)

    pub heapify-Kept :
        (top : ℕ) (h : Heap)
        → top < n
        → Indexed h
        → Kept h top (h.tg_heap top) (heapify before n top h)
    unfolding heapify
    heapify-Kept top h p x =
        heapify_loop-Kept n (h.tg_heap top) top h p (x.members top p) (Indexed-Linked h top p x)

-- Putting the target of a place where it is changes no sum.
pub sum-same :
    (f : ℕ → ℕ) (n : ℕ) (a : ℕ → ℕ) (i : ℕ) → i < n → sum f n (update a i (a i)) ≡ sum f n a
sum-same f n a i p = omega (arith, sum-update f n a i (a i) p)
