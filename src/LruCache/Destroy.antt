-- ===== src/LruCache/Destroy.antt =====
-- The destructor of src/util/LRUCache.h.
use myworkflow.Base.{
  count, ℕ, ◌-◌, ◌<◌, ◌≡◌, refl, sym, ap, ◌∙◌, Bool, true, false, ◌&&◌, Option, none, some, List,
  [], ◌∷◌, ◌++◌, ◌==◌, arith, append_assoc, append-nil, Bool-cases, ==_iff, inl, inr,
}
use myworkflow.LruCache.{update, RbTree, Cache, unref, destroy_loop, destroy}
use myworkflow.LruCache.Erase.{RbLaws}
use myworkflow.LruCache.Reach.{Reach, Reach-Counted}

module _ {K V : Type 0} where
  -- What one round of the destructor leaves.
  abbrev destroyed : ℕ → Cache K V → Cache K V
  destroyed e c = record c {
    in_cache = update c.in_cache e false;
    ref = update c.ref e (c.ref e - 1);
    deleted = c.deleted ++ (e ∷ []);
  }

  -- The handles of the list are in the cache, once each, and nobody holds one.
  abbrev Idle : List ℕ → Cache K V → Type 0
  Idle l c = (q : ℕ) → 0 < count q l → (c.in_cache q ≡ true) × (c.ref q ≡ 1) × (count q l ≡ 1)

  unref-destroyed :
      (e : ℕ) (c : Cache K V)
      → c.ref e ≡ 1
      → unref e (record c { in_cache = update c.in_cache e false }) ≡ some (destroyed e c)
  unfolding unref
  unref-destroyed e c h = ground arith

  Idle-tail : (e : ℕ) (l : List ℕ) (c : Cache K V) → Idle (e ∷ l) c → Idle l (destroyed e c)
  Idle-tail e l c h q m =
      let (b, r, n) = h e (ground arith) in
      let (b', r', n') = h q (ground arith) in
      elim (Bool-cases (q == e)) [
        | inl same ↦ absurd (
            let z : count q l ≡ count e l = ap (λ y. count y l) ((==_iff q e).0 same) in
            ground (arith, n, z, m))
        | inr other ↦ (ground arith, ground arith, ground arith)
      ]

  destroy_loop-deleted :
      (l : List ℕ) (c : Cache K V)
      → Idle l c
      → (d : Cache K V) × (destroy_loop l c ≡ some d) × (d.deleted ≡ c.deleted ++ l)
  unfolding destroy_loop
  destroy_loop-deleted [] c h = (c, refl, sym (append-nil c.deleted))
  destroy_loop-deleted (e ∷ l) c h =
      let (b, r, n) = h e (ground arith) in
      let both : (c.in_cache e && c.ref e == 1) ≡ true = ground arith in
      let idle = Idle-tail e l c h in
      let (d, f, g) = destroy_loop-deleted l (destroyed e c) idle in
      let next : Option (Cache K V) → Option (Cache K V) =
        λ o. elim o [ none ↦ none | some z ↦ destroy_loop l z ] in
      (
        d,
        ap
              (λ z. elim z [
                | false ↦ none
                | true ↦ next (unref e (record c { in_cache = update c.in_cache e false }))
              ])
              both
            ∙ ap next (unref-destroyed e c r)
            ∙ f,
        g ∙ append_assoc c.deleted (e ∷ []) l,
      )

count-empty : (l : List ℕ) → ((q : ℕ) → count q l ≡ 0) → l ≡ []
count-empty [] h = refl
count-empty (x ∷ l) h = absurd (let z = h x in ground arith)

module _ {K V : Type 0} (lt : K → K → Bool) (rb : RbTree) (laws : RbLaws rb) where
  -- After any calls, where no caller holds a handle, the destructor fails no assertion, and the deleter
  -- gets the value of every handle that has a reference, in the order of the list of those not in use.
  pub destroy-deleted :
      (c : Cache K V) (held : ℕ → ℕ)
      → Reach lt rb laws c held
      → ((q : ℕ) → held q ≡ 0)
      → (d : Cache K V) × (destroy c ≡ some d)
        × (d.deleted ≡ c.deleted ++ c.not_use)
        × ((q : ℕ) → 0 < c.ref q → 0 < count q c.not_use)
  unfolding destroy
  destroy-deleted c held r h =
      let v = Reach-Counted lt rb laws c held r in
      let no_one : (q : ℕ) → count q c.in_use ≡ 0 = (λ q. grind (arith, v.busy q, h q)) in
      let unused : c.in_use ≡ [] = count-empty c.in_use no_one in
      let idle : Idle c.not_use c = (λ q m.
        let a = v.refs q in
        let b = v.flagged q in
        let d = v.listed q in
        let n = no_one q in
        let z = h q in
        (
          ground (arith, a, b, d, n, z),
          ground (arith, a, b, d, n, z),
          ground (arith, a, b, d, n, z),
        )) in
      let (d, f, g) = destroy_loop-deleted c.not_use c idle in
      (
        d,
        ap (λ z. elim z [ [] ↦ destroy_loop c.not_use c | e ∷ es ↦ none ]) unused ∙ f,
        g,
        (λ q m. omega (arith, v.refs q, v.listed q, no_one q, h q)),
      )
