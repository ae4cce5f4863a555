-- ===== src/LruCache/Put.antt =====
-- `get`, `put`, `del` and `release` of src/util/LRUCache.h fail no assertion.
use myworkflow.Base.{
  count, count-append, ℕ, ◌-◌, ◌<◌, ◌≡◌, refl, sym, ap, subst, ◌∙◌, ◌⊎◌, inl, inr, Bool, not, ◌&&◌,
  Option, none, some, [], ◌∷◌, ◌++◌, ◌==◌, if◌then◌else◌, arith, Bool-cases, cases_if,
  both_branches, Option-cases,
}
use myworkflow.LruCache.{
  Tree, leaf, node, update, Cache, list_del, add_ref, release, bound_loop, find, link_node, get,
}
use myworkflow.LruCache.Counts.{
  take_one, add_one, unref_to, unref-some, unref-Counted, add_ref-Counted,
}
use myworkflow.LruCache.Erase.{inorder, IsValid, Counted-cast}

module _ {K : Type 0} (lt : K → K → Bool) where
  -- The loop gives the handle that it has, or one of the tree.
  bound_loop-in :
      (key : ℕ → K) (k : K) (bound : Option ℕ) (t : Tree) (e : ℕ)
      → bound_loop lt key k bound t ≡ some e
      → (bound ≡ some e) ⊎ (0 < count e (inorder t))
  unfolding bound_loop
  bound_loop-in key k bound leaf e h = inl h
  bound_loop-in key k bound (node l x r) e h =
      let left = bound_loop lt key k (some x) l in
      let right = bound_loop lt key k bound r in
      let counts = count-append e (inorder l) (x ∷ inorder r) in
      elim (Bool-cases (not (lt (key x) k))) [
        | inl b ↦
            let h' = subst (λ z. (if z then left else right) ≡ some e) b h in
            elim (bound_loop-in key k (some x) l e h') [
              | inl same ↦ let z : x ≡ e = cc in inr (ground (arith, counts))
              | inr inside ↦ inr (ground (arith, counts))
            ]
        | inr b ↦
            let h' = subst (λ z. (if z then left else right) ≡ some e) b h in
            elim (bound_loop-in key k bound r e h') [
              | inl same ↦ inl same
              | inr inside ↦ inr (ground (arith, counts))
            ]
      ]

  abbrev chosen : (ℕ → K) → K → Option ℕ → Option ℕ
  chosen key k o = elim o [ none ↦ none | some e ↦ if not (lt k (key e)) then some e else none ]

  pub find-in :
      (key : ℕ → K) (k : K) (t : Tree) (e : ℕ) → find lt key k t ≡ some e → 0 < count e (inorder t)
  unfolding find
  find-in key k t e h = elim (Option-cases (bound_loop lt key k none t)) [
    | inl missing ↦ let h' = subst (λ o. chosen key k o ≡ some e) missing h in cc
    | inr (b, found) ↦
        let h' = subst (λ o. chosen key k o ≡ some e) found h in
        elim (Bool-cases (not (lt k (key b)))) [
          | inr z ↦ let h'' = subst (λ y. (if y then some b else none) ≡ some e) z h' in cc
          | inl z ↦
              let h'' = subst (λ y. (if y then some b else none) ≡ some e) z h' in
              let same : b ≡ e = cc in
              elim (bound_loop-in key k none t e (found ∙ ap some same)) [ inl w ↦ cc | inr w ↦ w ]
        ]
  ]

  pub count-link_node :
      (key : ℕ → K) (k : K) (e q : ℕ) (t : Tree)
      → count q (inorder (link_node lt key k e t)) ≡ add_one e (λ z. count z (inorder t)) q
  unfolding link_node
  count-link_node key k e q leaf = ground arith
  count-link_node key k e q (node l x r) =
      let left = node (link_node lt key k e l) x r in
      let right = node l x (link_node lt key k e r) in
      let a = count-append q (inorder l) (x ∷ inorder r) in
      cases_if (λ z. count q (inorder z) ≡ add_one e (λ y. count y (inorder (node l x r))) q)
        (not (lt (key x) k)) left right
        (λ b.
          let i = count-link_node key k e q l in
          let d = count-append q (inorder (link_node lt key k e l)) (x ∷ inorder r) in
          ground (arith, a, d, i))
        (λ b.
          let i = count-link_node key k e q r in
          let d = count-append q (inorder l) (x ∷ inorder (link_node lt key k e r)) in
          ground (arith, a, d, i))

module _ {K V : Type 0} where
  -- A handle that a caller holds can be released: what is left if it is in the cache or not.
  pub release-IsValid :
      (e : ℕ) (c : Cache K V) (held : ℕ → ℕ)
      → 0 < held e
      → IsValid c held
      → (d : Cache K V) × (release e c ≡ some d)
        × IsValid d (take_one e held)
        × (d.cache_map ≡ c.cache_map)
  unfolding release
  release-IsValid e c held h v =
      let d = unref_to e c in
      let r = v.refs e in
      let f = v.flagged e in
      let map : d.cache_map ≡ c.cache_map =
        (let less = record c { ref = update c.ref e (c.ref e - 1) } in
          let l = list_del e less in
          let moved = record l { not_use = l.not_use ++ (e ∷ []) } in
          let P : Cache K V → Type 0 = λ z. z.cache_map ≡ c.cache_map in
          both_branches P (c.ref e - 1 == 0) (record less { deleted = c.deleted ++ (e ∷ []) })
            (if c.in_cache e && (c.ref e - 1 == 1) then moved else less) refl
            (both_branches P (c.in_cache e && (c.ref e - 1 == 1)) moved less refl refl)) in
      (
        d,
        unref-some e c (ground (arith, r)) (λ z. ground (arith, r, f)),
        Counted-cast d d.cache_map (take_one e held) (take_one e held)
            (λ q. count q (inorder c.cache_map)) (λ q. count q (inorder d.cache_map)) (λ q. refl)
            (λ q. sym (ap (λ z. count q (inorder z)) map))
            (unref-Counted e c held (λ q. count q (inorder c.cache_map)) h v),
        map,
      )

  add_ref-cache_map : (e : ℕ) (c : Cache K V) → (add_ref e c).cache_map ≡ c.cache_map
  unfolding add_ref
  add_ref-cache_map e c =
      let d = list_del e c in
      both_branches (λ z. z.cache_map ≡ c.cache_map) (c.in_cache e && c.ref e == 1)
        (record d { in_use = d.in_use ++ (e ∷ []) }) c refl refl

module _ {K V : Type 0} (lt : K → K → Bool) where
  -- What `get` gives is held once more.
  abbrev pub Gets : Cache K V → (ℕ → ℕ) → Option ℕ × Cache K V → Type 0
  Gets c held (none, d) = d ≡ c
  Gets c held (some e, d) =
      IsValid d (add_one e held) × (count e (inorder c.cache_map) ≡ 1) × (d.cache_map ≡ c.cache_map)

  pub get-Gets : (k : K) (c : Cache K V) (held : ℕ → ℕ) → IsValid c held → Gets c held (get lt k c)
  unfolding get
  get-Gets k c held v =
      let pick : Option ℕ → Option ℕ × Cache K V =
        λ o. elim o [ none ↦ (none, c) | some e ↦ (some e, add_ref e c) ] in
      elim (Option-cases (find lt c.key k c.cache_map)) [
        | inl missing ↦ subst (λ o. Gets c held (pick o)) (sym missing) refl
        | inr (e, found) ↦
            let some_in = find-in lt c.key k c.cache_map e found in
            let one : count e (inorder c.cache_map) ≡ 1 = ground (arith, some_in, v.flagged e) in
            let map = add_ref-cache_map e c in
            subst (λ o. Gets c held (pick o)) (sym found)
              (
                Counted-cast (add_ref e c) (add_ref e c).cache_map (add_one e held) (add_one e held)
                    (λ q. count q (inorder c.cache_map))
                    (λ q. count q (inorder (add_ref e c).cache_map)) (λ q. refl)
                    (λ q. sym (ap (λ z. count q (inorder z)) map))
                    (add_ref-Counted e c held (λ q. count q (inorder c.cache_map)) one v),
                one,
                map,
              )
      ]
