-- ===== src/LruCache/Calls.antt =====
-- `put` and `del` of src/util/LRUCache.h with the functions of a red-black tree.
use myworkflow.Base.{
  count, count-append, ℕ, suc, ◌≤◌, ◌<◌, ◌≡◌, refl, sym, ap, subst, ◌∙◌, ◌⊎◌, inl, inr, Bool, false,
  Option, none, some, [], ◌∷◌, ◌==◌, ltb, if◌then◌else◌, arith, ==_iff, length, length-append,
  Bool-cases, Option-cases,
}
use myworkflow.LruCache.{
  Tree, RbTree, Cache, erase_node, release, unref, evict_loop, find, link_node, get, new_handle,
  put_node, put, del,
}
use myworkflow.LruCache.Counts.{Counted, take_one, add_one}
use myworkflow.LruCache.Erase.{
  inorder, RbLaws, IsValid, Counted-cast, erase_node-Counted, evict_loop-IsValid,
}
use myworkflow.LruCache.Put.{find-in, count-link_node, release-IsValid, Gets, get-Gets}

differ : (b e : ℕ) (cached : ℕ → ℕ) → cached b ≡ 1 → cached e ≡ 0 → (b == e) ≡ false
differ b e cached h k = elim (Bool-cases (b == e)) [
  | inr other ↦ other
  | inl same ↦
      let z : cached b ≡ cached e = ap cached ((==_iff b e).0 same) in
      absurd (omega (arith, h, k, z))
]

replaced-count :
    (q b e : ℕ) (cached : ℕ → ℕ)
    → cached e ≡ 0
    → (if q == b then 0 else add_one e cached q)
      ≡ (if q == b then 0 else if q == e then 1 else cached q)
replaced-count q b e cached h = ground arith

module _ {K V : Type 0} (lt : K → K → Bool) (rb : RbTree) (laws : RbLaws rb) where
  -- A handle of its own address is in use, with the caller and the tree.
  new_handle-Counted :
      (e : ℕ) (k : K) (v : V) (c : Cache K V) (held cached : ℕ → ℕ)
      → c.ref e ≡ 0
      → Counted c held cached
      → Counted (new_handle lt e k v c) (add_one e held) (add_one e cached)
  new_handle-Counted e k x c held cached h v = record {
    refs = λ q. ground (arith, v.refs q, h);
    flagged = λ q. ground (arith, v.flagged q, v.refs q, h);
    listed = λ q. let a = count-append q c.in_use (e ∷ []) in ground (arith, v.listed q, a);
    idle = λ q n. ground (arith, v.idle q n, v.listed q, v.refs q, h);
    busy = λ q n. let a = count-append q c.in_use (e ∷ []) in ground (arith, v.busy q, a);
    sized = omega (arith, v.sized, length-append c.in_use (e ∷ []));
  }

  put_node-IsValid :
      (e : ℕ) (k : K) (x : V) (c : Cache K V) (held : ℕ → ℕ)
      → c.ref e ≡ 0
      → IsValid c held
      → (d : Cache K V) × (put_node lt rb e k x c ≡ some d) × IsValid d (add_one e held)
  unfolding put_node
  put_node-IsValid e k x c held h v =
      let n = new_handle lt e k x c in
      let cached : ℕ → ℕ = λ q. count q (inorder c.cache_map) in
      let w = new_handle-Counted e k x c held cached h v in
      let linked = rb.rb_insert_color e (link_node lt c.key k e c.cache_map) in
      let replaced : ℕ → Tree = λ b. rb.rb_replace_node b e c.cache_map in
      let pick : Option ℕ → Option (Cache K V) = λ o. elim o [
        | some b ↦ erase_node b (record n { cache_map = replaced b })
        | none ↦ some (record n { cache_map = linked })
      ] in
      elim (Option-cases (find lt c.key k c.cache_map)) [
        | inl missing ↦ (
          record n { cache_map = linked },
          ap pick missing,
          Counted-cast n linked (add_one e held) (add_one e held) (add_one e cached)
              (λ q. count q (inorder linked)) (λ q. refl)
              (λ q. sym (
                laws.insert q e (link_node lt c.key k e c.cache_map)
                ∙ count-link_node lt c.key k e q c.cache_map))
              w,
        )
        | inr (b, found) ↦
            let some_in = find-in lt c.key k c.cache_map b found in
            let one : cached b ≡ 1 = ground (arith, some_in, v.flagged b) in
            let no_one : cached e ≡ 0 = ground (arith, v.refs e, h) in
            let one' : add_one e cached b ≡ 1 =
              (let z : (b == e) ≡ false = differ b e cached one no_one in ground arith) in
            let w' =
              Counted-cast n (replaced b) (add_one e held) (add_one e held) (add_one e cached)
                (add_one e cached) (λ q. refl) (λ q. refl) w in
            let (d, f, u, m, l, s) =
              erase_node-Counted b (record n { cache_map = replaced b }) (add_one e held)
                (add_one e cached) one' w' in
            (
              d,
              ap pick found ∙ f,
              Counted-cast d d.cache_map (add_one e held) (add_one e held)
                  (λ q. if q == b then 0 else add_one e cached q)
                  (λ q. count q (inorder d.cache_map)) (λ q. refl)
                  (λ q.
                    replaced-count q b e cached no_one
                    ∙ sym (
                        ap (λ z. count q (inorder z)) m
                        ∙ laws.replace q b e c.cache_map one no_one))
                  u,
            )
      ]

  -- `put` of a new handle fails no assertion and ends; where the cache has a limit, it has room then, or
  -- every handle in it is held.
  pub put-IsValid :
      (e : ℕ) (k : K) (x : V) (c : Cache K V) (held : ℕ → ℕ)
      → c.ref e ≡ 0
      → IsValid c held
      → (d : Cache K V) × (put lt rb e k x c ≡ some d)
        × IsValid d (add_one e held)
        × (0 < d.max_size → (d.size ≤ d.max_size) ⊎ (d.not_use ≡ []))
  unfolding put
  put-IsValid e k x c held h v =
      let (d, f, w) = put_node-IsValid e k x c held h v in
      let end : Cache K V → Option (Cache K V) =
        λ z. if ltb 0 z.max_size then evict_loop rb (suc (length z.not_use)) z else some z in
      let go : Option (Cache K V) → Option (Cache K V) =
        λ o. elim o [ none ↦ none | some z ↦ end z ] in
      elim (Bool-cases (ltb 0 d.max_size)) [
        | inr open_end ↦ (
          d,
          ap go f
              ∙ ap (λ b. if b then evict_loop rb (suc (length d.not_use)) d else some d) open_end,
          w,
          (λ n. absurd (ground arith)),
        )
        | inl limit ↦
            let (d', f', w', full) =
              evict_loop-IsValid rb laws (suc (length d.not_use)) d (add_one e held) (omega arith)
                w in
            (
              d',
              ap go f
                  ∙ ap (λ b. if b then evict_loop rb (suc (length d.not_use)) d else some d) limit
                  ∙ f',
              w',
              (λ n. full),
            )
      ]

  -- `del` behind its `get`.
  abbrev del_found : Option ℕ → Cache K V → Option (Cache K V)
  del_found found d = elim found [
    | none ↦ some d
    | some e ↦ elim (unref e d) [
      | none ↦ none
      | some u ↦ erase_node e (record u { cache_map = rb.rb_erase e u.cache_map })
    ]
  ]

  del_found-IsValid :
      (found : Option ℕ) (c d : Cache K V) (held : ℕ → ℕ)
      → IsValid c held
      → Gets lt c held (found, d)
      → (u : Cache K V) × (del_found found d ≡ some u) × IsValid u held
  unfolding release
  del_found-IsValid none c d held v g = (d, refl, subst (λ z. IsValid z held) (sym g) v)
  del_found-IsValid (some e) c d held v (w, one, map) =
      let cached : ℕ → ℕ = λ q. count q (inorder c.cache_map) in
      let (u, f, w', map') = release-IsValid e d (add_one e held) (ground arith) w in
      let tree = rb.rb_erase e u.cache_map in
      let whole : u.cache_map ≡ c.cache_map = map' ∙ map in
      let one' : count e (inorder u.cache_map) ≡ 1 = ap (λ z. count e (inorder z)) whole ∙ one in
      let w'' =
        Counted-cast u tree (take_one e (add_one e held)) held (λ q. count q (inorder u.cache_map))
          (λ q. count q (inorder u.cache_map)) (λ q. ground arith) (λ q. refl) w' in
      let (x, f', z, m, l, s) =
        erase_node-Counted e (record u { cache_map = tree }) held
          (λ q. count q (inorder u.cache_map)) one' w'' in
      let go : Option (Cache K V) → Option (Cache K V) = λ o. elim o [
        | none ↦ none
        | some y ↦ erase_node e (record y { cache_map = rb.rb_erase e y.cache_map })
      ] in
      (
        x,
        ap go f ∙ f',
        Counted-cast x x.cache_map held held
            (λ q. if q == e then 0 else count q (inorder u.cache_map))
            (λ q. count q (inorder x.cache_map)) (λ q. refl)
            (λ q. sym (ap (λ y. count q (inorder y)) m ∙ laws.erase q e u.cache_map one')) z,
      )

  pub del-IsValid :
      (k : K) (c : Cache K V) (held : ℕ → ℕ)
      → IsValid c held
      → (d : Cache K V) × (del lt rb k c ≡ some d) × IsValid d held
  unfolding del
  del-IsValid k c held v =
      let r = get lt k c in del_found-IsValid r.0 c r.1 held v (get-Gets lt k c held v)
