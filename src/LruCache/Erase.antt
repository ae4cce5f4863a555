-- ===== src/LruCache/Erase.antt =====
-- Evicting of src/util/LRUCache.h: no assertion fails.
use myworkflow.Base.{
  count, ℕ, zero, suc, ◌-◌, ◌≤◌, ◌<◌, ◌≡◌, refl, sym, ap, ◌∙◌, ◌⊎◌, inl, inr, Bool, true, false,
  ◌&&◌, Option, none, some, List, [], ◌∷◌, ◌++◌, ◌==◌, ltb, if◌then◌else◌, arith, length,
  Bool-cases, cases_if,
}
use myworkflow.LruCache.{
  Tree, leaf, node, update, without, RbTree, Cache, list_del, unref, erase_node, evict, prune_loop,
  prune, evict_loop,
}
use myworkflow.LruCache.Counts.{Counted, unref_to, unref-some, erased, erased-Counted}

-- The handles of a tree, in order.
abbrev pub inorder : Tree → List ℕ
inorder leaf = []
inorder (node l e r) = inorder l ++ (e ∷ inorder r)

-- What the cache relies on of rbtree.c: a node is taken out, put in the place of another, or left in
-- while the tree is balanced.
pub record RbLaws (rb : RbTree) : Type 0 where
  pub erase :
      (q e : ℕ) (t : Tree)
      → count e (inorder t) ≡ 1
      → count q (inorder (rb.rb_erase e t)) ≡ (if q == e then 0 else count q (inorder t))
  pub replace :
      (q b e : ℕ) (t : Tree)
      → count b (inorder t) ≡ 1
      → count e (inorder t) ≡ 0
      → count q (inorder (rb.rb_replace_node b e t))
        ≡ (if q == b then 0 else if q == e then 1 else count q (inorder t))
  pub insert :
      (q e : ℕ) (t : Tree) → count q (inorder (rb.rb_insert_color e t)) ≡ count q (inorder t)

module _ {K V : Type 0} where
  -- The references are those of the callers and of the tree.
  abbrev pub IsValid : Cache K V → (ℕ → ℕ) → Type 0
  IsValid c held = Counted c held (λ q. count q (inorder c.cache_map))

  pub Counted-cast :
      (c : Cache K V) (t : Tree) (held held' cached cached' : ℕ → ℕ)
      → ((q : ℕ) → held q ≡ held' q)
      → ((q : ℕ) → cached q ≡ cached' q)
      → Counted c held cached
      → Counted (record c { cache_map = t }) held' cached'
  Counted-cast c t held held' cached cached' f g v = record {
    refs = λ q. ground (arith, v.refs q, f q, g q);
    flagged = λ q. sym (g q) ∙ v.flagged q;
    listed = λ q. v.listed q ∙ g q;
    idle = λ q n. sym (f q) ∙ v.idle q n;
    busy = λ q n. ground (arith, v.busy q n, f q);
    sized = v.sized;
  }

  -- `erase_node` of a handle in the tree fails no assertion, and takes it out of the counts.
  pub erase_node-Counted :
      (e : ℕ) (c : Cache K V) (held cached : ℕ → ℕ)
      → cached e ≡ 1
      → Counted c held cached
      → (d : Cache K V) × (erase_node e c ≡ some d)
        × Counted d held (λ q. if q == e then 0 else cached q)
        × (d.cache_map ≡ c.cache_map)
        × (d.not_use ≡ without e c.not_use)
        × (d.max_size ≡ c.max_size)
  unfolding erase_node
  erase_node-Counted e c held cached h v =
      let c₁ = erased e c in
      let r = v.refs e in
      let f = v.flagged e in
      let cached' : ℕ → ℕ = λ q. if q == e then 0 else cached q in
      let P : Cache K V → Type 0 = λ z.
        Counted z held cached'
        × (z.cache_map ≡ c.cache_map)
        × (z.not_use ≡ without e c.not_use)
        × (z.max_size ≡ c.max_size) in
      let less = record c₁ { ref = update c.ref e (c.ref e - 1) } in
      let last = record less { deleted = c.deleted ++ (e ∷ []) } in
      let d = list_del e less in
      let moved = record d { not_use = d.not_use ++ (e ∷ []) } in
      let out : update c.in_cache e false e ≡ false = ground arith in
      let left : P (unref_to e c₁) =
        cases_if P (c.ref e - 1 == 0) last
          (if update c.in_cache e false e && (c.ref e - 1 == 1) then moved else less)
          (λ b. (erased-Counted e c held cached (c.deleted ++ (e ∷ [])) h v, refl, refl, refl))
          (λ b.
            cases_if P (update c.in_cache e false e && (c.ref e - 1 == 1)) moved less
              (λ k. absurd (ground arith))
              (λ k. (erased-Counted e c held cached c.deleted h v, refl, refl, refl))) in
      let inside : c.in_cache e ≡ true = ground arith in
      (
        unref_to e c₁,
        ap (λ b. if b then unref e c₁ else none) inside ∙ unref-some e c₁ (ground arith) (λ k. out),
        left.0,
        left.1,
        left.2,
        left.3,
      )

list_cases : (l : List ℕ) → (l ≡ []) ⊎ ((x : ℕ) × (xs : List ℕ) × (l ≡ x ∷ xs))
list_cases [] = inl refl
list_cases (x ∷ xs) = inr (x, xs, refl)

without-none : (e : ℕ) (l : List ℕ) → count e l ≡ 0 → without e l ≡ l
unfolding without
without-none e [] h = refl
without-none e (x ∷ l) h = ground (arith, without-none e l)

head-once : (e : ℕ) (es : List ℕ) → count e (e ∷ es) ≤ 1 → without e (e ∷ es) ≡ es
unfolding without
head-once e es h = ground (arith, without-none e es)

count-head : (e : ℕ) (l es : List ℕ) → l ≡ e ∷ es → 0 < count e l
count-head e l es h = let k = ap (count e) h in ground (arith, k)

module _ {K V : Type 0} (rb : RbTree) (laws : RbLaws rb) where
  -- A handle that nobody holds is evicted.
  evict-IsValid :
      (e : ℕ) (c : Cache K V) (held : ℕ → ℕ)
      → 0 < count e c.not_use
      → IsValid c held
      → (d : Cache K V) × (evict rb e c ≡ some d)
        × IsValid d held
        × (d.not_use ≡ without e c.not_use)
        × (d.max_size ≡ c.max_size)
  unfolding evict
  evict-IsValid e c held n v =
      let t = rb.rb_erase e c.cache_map in
      let cached : ℕ → ℕ = λ q. count q (inorder c.cache_map) in
      let one : cached e ≡ 1 = ground (arith, v.listed e, v.flagged e) in
      let v' = Counted-cast c t held held cached cached (λ q. refl) (λ q. refl) v in
      let (d, h, w, m, l, s) =
        erase_node-Counted e (record c { cache_map = t }) held cached one v' in
      let single : (c.ref e == 1) ≡ true = ground (arith, v.refs e, v.idle e n, one) in
      (
        d,
        ap (λ b. if b then erase_node e (record c { cache_map = t }) else none) single ∙ h,
        Counted-cast d d.cache_map held held (λ q. if q == e then 0 else cached q)
            (λ q. count q (inorder d.cache_map)) (λ q. refl)
            (λ q. sym (ap (λ z. count q (inorder z)) m ∙ laws.erase q e c.cache_map one)) w,
        l,
        s,
      )

  -- The first handle that nobody holds is evicted, and the others stay.
  evict_first :
      (x : ℕ) (es : List ℕ) (c : Cache K V) (held : ℕ → ℕ)
      → c.not_use ≡ x ∷ es
      → IsValid c held
      → (d : Cache K V) × (evict rb x c ≡ some d)
        × IsValid d held
        × (d.not_use ≡ es)
        × (d.max_size ≡ c.max_size)
  evict_first x es c held e v =
      let (d, h, w, l, m) = evict-IsValid x c held (count-head x c.not_use es e) v in
      let once : count x (x ∷ es) ≤ 1 =
        (let k = ap (count x) e in ground (arith, k, v.listed x, v.flagged x)) in
      (d, h, w, l ∙ ap (without x) e ∙ head-once x es once, m)

  -- The loop over the handles that nobody holds.
  prune_loop-IsValid :
      (es : List ℕ) (c : Cache K V) (held : ℕ → ℕ)
      → c.not_use ≡ es
      → IsValid c held
      → (d : Cache K V) × (prune_loop rb es c ≡ some d) × IsValid d held × (d.not_use ≡ [])
  unfolding prune_loop
  prune_loop-IsValid [] c held e v = (c, refl, v, e)
  prune_loop-IsValid (x ∷ es) c held e v =
      let go : Option (Cache K V) → Option (Cache K V) =
        λ o. elim o [ none ↦ none | some d ↦ prune_loop rb es d ] in
      let (d, h, w, l, m) = evict_first x es c held e v in
      let (d', h', w', l') = prune_loop-IsValid es d held l w in (d', ap go h ∙ h', w', l')

  -- `prune` fails no assertion, and leaves no handle that nobody holds.
  pub prune-IsValid :
      (c : Cache K V) (held : ℕ → ℕ)
      → IsValid c held
      → (d : Cache K V) × (prune rb c ≡ some d) × IsValid d held × (d.not_use ≡ [])
  unfolding prune
  prune-IsValid c held v = prune_loop-IsValid c.not_use c held refl v

  -- What the loop of `put` leaves.
  abbrev pub Evicted : Option (Cache K V) → (ℕ → ℕ) → Type 0
  Evicted o held =
      (d : Cache K V) × (o ≡ some d) × IsValid d held × ((d.size ≤ d.max_size) ⊎ (d.not_use ≡ []))

  -- The loop of `put` ends, and the cache has room or every handle in it is held.
  pub evict_loop-IsValid :
      (fuel : ℕ) (c : Cache K V) (held : ℕ → ℕ)
      → length c.not_use < fuel
      → IsValid c held
      → Evicted (evict_loop rb fuel c) held
  unfolding evict_loop
  evict_loop-IsValid zero c held n v = absurd (omega arith)
  evict_loop-IsValid (suc fuel) c held n v =
      let go : Option (Cache K V) → Option (Cache K V) =
        λ o. elim o [ none ↦ none | some d ↦ evict_loop rb fuel d ] in
      let first : List ℕ → Option (Cache K V) =
        λ l. elim l [ [] ↦ some c | e ∷ es ↦ go (evict rb e c) ] in
      let round : Bool → Option (Cache K V) =
        λ b. elim b [ false ↦ some c | true ↦ first c.not_use ] in
      elim (Bool-cases (ltb c.max_size c.size)) [
        | inr room ↦ (c, ap round room, v, inl (ground arith))
        | inl full ↦ elim (list_cases c.not_use) [
          | inl e ↦ (c, ap round full ∙ ap first e, v, inr e)
          | inr (x, es, e) ↦
              let (d, h, w, l, m) = evict_first x es c held e v in
              let (d', h', w', k) =
                evict_loop-IsValid fuel d held (omega (arith, n, ap length e, ap length l)) w in
              (d', ap round full ∙ ap first e ∙ ap go h ∙ h', w', k)
        ]
      ]
