-- ===== src/LruCache.antt =====
-- src/util/LRUCache.h. A handle is its address, and a field of the handles is a function of it. An
-- assertion that fails is the result `none`.
pub mod Counts
pub mod Destroy
pub mod Erase
pub mod Put
pub mod Calls
pub mod Reach
mod Tests
use myworkflow.Base.{
  ℕ, zero, suc, ◌+◌, ◌-◌, Bool, true, false, not, ◌&&◌, ◌||◌, Option, none, some, List, [], ◌∷◌,
  ◌++◌, length, ltb, ◌==◌, if◌then◌else◌,
}

abbrev pub update {ℓ} : {A : Type ℓ} → (ℕ → A) → ℕ → A → ℕ → A
update f k v x = if x == k then v else f x

-- The nodes below an `rb_root` or a link, by their handles.
pub data Tree : Type 0 where
  leaf : Tree
  node : Tree → ℕ → Tree → Tree

-- `list_del`, of whichever list the handle is in.
unfoldable pub without : ℕ → List ℕ → List ℕ
without e [] = []
without e (x ∷ xs) = let rest = without e xs in if x == e then rest else x ∷ rest

-- The functions of rbtree.c: `rb_erase`, `rb_replace_node` and `rb_insert_color`.
pub record RbTree : Type 0 where
  pub rb_erase : ℕ → Tree → Tree
  pub rb_replace_node : ℕ → ℕ → Tree → Tree
  pub rb_insert_color : ℕ → Tree → Tree

-- `LRUCache` with the handles. `deleted` are those whose value the deleter has had.
pub record Cache (K V : Type 0) : Type 0 where
  pub max_size : ℕ
  pub size : ℕ
  pub not_use : List ℕ
  pub in_use : List ℕ
  pub cache_map : Tree
  pub key : ℕ → K
  pub value : ℕ → V
  pub in_cache : ℕ → Bool
  pub ref : ℕ → ℕ
  pub deleted : List ℕ

module _ {K : Type 0} (lt : K → K → Bool) where
  -- The loop of `get` and of `put`, from the node `t` on: the last handle that is not less.
  unfoldable pub bound_loop : (ℕ → K) → K → Option ℕ → Tree → Option ℕ
  bound_loop key k bound leaf = bound
  bound_loop key k bound (node l e r) =
      let left = bound_loop key k (some e) l in
      let right = bound_loop key k bound r in if not (lt (key e) k) then left else right

  -- The handle of the key.
  unfoldable pub find : (ℕ → K) → K → Tree → Option ℕ
  unfolding bound_loop
  find key k t = elim (bound_loop key k none t) [
    | none ↦ none
    | some e ↦ if not (lt k (key e)) then some e else none
  ]

  -- `rb_link_node` at the link where the loop of `put` ends.
  unfoldable pub link_node : (ℕ → K) → K → ℕ → Tree → Tree
  link_node key k e leaf = node leaf e leaf
  link_node key k e (node l x r) =
      let left = node (link_node key k e l) x r in
      let right = node l x (link_node key k e r) in if not (lt (key x) k) then left else right

module _ {K V : Type 0} where
  -- The constructor.
  abbrev pub empty : (ℕ → K) → (ℕ → V) → Cache K V
  empty key value = record {
    max_size = 0;
    size = 0;
    not_use = [];
    in_use = [];
    cache_map = leaf;
    key = key;
    value = value;
    in_cache = λ e. false;
    ref = λ e. 0;
    deleted = [];
  }

  abbrev pub set_max_size : ℕ → Cache K V → Cache K V
  set_max_size n c = record c { max_size = n }

  -- `list_del`.
  abbrev pub list_del : ℕ → Cache K V → Cache K V
  list_del e c = record c { not_use = without e c.not_use; in_use = without e c.in_use }

  -- `LRUCache::ref`.
  unfoldable pub add_ref : ℕ → Cache K V → Cache K V
  unfolding without
  add_ref e c =
      let d = list_del e c in
      let moved = record d { in_use = d.in_use ++ (e ∷ []) } in
      let used = if c.in_cache e && c.ref e == 1 then moved else c in
      record used { ref = update c.ref e (c.ref e + 1) }

  -- `LRUCache::unref`.
  unfoldable pub unref : ℕ → Cache K V → Option (Cache K V)
  unfolding without
  unref e c =
      let n = c.ref e - 1 in
      let less = record c { ref = update c.ref e n } in
      let d = list_del e less in
      if c.ref e == 0
      then none
      else if n == 0
      then (if c.in_cache e then none else some (record less { deleted = c.deleted ++ (e ∷ []) }))
      else if c.in_cache e && n == 1
      then some (record d { not_use = d.not_use ++ (e ∷ []) })
      else some less

  -- `LRUCache::erase_node`.
  unfoldable pub erase_node : ℕ → Cache K V → Option (Cache K V)
  unfolding unref without
  erase_node e c =
      if c.in_cache e
      then unref e
          (record (list_del e c) { in_cache = update c.in_cache e false; size = c.size - 1 })
      else none

  -- `LRUCache::release`.
  unfoldable pub release : ℕ → Cache K V → Option (Cache K V)
  unfolding unref
  release e c = unref e c

  -- One handle of the loops that evict.
  unfoldable pub evict : RbTree → ℕ → Cache K V → Option (Cache K V)
  unfolding erase_node
  evict rb e c =
      if c.ref e == 1
      then erase_node e (record c { cache_map = rb.rb_erase e c.cache_map })
      else none

  -- The loop of `prune` over the list as it was.
  unfoldable pub prune_loop : RbTree → List ℕ → Cache K V → Option (Cache K V)
  unfolding evict
  prune_loop rb [] c = some c
  prune_loop rb (e ∷ es) c = elim (evict rb e c) [ none ↦ none | some d ↦ prune_loop rb es d ]

  unfoldable pub prune : RbTree → Cache K V → Option (Cache K V)
  unfolding prune_loop
  prune rb c = prune_loop rb c.not_use c

  -- The loop of `~LRUCache` over the list as it was.
  unfoldable pub destroy_loop : List ℕ → Cache K V → Option (Cache K V)
  unfolding unref
  destroy_loop [] c = some c
  destroy_loop (e ∷ es) c = elim (c.in_cache e && c.ref e == 1) [
    | false ↦ none
    | true ↦ elim (unref e (record c { in_cache = update c.in_cache e false })) [
      | none ↦ none
      | some d ↦ destroy_loop es d
    ]
  ]

  -- `LRUCache::~LRUCache`.
  unfoldable pub destroy : Cache K V → Option (Cache K V)
  unfolding destroy_loop
  destroy c = elim c.in_use [ [] ↦ destroy_loop c.not_use c | e ∷ es ↦ none ]

  -- The loop at the end of `put`, on fuel; `none` is a failed assertion or a loop without fuel.
  unfoldable pub evict_loop : RbTree → ℕ → Cache K V → Option (Cache K V)
  unfolding evict
  evict_loop rb zero c = none
  evict_loop rb (suc fuel) c = elim (ltb c.max_size c.size) [
    | false ↦ some c
    | true ↦ elim c.not_use [
      | [] ↦ some c
      | e ∷ es ↦ elim (evict rb e c) [ none ↦ none | some d ↦ evict_loop rb fuel d ]
    ]
  ]

  module _ (lt : K → K → Bool) where
    unfoldable pub get : K → Cache K V → Option ℕ × Cache K V
    unfolding find add_ref
    get k c = elim (find lt c.key k c.cache_map) [
      | none ↦ (none, c)
      | some e ↦ (some e, add_ref e c)
    ]

    -- `e` is the handle that `new` gives.
    abbrev pub new_handle : ℕ → K → V → Cache K V → Cache K V
    new_handle e k v c = record c {
      key = update c.key e k;
      value = update c.value e v;
      in_cache = update c.in_cache e true;
      ref = update c.ref e 2;
      in_use = c.in_use ++ (e ∷ []);
      size = c.size + 1;
    }

    -- The new handle in the tree, in the place of the old one or in a new one.
    unfoldable pub put_node : RbTree → ℕ → K → V → Cache K V → Option (Cache K V)
    unfolding find link_node erase_node
    put_node rb e k v c =
        let d = new_handle e k v c in
        elim (find lt c.key k c.cache_map) [
          | some b ↦ erase_node b (record d { cache_map = rb.rb_replace_node b e c.cache_map })
          | none ↦
              some
                (record d { cache_map = rb.rb_insert_color e (link_node lt c.key k e c.cache_map) })
        ]

    unfoldable pub put : RbTree → ℕ → K → V → Cache K V → Option (Cache K V)
    unfolding put_node evict_loop
    put rb e k v c = elim (put_node rb e k v c) [
      | none ↦ none
      | some d ↦ if ltb 0 d.max_size then evict_loop rb (suc (length d.not_use)) d else some d
    ]

    -- `LRUCache::del`.
    unfoldable pub del : RbTree → K → Cache K V → Option (Cache K V)
    unfolding get unref erase_node
    del rb k c =
        let (found, d) = get k c in
        elim found [
          | none ↦ some d
          | some e ↦ elim (unref e d) [
            | none ↦ none
            | some u ↦ erase_node e (record u { cache_map = rb.rb_erase e u.cache_map })
          ]
        ]
