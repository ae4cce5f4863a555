-- ===== src/LruCache/Counts.antt =====
-- The references and the lists of src/util/LRUCache.h, counted for each handle.
use myworkflow.Base.{
  count, count-append, ℕ, ◌+◌, ◌-◌, ◌<◌, ◌≡◌, refl, false, ◌&&◌, some, List, [], ◌∷◌, ◌++◌, ◌==◌,
  if◌then◌else◌, arith, length, length-append, cases_if,
}
use myworkflow.LruCache.{update, without, Cache, list_del, add_ref, unref}

-- One less at `e`.
abbrev pub take_one : ℕ → (ℕ → ℕ) → ℕ → ℕ
take_one e f q = if q == e then f q - 1 else f q

abbrev pub add_one : ℕ → (ℕ → ℕ) → ℕ → ℕ
add_one e f q = if q == e then f q + 1 else f q

module _ {K V : Type 0} where
  -- Of each handle `held` are with the callers, and `cached` are in the tree. A reference is one of
  -- either; a handle in the tree is in the one list if it is held, and in the other if it is not.
  pub record Counted (c : Cache K V) (held cached : ℕ → ℕ) : Type 0 where
    pub refs : (q : ℕ) → c.ref q ≡ held q + cached q
    pub flagged : (q : ℕ) → cached q ≡ (if c.in_cache q then 1 else 0)
    pub listed : (q : ℕ) → count q c.not_use + count q c.in_use ≡ cached q
    pub idle : (q : ℕ) → 0 < count q c.not_use → held q ≡ 0
    pub busy : (q : ℕ) → 0 < count q c.in_use → 0 < held q
    pub sized : c.size ≡ length c.not_use + length c.in_use

pub count-without :
    (q e : ℕ) (l : List ℕ) → count q (without e l) ≡ (if q == e then 0 else count q l)
unfolding without
count-without q e [] = ground arith
count-without q e (x ∷ l) = ground (arith, count-without q e l)

pub length-without : (e : ℕ) (l : List ℕ) → length (without e l) + count e l ≡ length l
unfolding without
length-without e [] = refl
length-without e (x ∷ l) = ground (arith, length-without e l)

module _ {K V : Type 0} where
  -- What `unref` leaves where no assertion fails.
  abbrev pub unref_to : ℕ → Cache K V → Cache K V
  unref_to e c =
      let less = record c { ref = update c.ref e (c.ref e - 1) } in
      let d = list_del e less in
      if c.ref e - 1 == 0
      then record less { deleted = c.deleted ++ (e ∷ []) }
      else if c.in_cache e && (c.ref e - 1 == 1)
      then record d { not_use = d.not_use ++ (e ∷ []) }
      else less

  pub unref-some :
      (e : ℕ) (c : Cache K V)
      → (c.ref e == 0) ≡ false
      → (c.ref e - 1 ≡ 0 → c.in_cache e ≡ false)
      → unref e c ≡ some (unref_to e c)
  unfolding unref
  unref-some e c h k = ground arith

  -- The handle is still held, or it is not in the tree.
  kept-Counted :
      (e : ℕ) (c : Cache K V) (held cached : ℕ → ℕ) (deleted : List ℕ)
      → 0 < held e
      → (held e ≡ 1 → cached e ≡ 0)
      → Counted c held cached
      → Counted
          (record c { ref = update c.ref e (c.ref e - 1); deleted = deleted })
          (take_one e held)
          cached
  kept-Counted e c held cached deleted h k v = record {
    refs = λ q. ground (arith, v.refs q);
    flagged = v.flagged;
    listed = v.listed;
    idle = λ q n. ground (arith, v.idle q n);
    busy = λ q n. ground (arith, v.busy q n, v.listed q);
    sized = v.sized;
  }

  -- The last caller gives the handle back, and it is in the tree.
  moved-Counted :
      (e : ℕ) (c : Cache K V) (held cached : ℕ → ℕ)
      → held e ≡ 1
      → cached e ≡ 1
      → Counted c held cached
      → Counted
          (record c {
            ref = update c.ref e (c.ref e - 1);
            not_use = without e c.not_use ++ (e ∷ []);
            in_use = without e c.in_use;
          })
          (take_one e held)
          cached
  moved-Counted e c held cached h k v = record {
    refs = λ q. ground (arith, v.refs q);
    flagged = v.flagged;
    listed = λ q.
        let a = count-append q (without e c.not_use) (e ∷ []) in
        let b = count-without q e c.not_use in
        let d = count-without q e c.in_use in ground (arith, v.listed q, a, b, d);
    idle = λ q n.
        let a = count-append q (without e c.not_use) (e ∷ []) in
        let b = count-without q e c.not_use in ground (arith, v.idle q, a, b);
    busy = λ q n. let d = count-without q e c.in_use in ground (arith, v.busy q, d);
    sized =
        let a = length-append (without e c.not_use) (e ∷ []) in
        let b = length-without e c.not_use in
        let d = length-without e c.in_use in omega (arith, v.sized, v.listed e, a, b, d, k);
  }

  pub unref-Counted :
      (e : ℕ) (c : Cache K V) (held cached : ℕ → ℕ)
      → 0 < held e
      → Counted c held cached
      → Counted (unref_to e c) (take_one e held) cached
  unref-Counted e c held cached h v =
      let r = v.refs e in
      let f = v.flagged e in
      let less = record c { ref = update c.ref e (c.ref e - 1) } in
      let d = list_del e less in
      let last = record less { deleted = c.deleted ++ (e ∷ []) } in
      let moved = record d { not_use = d.not_use ++ (e ∷ []) } in
      let P : Cache K V → Type 0 = λ z. Counted z (take_one e held) cached in
      cases_if P (c.ref e - 1 == 0) last
        (if c.in_cache e && (c.ref e - 1 == 1) then moved else less)
        (λ z. kept-Counted e c held cached (c.deleted ++ (e ∷ [])) h (λ k. ground (arith, r, f)) v)
        (λ z.
          cases_if P (c.in_cache e && (c.ref e - 1 == 1)) moved less
            (λ b. moved-Counted e c held cached (ground (arith, r, f)) (ground (arith, r, f)) v)
            (λ b. kept-Counted e c held cached c.deleted h (λ k. ground (arith, r, f)) v))

  -- The first caller gets the handle.
  used-Counted :
      (e : ℕ) (c : Cache K V) (held cached : ℕ → ℕ)
      → held e ≡ 0
      → cached e ≡ 1
      → Counted c held cached
      → Counted
          (record c {
            ref = update c.ref e (c.ref e + 1);
            not_use = without e c.not_use;
            in_use = without e c.in_use ++ (e ∷ []);
          })
          (add_one e held)
          cached
  used-Counted e c held cached h k v = record {
    refs = λ q. ground (arith, v.refs q);
    flagged = v.flagged;
    listed = λ q.
        let a = count-append q (without e c.in_use) (e ∷ []) in
        let b = count-without q e c.not_use in
        let d = count-without q e c.in_use in ground (arith, v.listed q, a, b, d);
    idle = λ q n. let b = count-without q e c.not_use in ground (arith, v.idle q, b);
    busy = λ q n.
        let a = count-append q (without e c.in_use) (e ∷ []) in
        let b = count-without q e c.in_use in ground (arith, v.busy q, a, b);
    sized =
        let a = length-append (without e c.in_use) (e ∷ []) in
        let b = length-without e c.not_use in
        let d = length-without e c.in_use in omega (arith, v.sized, v.listed e, a, b, d, k);
  }

  -- A handle that a caller gets is in the tree, and is then in use.
  pub add_ref-Counted :
      (e : ℕ) (c : Cache K V) (held cached : ℕ → ℕ)
      → cached e ≡ 1
      → Counted c held cached
      → Counted (add_ref e c) (add_one e held) cached
  unfolding add_ref
  add_ref-Counted e c held cached h v =
      let r = v.refs e in
      let f = v.flagged e in
      let l = v.listed e in
      let i = v.idle e in
      let d = list_del e c in
      let moved = record d { in_use = d.in_use ++ (e ∷ []) } in
      let P : Cache K V → Type 0 =
        λ z. Counted (record z { ref = update c.ref e (c.ref e + 1) }) (add_one e held) cached in
      cases_if P (c.in_cache e && c.ref e == 1) moved c
        (λ b. used-Counted e c held cached (ground (arith, r, f)) h v)
        (λ b. record {
          refs = λ q. ground (arith, v.refs q);
          flagged = v.flagged;
          listed = v.listed;
          idle = λ q n. ground (arith, v.idle q n, r, f);
          busy = λ q n. ground (arith, v.busy q n);
          sized = v.sized;
        })

  -- What `erase_node` leaves.
  abbrev pub erased : ℕ → Cache K V → Cache K V
  erased e c = record (list_del e c) { in_cache = update c.in_cache e false; size = c.size - 1 }

  pub erased-Counted :
      (e : ℕ) (c : Cache K V) (held cached : ℕ → ℕ) (deleted : List ℕ)
      → cached e ≡ 1
      → Counted c held cached
      → Counted
          (record (erased e c) { ref = update c.ref e (c.ref e - 1); deleted = deleted })
          held
          (λ q. if q == e then 0 else cached q)
  erased-Counted e c held cached deleted h v = record {
    refs = λ q. ground (arith, v.refs q);
    flagged = λ q. ground (arith, v.flagged q);
    listed = λ q.
        let b = count-without q e c.not_use in
        let d = count-without q e c.in_use in ground (arith, v.listed q, b, d);
    idle = λ q n. let b = count-without q e c.not_use in ground (arith, v.idle q, b);
    busy = λ q n. let b = count-without q e c.in_use in ground (arith, v.busy q, b);
    sized =
        let b = length-without e c.not_use in
        let d = length-without e c.in_use in omega (arith, v.sized, v.listed e, b, d, h);
  }
