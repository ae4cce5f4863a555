-- ===== src/LruCache/Reach.antt =====
-- Every sequence of calls of src/util/LRUCache.h by callers that release what they hold.
use myworkflow.Base.{ℕ, ◌≤◌, ◌<◌, ◌≡◌, refl, sym, subst, ◌⊎◌, Bool, Option, none, some, [], arith}
use myworkflow.LruCache.{RbTree, Cache, empty, set_max_size, release, prune, get, put, del}
use myworkflow.LruCache.Counts.{take_one, add_one}
use myworkflow.LruCache.Erase.{RbLaws, IsValid, prune-IsValid}
use myworkflow.LruCache.Put.{release-IsValid, Gets, get-Gets}
use myworkflow.LruCache.Calls.{put-IsValid, del-IsValid}

module _ {K V : Type 0} (lt : K → K → Bool) (rb : RbTree) (laws : RbLaws rb) where
  -- A call by a caller, with how many of each handle the callers hold before and after it.
  pub data Call (c : Cache K V) (held : ℕ → ℕ) : Option (Cache K V) → (ℕ → ℕ) → Type 0 where
    limited : (n : ℕ) → Call c held (some (set_max_size n c)) held
    got :
        (k : K) (e : ℕ) (d : Cache K V)
        → get lt k c ≡ (some e, d)
        → Call c held (some d) (add_one e held)
    missed : (k : K) (d : Cache K V) → get lt k c ≡ (none, d) → Call c held (some d) held
    stored :
        (e : ℕ) (k : K) (x : V) → c.ref e ≡ 0 → Call c held (put lt rb e k x c) (add_one e held)
    released : (e : ℕ) → 0 < held e → Call c held (release e c) (take_one e held)
    deleted : (k : K) → Call c held (del lt rb k c) held
    pruned : Call c held (prune rb c) held

  -- The states after some calls, of which none has failed.
  pub data Reach : Cache K V → (ℕ → ℕ) → Type 0 where
    start : (key : ℕ → K) (value : ℕ → V) → Reach (empty key value) (λ e. 0)
    call :
        (c d : Cache K V) (held held' : ℕ → ℕ)
        → Reach c held
        → Call c held (some d) held'
        → Reach d held'

  Call-IsValid :
      (c : Cache K V) (held held' : ℕ → ℕ) (o : Option (Cache K V))
      → IsValid c held
      → Call c held o held'
      → (d : Cache K V) × (o ≡ some d) × IsValid d held'
  Call-IsValid c held _ _ v (limited n) = (
    set_max_size n c,
    refl,
    record {
      refs = v.refs;
      flagged = v.flagged;
      listed = v.listed;
      idle = v.idle;
      busy = v.busy;
      sized = v.sized;
    },
  )
  Call-IsValid c held _ _ v (got k e d h) =
      (d, refl, (subst (Gets lt c held) h (get-Gets lt k c held v)).0)
  Call-IsValid c held _ _ v (missed k d h) =
      let same : d ≡ c = subst (Gets lt c held) h (get-Gets lt k c held v) in
      (d, refl, subst (λ z. IsValid z held) (sym same) v)
  Call-IsValid c held _ _ v (stored e k x h) =
      let (d, f, w, full) = put-IsValid lt rb laws e k x c held h v in (d, f, w)
  Call-IsValid c held _ _ v (released e h) =
      let (d, f, w, map) = release-IsValid e c held h v in (d, f, w)
  Call-IsValid c held _ _ v (deleted k) = del-IsValid lt rb laws k c held v
  Call-IsValid c held _ _ v pruned = let (d, f, w, l) = prune-IsValid rb laws c held v in (d, f, w)

  pub Reach-Counted : (c : Cache K V) (held : ℕ → ℕ) → Reach c held → IsValid c held
  Reach-Counted _ _ (start key value) = record {
    refs = λ q. omega arith;
    flagged = λ q. refl;
    listed = λ q. omega arith;
    idle = λ q n. refl;
    busy = λ q n. absurd (omega arith);
    sized = omega arith;
  }
  Reach-Counted d held' (call c _ held _ r s) =
      let (u, f, w) = Call-IsValid c held held' (some d) (Reach-Counted c held r) s in
      let same : d ≡ u = cc in subst (λ z. IsValid z held') (sym same) w

  -- After any calls by callers that release only what they hold, the next call fails no assertion and
  -- ends; then, as before it, the references of each handle are those of the callers and the one of the
  -- cache, and a handle in the cache is in the list of those in use or not by whether it is held.
  pub Call-Counted :
      (c : Cache K V) (held held' : ℕ → ℕ) (o : Option (Cache K V))
      → Reach c held
      → Call c held o held'
      → (d : Cache K V) × (o ≡ some d) × IsValid d held'
  Call-Counted c held held' o r s = Call-IsValid c held held' o (Reach-Counted c held r) s

  -- After any calls, `put` with a limit ends with the cache inside it, or with every handle in it held.
  pub put-limited :
      (c : Cache K V) (held : ℕ → ℕ) (e : ℕ) (k : K) (x : V)
      → Reach c held
      → c.ref e ≡ 0
      → (d : Cache K V) × (put lt rb e k x c ≡ some d)
        × (0 < d.max_size → (d.size ≤ d.max_size) ⊎ (d.not_use ≡ []))
  put-limited c held e k x r h =
      let (d, f, w, full) = put-IsValid lt rb laws e k x c held h (Reach-Counted c held r) in
      (d, f, full)
