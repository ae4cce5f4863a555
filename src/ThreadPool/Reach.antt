-- ===== src/ThreadPool/Reach.antt =====
-- Every interleaving of the threads of src/kernel/thrdpool.c: destroying a pool ends, and leaves no thread
-- that is not joined.
use myworkflow.Base.{
  count, ℕ, ◌+◌, ◌<◌, ◌≡◌, refl, sym, ap, ap₂, subst, ==_iff, ◌∙◌, ◌⊎◌, inl, inr, Bool, true, false,
  ◌||◌, Option, none, some, List, [], ◌∷◌, ◌++◌, ◌==◌, if◌then◌else◌, arith, length, append-nil,
  Bool-cases,
}
use myworkflow.ThreadPool.{
  Pool, create, create_thread, exit_begin, is_in, without, join, exit_end, terminate_begin,
  terminate_begin_in_pool, terminate_end,
}
use myworkflow.ThreadPool.Chain.{
  threads, to_list, Chain, IsValid, IsFresh, create-IsValid, create_thread-IsValid,
  exit_begin-IsValid, is_in-count, exit_end-IsValid, terminate_begin-IsValid,
  terminate_begin_in_pool-IsValid, some-inj,
}

-- What a thread of the pool, or one that destroys it, does next.
pub data Step (p : Pool) : Pool → Type 0 where
  created : (t : ℕ) → p.terminate ≡ false → IsFresh t p → Step p (create_thread t p)
  exits : (t : ℕ) (xs ys : List ℕ) → p.running ≡ xs ++ (t ∷ ys) → Step p (exit_begin t (xs ++ ys) p)
  ends :
      (t : ℕ) (o : Option ℕ) (xs ys : List (ℕ × Option ℕ)) (q : Pool)
      → p.exiting ≡ xs ++ ((t, o) ∷ ys)
      → exit_end t o (xs ++ ys) p ≡ some q
      → Step p q
  terminates : p.terminate ≡ false → Step p (terminate_begin p)
  terminates_in_pool :
      (t : ℕ) (xs ys : List ℕ)
      → p.terminate ≡ false
      → p.running ≡ xs ++ (t ∷ ys)
      → Step p (terminate_begin_in_pool t (xs ++ ys) p)

pub data Reach : Pool → Type 0 where
  start : Reach create
  step : (p q : Pool) → Reach p → Step p q → Reach q

Step-IsValid : (p q : Pool) → Step p q → IsValid p → IsValid q
Step-IsValid p q (created t f fresh) v = create_thread-IsValid t p f fresh v
Step-IsValid p q (exits t xs ys e) v = exit_begin-IsValid t xs ys p e v
Step-IsValid p q (ends t o xs ys _ e h) v = exit_end-IsValid t o xs ys p q v e h
Step-IsValid p q (terminates f) v = terminate_begin-IsValid p f v
Step-IsValid p q (terminates_in_pool t xs ys f e) v = terminate_begin_in_pool-IsValid t xs ys p e v

-- In every interleaving the threads that exit are a chain in which each joins the one before it, at
-- most one has ended and is not joined, and a wait for the last thread is over by a signal.
pub Reach-IsValid : (p : Pool) → Reach p → IsValid p
Reach-IsValid _ start = create-IsValid
Reach-IsValid q (step p _ r s) = Step-IsValid p q s (Reach-IsValid p r)

-- The last thread of a chain is the one whose ID the pool has.
Chain-last :
    (t : ℕ) (es : List (ℕ × Option ℕ)) (tid : Option ℕ)
    → Chain (some t) es tid
    → (w : ℕ) × (tid ≡ some w) × (0 < count w (t ∷ threads es))
Chain-last t [] tid h = (t, h, ground arith)
Chain-last t ((u, o) ∷ es) tid (h, hs) =
    let (w, e, k) = Chain-last u es tid hs in (w, e, ground arith)

terminated : Option ℕ → Pool → Pool
terminated prev p = record p { ended = []; joined = p.joined ++ to_list prev }

-- `terminate_end` by what it looks at.
abbrev finish : Pool → Bool → Option ℕ → List ℕ → Option Pool
finish p b o l =
    let q = record p { ended = l } in
    if b then elim o [ none ↦ some q | some u ↦ join u q ] else none

terminate_end-finish : (p : Pool) → terminate_end p ≡ finish p (p.nthreads == 0) p.tid p.ended
unfolding terminate_end
terminate_end-finish p = refl

finish-last :
    (prev : Option ℕ) (p : Pool) → finish p true prev (to_list prev) ≡ some (terminated prev p)
unfolding join is_in without terminated
finish-last none p =
    ap (λ z. some (record p { ended = []; joined = z })) (sym (append-nil p.joined))
finish-last (some u) p =
    let left : Bool → Pool =
      λ b. record p { ended = if b then [] else u ∷ []; joined = p.joined ++ (u ∷ []) } in
    ap (λ b. if b || false then some (left b) else none) ((==_iff u u).1 refl)

-- With no thread left, the last one is joined.
terminate_end_last :
    (p : Pool) (v : IsValid p)
    → p.nthreads ≡ 0
    → p.exiting ≡ []
    → terminate_end p ≡ some (terminated v.prev p)
terminate_end_last p v n e =
    let c : p.tid ≡ v.prev = subst (λ z. Chain v.prev z p.tid) e v.chain in
    terminate_end-finish p
    ∙ ap (λ b. finish p b p.tid p.ended) ((==_iff p.nthreads 0).1 n)
    ∙ ap₂ (finish p true) c v.one_ended
    ∙ finish-last v.prev p

finish-none :
    (p q : Pool) (b : Bool) (o : Option ℕ) (l : List ℕ) → finish p b o l ≡ some q → b ≡ true
finish-none p q true o l h = refl
finish-none p q false o l h = cc

join-ended : (w : ℕ) (p q : Pool) → join w p ≡ some q → is_in w p.ended ≡ true
unfolding join
join-ended w p q h = elim (Bool-cases (is_in w p.ended)) [
  | inl e ↦ e
  | inr e ↦
      let left = record p { ended = without w p.ended; joined = p.joined ++ (w ∷ []) } in
      let h' = subst (λ b. (if b then some left else none) ≡ some q) e h in cc
]

-- A destruction that ends joins a thread that has ended, and no thread runs.
terminate_end-ended :
    (p q : Pool)
    → terminate_end p ≡ some q
    → (p.nthreads ≡ 0) × ((w : ℕ) → p.tid ≡ some w → is_in w p.ended ≡ true)
terminate_end-ended p q h =
    let h' = sym (terminate_end-finish p) ∙ h in
    let b = finish-none p q (p.nthreads == 0) p.tid p.ended h' in
    let h'' = subst (λ c. finish p c p.tid p.ended ≡ some q) b h' in
    (
      (==_iff p.nthreads 0).0 b,
      (λ w e. join-ended w p q (subst (λ o. finish p true o p.ended ≡ some q) e h'')),
    )

no_thread : (l : List ℕ) → length l ≡ 0 → l ≡ []
no_thread [] h = refl
no_thread (x ∷ l) h = absurd (omega arith)

-- Where a destruction ends, no thread is on its way out.
none_exits :
    (p q : Pool) (es : List (ℕ × Option ℕ))
    → IsValid p
    → terminate_end p ≡ some q
    → p.exiting ≡ es
    → es ≡ []
none_exits p q [] v h e = refl
none_exits p q ((t, o) ∷ es) v h e =
    let c = subst (λ z. Chain v.prev z p.tid) e v.chain in
    let (w, f, k) = Chain-last t es p.tid c.1 in
    let ended = is_in-count w p.ended ((terminate_end-ended p q h).1 w f) in
    let d = ap (λ z. count w (threads z)) e in absurd (omega (arith, v.distinct w, ended, d, k))

-- No thread runs and none exits when the pool is destroyed, and every thread that has exited has been
-- joined, in the order in which they did.
pub terminate_end-joined :
    (p q : Pool)
    → Reach p
    → terminate_end p ≡ some q
    → (q.running ≡ []) × (q.exiting ≡ []) × (q.ended ≡ []) × (q.joined ≡ q.exited)
unfolding terminated
terminate_end-joined p q r h =
    let v = Reach-IsValid p r in
    let n = (terminate_end-ended p q h).0 in
    let none_left = none_exits p q p.exiting v h refl in
    let same : terminated v.prev p ≡ q =
      some-inj _ _ (sym (terminate_end_last p v n none_left) ∙ h) in
    let runs = no_thread p.running (sym v.counted ∙ n) in
    let Done : Pool → Type 0 =
      λ z. (z.running ≡ []) × (z.exiting ≡ []) × (z.ended ≡ []) × (z.joined ≡ z.exited) in
    let order =
      ap (p.joined ++◌) (
        sym v.one_ended ∙ sym (append-nil p.ended) ∙ ap (λ z. p.ended ++ threads z) (sym none_left))
      ∙ v.in_order in
    subst Done same (runs, none_left, refl, order)

-- The regions that the threads still enter or leave: two of a thread in its routine, one of a thread that
-- exits.
abbrev pub work : Pool → ℕ
work p = length p.running + length p.running + length p.exiting

-- What `exit_end` does not touch.
abbrev Left : List (ℕ × Option ℕ) → Pool → Pool → Type 0
Left rest p q = (q.running ≡ p.running) × (q.exiting ≡ rest) × (q.terminate ≡ p.terminate)

-- The destruction can end: no thread is left, and it does not wait for a signal that has not come.
abbrev pub CanEnd : Pool → Type 0
CanEnd p = (q : Pool) × (terminate_end p ≡ some q) × ((p.waiting ≡ false) ⊎ (p.signaled ≡ true))
