-- ===== src/ThreadPool/Chain.antt =====
-- The threads of src/kernel/thrdpool.c that exit are a chain: each joins the one before it.
use myworkflow.Base.{
  count, count-append, count-middle, ℕ, ◌+◌, ◌≤◌, ◌<◌, ◌≡◌, refl, sym, ap, ap₂, subst, ==_iff, ◌∙◌,
  ◌⊎◌, inl, inr, Bool, true, false, Option, none, some, List, [], ◌∷◌, ◌++◌, ◌||◌, if◌then◌else◌,
  arith, length, append_assoc, append-nil, length-append, Bool-cases,
}
use myworkflow.ThreadPool.{
  Pool, create, create_thread, exit_begin, is_in, without, join, end_thread, exit_end,
  terminate_begin, terminate_begin_in_pool,
}

abbrev pub threads : List (ℕ × Option ℕ) → List ℕ
threads [] = []
threads ((t, o) ∷ es) = t ∷ threads es

abbrev pub to_list : Option ℕ → List ℕ
to_list none = []
to_list (some t) = t ∷ []

-- Each thread joins the one before it, the first `prev`, and the last is `tid`.
abbrev pub Chain : Option ℕ → List (ℕ × Option ℕ) → Option ℕ → Type 0
Chain prev [] tid = tid ≡ prev
Chain prev ((t, o) ∷ es) tid = (o ≡ prev) × Chain (some t) es tid

-- Threads that are not joined have each an ID of their own; at most one of them has ended, and the
-- others that exit are a chain behind it. The threads that exited were joined in their order. A wait
-- is over by a signal.
pub record IsValid (p : Pool) : Type 0 where
  pub prev : Option ℕ
  pub counted : p.nthreads ≡ length p.running
  pub distinct : (q : ℕ) → count q p.running + count q (threads p.exiting) + count q p.ended ≤ 1
  pub chain : Chain prev p.exiting p.tid
  pub one_ended : p.ended ≡ to_list prev
  pub in_order : p.joined ++ (p.ended ++ threads p.exiting) ≡ p.exited
  pub woken : p.waiting ≡ true → (p.terminate ≡ true) × (p.nthreads ≡ 0 → p.signaled ≡ true)

threads-append : (xs ys : List (ℕ × Option ℕ)) → threads (xs ++ ys) ≡ threads xs ++ threads ys
threads-append [] ys = refl
threads-append ((t, o) ∷ xs) ys = ap (t ∷◌) (threads-append xs ys)

Chain-snoc :
    (prev : Option ℕ) (es : List (ℕ × Option ℕ)) (tid : Option ℕ) (t : ℕ)
    → Chain prev es tid
    → Chain prev (es ++ ((t, tid) ∷ [])) (some t)
Chain-snoc prev [] tid t h = (h, refl)
Chain-snoc prev ((u, o) ∷ es) tid t (h, hs) = (h, Chain-snoc (some u) es tid t hs)

pub create-IsValid : IsValid create
create-IsValid = record {
  prev = none;
  counted = refl;
  distinct = λ q. omega arith;
  chain = refl;
  one_ended = refl;
  in_order = refl;
  woken = λ h. cc;
}

-- A thread whose ID no thread has that is not joined.
abbrev pub IsFresh : ℕ → Pool → Type 0
IsFresh t p = count t p.running + count t (threads p.exiting) + count t p.ended ≡ 0

pub create_thread-IsValid :
    (t : ℕ) (p : Pool) → p.terminate ≡ false → IsFresh t p → IsValid p → IsValid (create_thread t p)
unfolding create_thread
create_thread-IsValid t p h f v = record {
  prev = v.prev;
  counted = omega (arith, v.counted, length-append p.running (t ∷ []));
  distinct = λ q. ground (arith, v.distinct q, f, count-append q p.running (t ∷ []));
  chain = v.chain;
  one_ended = v.one_ended;
  in_order = v.in_order;
  woken = λ w. ((v.woken w).0, λ e. absurd (omega arith));
}

pub exit_begin-IsValid :
    (t : ℕ) (xs ys : List ℕ) (p : Pool)
    → p.running ≡ xs ++ (t ∷ ys)
    → IsValid p
    → IsValid (exit_begin t (xs ++ ys) p)
unfolding exit_begin
exit_begin-IsValid t xs ys p e v = record {
  prev = v.prev;
  counted = omega (arith, v.counted, ap length e, length-append xs (t ∷ ys), length-append xs ys);
  distinct = λ q.
      let k = count-append q (threads p.exiting) (t ∷ []) in
      let k' = ap (count q) (threads-append p.exiting ((t, p.tid) ∷ [])) in
      let m = ap (count q) e ∙ count-middle q t xs ys in ground (arith, v.distinct q, m, k, k');
  chain = Chain-snoc v.prev p.exiting p.tid t v.chain;
  one_ended = v.one_ended;
  in_order =
      let th = threads p.exiting in
      ap (λ z. p.joined ++ (p.ended ++ z)) (threads-append p.exiting ((t, p.tid) ∷ []))
      ∙ ap (p.joined ++◌) (sym (append_assoc p.ended th (t ∷ [])))
      ∙ sym (append_assoc p.joined (p.ended ++ th) (t ∷ []))
      ∙ ap (λ z. z ++ (t ∷ [])) v.in_order;
  woken = λ w. let k = v.woken w in (k.0, λ n. let h = k.0 in ground arith);
}

-- The thread that may end, and what is left then.
abbrev pub headless : ℕ → List (ℕ × Option ℕ) → Option ℕ → Pool → Pool
headless t es prev p = record p { exiting = es; ended = t ∷ []; joined = p.joined ++ to_list prev }

exit_end_at :
    (t : ℕ) (es : List (ℕ × Option ℕ)) (prev : Option ℕ) (p : Pool)
    → exit_end t prev es (record p { ended = to_list prev }) ≡ some (headless t es prev p)
unfolding exit_end join is_in without
exit_end_at t es none p =
    ap (λ z. some (record p { exiting = es; ended = t ∷ []; joined = z }))
      (sym (append-nil p.joined))
exit_end_at t es (some u) p =
    let left : Bool → Pool = λ b. record p {
      exiting = es;
      ended = if b then [] else u ∷ [];
      joined = p.joined ++ (u ∷ []);
    } in
    let ends : Bool → Option Pool = λ b. elim (if b || false then some (left b) else none) [
      | none ↦ none
      | some r ↦ some (end_thread t r)
    ] in
    ap ends ((==_iff u u).1 refl)

-- The first thread of the chain ends: the one before it has.
pub exit_end_first :
    (t : ℕ) (o : Option ℕ) (es : List (ℕ × Option ℕ)) (p : Pool) (v : IsValid p)
    → p.exiting ≡ (t, o) ∷ es
    → exit_end t o es p ≡ some (headless t es v.prev p)
exit_end_first t o es p v e =
    let c = subst (λ z. Chain v.prev z p.tid) e v.chain in
    subst (λ z. exit_end t z es p ≡ some (headless t es v.prev p)) (sym c.0)
      (subst (λ z. exit_end t v.prev es (record p { ended = z }) ≡ some (headless t es v.prev p))
        (sym v.one_ended) (exit_end_at t es v.prev p))

headless-IsValid :
    (t : ℕ) (o : Option ℕ) (es : List (ℕ × Option ℕ)) (p : Pool) (v : IsValid p)
    → p.exiting ≡ (t, o) ∷ es
    → IsValid (headless t es v.prev p)
headless-IsValid t o es p v e = record {
  prev = some t;
  counted = v.counted;
  distinct = λ q. let k = ap (λ z. count q (threads z)) e in ground (arith, v.distinct q, k);
  chain = (subst (λ z. Chain v.prev z p.tid) e v.chain).1;
  one_ended = refl;
  in_order =
      append_assoc p.joined (to_list v.prev) (t ∷ threads es)
      ∙ ap₂ (λ a b. p.joined ++ (a ++ b)) (sym v.one_ended) (sym (ap threads e))
      ∙ v.in_order;
  woken = v.woken;
}

pub is_in-count : (t : ℕ) (us : List ℕ) → is_in t us ≡ true → 0 < count t us
unfolding is_in
is_in-count t [] h = cc
is_in-count t (u ∷ us) h = ground (arith, is_in-count t us)

-- A thread that is not the first joins one before it, which exits too.
Chain-middle :
    (prev : Option ℕ) (xs : List (ℕ × Option ℕ)) (t : ℕ) (o : Option ℕ) (ys : List (ℕ × Option ℕ))
    (tid : Option ℕ)
    → Chain prev (xs ++ ((t, o) ∷ ys)) tid
    → (xs ≡ []) ⊎ ((w : ℕ) × (o ≡ some w) × (0 < count w (threads xs)))
Chain-middle prev [] t o ys tid h = inl refl
Chain-middle prev ((u, o') ∷ xs) t o ys tid (h, hs) =
    elim (Chain-middle (some u) xs t o ys tid hs) [
      | inl e ↦
          let c = subst (λ z. Chain (some u) (z ++ ((t, o) ∷ ys)) tid) e hs in
          inr (u, c.0, ground arith)
      | inr (w, e, k) ↦ inr (w, e, ground arith)
    ]

-- A `pthread_join` that returns is one of a thread that has ended.
exit_end-ended :
    (t w : ℕ) (rest : List (ℕ × Option ℕ)) (p q : Pool)
    → exit_end t (some w) rest p ≡ some q
    → is_in w p.ended ≡ true
unfolding exit_end join
exit_end-ended t w rest p q h = elim (Bool-cases (is_in w p.ended)) [
  | inl e ↦ e
  | inr e ↦
      let left = record p {
        exiting = rest;
        ended = without w p.ended;
        joined = p.joined ++ (w ∷ []);
      } in
      let ends : Bool → Option Pool = λ b. elim (if b then some left else none) [
        | none ↦ none
        | some r ↦ some (end_thread t r)
      ] in
      let h' = subst (λ b. ends b ≡ some q) e h in cc
]

pub some-inj : (a b : Pool) → some a ≡ some b → a ≡ b
some-inj a b h = cc

pub exit_end-IsValid :
    (t : ℕ) (o : Option ℕ) (xs ys : List (ℕ × Option ℕ)) (p q : Pool)
    → IsValid p
    → p.exiting ≡ xs ++ ((t, o) ∷ ys)
    → exit_end t o (xs ++ ys) p ≡ some q
    → IsValid q
exit_end-IsValid t o xs ys p q v e h =
    elim (Chain-middle v.prev xs t o ys p.tid (subst (λ z. Chain v.prev z p.tid) e v.chain)) [
      | inl first ↦
          let e' : p.exiting ≡ (t, o) ∷ ys = e ∙ ap (λ z. z ++ ((t, o) ∷ ys)) first in
          let h' : exit_end t o ys p ≡ some q =
            subst (λ z. exit_end t o (z ++ ys) p ≡ some q) first h in
          let same : headless t ys v.prev p ≡ q =
            some-inj _ _ (sym (exit_end_first t o ys p v e') ∙ h') in
          subst IsValid same (headless-IsValid t o ys p v e')
      | inr (w, f, k) ↦
          let ended =
            exit_end-ended t w (xs ++ ys) p q
              (subst (λ z. exit_end t z (xs ++ ys) p ≡ some q) f h) in
          let c = is_in-count w p.ended ended in
          let d = ap (λ z. count w (threads z)) e in
          let d' = ap (count w) (threads-append xs ((t, o) ∷ ys)) in
          let d'' = count-append w (threads xs) (threads ((t, o) ∷ ys)) in
          absurd (omega (arith, v.distinct w, c, d, d', d'', k))
    ]

pub terminate_begin-IsValid :
    (p : Pool) → p.terminate ≡ false → IsValid p → IsValid (terminate_begin p)
unfolding terminate_begin
terminate_begin-IsValid p f v = record {
  prev = v.prev;
  counted = v.counted;
  distinct = v.distinct;
  chain = v.chain;
  one_ended = v.one_ended;
  in_order = v.in_order;
  woken = λ w. (refl, λ n. ground arith);
}

pub terminate_begin_in_pool-IsValid :
    (t : ℕ) (xs ys : List ℕ) (p : Pool)
    → p.running ≡ xs ++ (t ∷ ys)
    → IsValid p
    → IsValid (terminate_begin_in_pool t (xs ++ ys) p)
unfolding terminate_begin_in_pool
terminate_begin_in_pool-IsValid t xs ys p e v = record {
  prev = v.prev;
  counted = omega (arith, v.counted, ap length e, length-append xs (t ∷ ys), length-append xs ys);
  distinct =
      λ q. let m = ap (count q) e ∙ count-middle q t xs ys in ground (arith, v.distinct q, m);
  chain = v.chain;
  one_ended = v.one_ended;
  in_order = v.in_order;
  woken = λ w. (refl, λ n. ground arith);
}
