-- ===== src/Http/Loop/Pieces.antt =====
-- A loop that waits for more input, goes on with it, and ends as it does with the whole message.
use myworkflow.Base.{
  ℕ, zero, suc, ◌-◌, ◌≤◌, ◌≡◌, ◌≢◌, ap, subst, ◌∙◌, Bool, Option, some, List, arith, length,
  length-append,
}
use myworkflow.Http.Types.{
  Parser, msgsize, feed, Ret, done, more, failed, invalid, Round, stop, again,
}
use myworkflow.Http.Rounds.{after_round, rounds}
use myworkflow.Http.Loop.{Steps, RoundLater, Ready, Ends, rounds_unique, rounds_total}

-- The rounds of a loop, and what more input means for one of them.
pub record Rounds (f : Parser → Option Round) (off : Parser → ℕ) (closed : Parser → Bool)
    : Type 0 where
  pub total :
      (p : Parser) → Ready off closed p → (x : Round) × (f p ≡ some x) × Steps off closed p x
  pub later :
      (b : List ℕ) (p : Parser) (x y : Round)
      → Ready off closed p
      → f p ≡ some x
      → f (feed p b) ≡ some y
      → RoundLater off closed b p x y
  pub off-feed : (b : List ℕ) (p : Parser) → off (feed p b) ≡ off p
  pub closed-feed : (b : List ℕ) (p : Parser) → closed (feed p b) ≡ closed p

module _ (f : Parser → Option Round) (off : Parser → ℕ) (closed : Parser → Bool)
    (law : Rounds f off closed) where
  pub Ready-feed : (b : List ℕ) (p : Parser) → Ready off closed p → Ready off closed (feed p b)
  Ready-feed b p v =
      (omega (arith, law.off-feed b p, length-append p.msgbuf b), law.closed-feed b p ∙ v.1)

  Ready-again : (p q : Parser) → Steps off closed p (again q) → Ready off closed q
  Ready-again p q s = (omega (arith, ap length s.0), s.3)

  -- A round with more input behind it is found, and compares with the round before.
  later_total :
      (b : List ℕ) (p : Parser) (x : Round)
      → Ready off closed p
      → f p ≡ some x
      → (y : Round) × (f (feed p b) ≡ some y) × RoundLater off closed b p x y
  later_total b p x v e =
      let (y, e', s) = law.total (feed p b) (Ready-feed b p v) in (y, e', law.later b p x y v e e')

  definite_at :
      (a : ℕ) (p q : Parser) (b : List ℕ) (r : Ret) (x y : Round)
      → r ≢ more
      → ((t : Parser)
          → Ready off closed t
          → rounds f a t ≡ some (r, q)
          → rounds f a (feed t b) ≡ some (r, feed q b))
      → Steps off closed p x
      → RoundLater off closed b p x y
      → after_round (rounds f a) (some x) ≡ some (r, q)
      → after_round (rounds f a) (some y) ≡ some (r, feed q b)
  unfolding after_round
  definite_at a p q b r (stop done t) y n k s l e = rw l (cc)
  definite_at a p q b r (stop failed t) y n k s l e = rw l (cc)
  definite_at a p q b r (stop invalid t) y n k s l e = rw l (cc)
  definite_at a p q b r (stop more t) y n k s l e = absurd (n (cc))
  definite_at a p q b r (again t) y n k s l e = rw l (k t (Ready-again p t s) e)

  -- Where the loop ends with a result other than "more", more input does not change it.
  pub rounds-definite :
      (a : ℕ) (p q : Parser) (b : List ℕ) (r : Ret)
      → r ≢ more
      → Ready off closed p
      → rounds f a p ≡ some (r, q)
      → rounds f a (feed p b) ≡ some (r, feed q b)
  unfolding rounds
  rounds-definite zero p q b r n v e = cc
  rounds-definite (suc a) p q b r n v e =
      let (x, e', s) = law.total p v in
      let (y, e'', l) = later_total b p x v e' in
      rw e''
        (definite_at a p q b r x y n (λ t v' k. rounds-definite a t q b r n v' k) s l (rw e' at e))

  resume_at :
      (a c : ℕ) (p q : Parser) (b : List ℕ) (r : Ret × Parser) (x y : Round)
      → ((t : Parser)
          → Ready off closed t
          → rounds f a t ≡ some (more, q)
          → (d : ℕ) × (rounds f d (feed t b) ≡ some r))
      → Steps off closed p x
      → RoundLater off closed b p x y
      → f (feed p b) ≡ some y
      → rounds f c (feed q b) ≡ some r
      → after_round (rounds f a) (some x) ≡ some (more, q)
      → (d : ℕ) × (rounds f d (feed p b) ≡ some r)
  unfolding rounds after_round
  resume_at a c p q b r (stop done t) y k s l e'' g e = cc
  resume_at a c p q b r (stop failed t) y k s l e'' g e = cc
  resume_at a c p q b r (stop invalid t) y k s l e'' g e = cc
  resume_at a c p q b r (stop more t) y k s l e'' g e =
      let same : q ≡ p = cc in (c, subst (λ u. rounds f c (feed u b) ≡ some r) same g)
  resume_at a c p q b r (again t) y k s l e'' g e =
      let (d, h) = k t (Ready-again p t s) e in
      let round : f (feed p b) ≡ some (again (feed t b)) = e'' ∙ ap some l in
      (suc d, rw (round, rounds, after_round) h)

  -- A loop that has stopped for more input, and goes on with `b` behind the message, ends as it
  -- does on the whole message from the start.
  pub rounds-resume :
      (a c : ℕ) (p q : Parser) (b : List ℕ) (r : Ret × Parser)
      → Ready off closed p
      → rounds f a p ≡ some (more, q)
      → rounds f c (feed q b) ≡ some r
      → (d : ℕ) × (rounds f d (feed p b) ≡ some r)
  unfolding rounds
  rounds-resume zero c p q b r v e g = cc
  rounds-resume (suc a) c p q b r v e g =
      let (x, e', s) = law.total p v in
      let (y, e'', l) = later_total b p x v e' in
      resume_at a c p q b r x y (λ t v' k. rounds-resume a c t q b r v' k g) s l e'' g (rw e' at e)

  passes_at :
      (c : ℕ) (q t : Parser) (b : List ℕ) (y : Round)
      → Ready off closed q
      → Steps off closed (feed q b) y
      → RoundLater off closed b q (stop more q) y
      → after_round (rounds f c) (some y) ≡ some (done, t)
      → msgsize q ≤ off t
  unfolding after_round
  passes_at c q t b (stop done u) v s l e = let same : u ≡ t = cc in rw (← same) l
  passes_at c q t b (stop failed u) v s l e = cc
  passes_at c q t b (stop invalid u) v s l e = cc
  passes_at c q t b (stop more u) v s l e = cc
  passes_at c q t b (again u) v s l e =
      let w = Ready-again (feed q b) u s in
      let (r, e', g) =
        rounds_total f off closed law.total (suc (msgsize u - off u)) u (omega arith) w in
      let same : r ≡ (done, t) = rounds_unique f (suc (msgsize u - off u)) c u r (done, t) e' e in
      let ends : Ends off closed f u (done, t) = subst (λ z. Ends off closed f u z) same g in
      omega (arith, ends.1)

  -- A loop that waits and is done with `b` behind the message, has read all that was there before.
  pub rounds-passes :
      (c : ℕ) (q t : Parser) (b : List ℕ)
      → Ready off closed q
      → f q ≡ some (stop more q)
      → rounds f c (feed q b) ≡ some (done, t)
      → msgsize q ≤ off t
  unfolding rounds
  rounds-passes zero q t b v e g = cc
  rounds-passes (suc c) q t b v e g =
      let (y, e', l) = later_total b q (stop more q) v e in
      let (z, e'', s) = law.total (feed q b) (Ready-feed b q v) in
      let same : z ≡ y = cc in
      passes_at c q t b y v (subst (λ u. Steps off closed (feed q b) u) same s) l (rw e' at g)
