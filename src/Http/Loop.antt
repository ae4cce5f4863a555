-- ===== src/Http/Loop.antt =====
-- The loops `do … while (ret > 0)` of src/protocol/http_parser.c: they end, and what they do with a
-- message does not depend on the pieces in which it arrives. `off` is the offset that a loop moves
-- on, and `closed` tells the states in which it has returned.
pub mod Pieces
pub mod Whole
use myworkflow.Base.{
  ℕ, zero, suc, ◌+◌, ◌-◌, ◌≤◌, ◌<◌, ◌≡◌, ◌≢◌, refl, sym, ap, subst, ◌∙◌, Bool, true, false, Option,
  some, none, List, [], ◌∷◌, ◌++◌, arith, length, length-append,
}
use myworkflow.Http.Types.{
  Parser, msgsize, feed, Ret, done, more, failed, invalid, Round, stop, again,
}
use myworkflow.Http.Rounds.{after_round, rounds}

module _ (off : Parser → ℕ) (closed : Parser → Bool) where
  -- A round goes forward within the message; one that waits changes nothing.
  abbrev pub Steps : Parser → Round → Type 0
  Steps p (again q) =
      (q.msgbuf ≡ p.msgbuf) × (off p < off q) × (off q ≤ msgsize p) × (closed q ≡ false)
  Steps p (stop done q) =
      (q.msgbuf ≡ p.msgbuf) × (off p < off q) × (off q ≤ msgsize p) × (closed q ≡ true)
  Steps p (stop more q) = q ≡ p
  Steps p (stop failed q) = (q.msgbuf ≡ p.msgbuf) × (off q ≡ off p)
  Steps p (stop invalid q) = (q.msgbuf ≡ p.msgbuf) × (off q ≡ off p)

  -- A round `y` with `b` behind the message, against the round without it.
  abbrev pub RoundLater : List ℕ → Parser → Round → Round → Type 0
  RoundLater b p (again q) y = y ≡ again (feed q b)
  RoundLater b p (stop done q) y = y ≡ stop done (feed q b)
  RoundLater b p (stop failed q) y = y ≡ stop failed (feed q b)
  RoundLater b p (stop invalid q) y = y ≡ stop invalid (feed q b)
  RoundLater b p (stop more q) (again q') = msgsize p ≤ off q'
  RoundLater b p (stop more q) (stop done q') = msgsize p ≤ off q'
  RoundLater b p (stop more q) (stop more q') = Unit
  RoundLater b p (stop more q) (stop failed q') = Unit
  RoundLater b p (stop more q) (stop invalid q') = Unit

  abbrev pub Ready : Parser → Type 0
  Ready p = (off p ≤ msgsize p) × (closed p ≡ false)

  -- How a loop over the rounds `f` ends.
  abbrev pub Ends : (Parser → Option Round) → Parser → Ret × Parser → Type 0
  Ends f p (done, q) =
      (q.msgbuf ≡ p.msgbuf) × (off p < off q) × (off q ≤ msgsize p) × (closed q ≡ true)
  Ends f p (more, q) =
      (q.msgbuf ≡ p.msgbuf)
      × (off p ≤ off q)
      × (off q ≤ msgsize p)
      × (closed q ≡ false)
      × (f q ≡ some (stop more q))
  Ends f p (failed, q) = (q.msgbuf ≡ p.msgbuf) × (off q ≤ msgsize p)
  Ends f p (invalid, q) = (q.msgbuf ≡ p.msgbuf) × (off q ≤ msgsize p)

after_round_unique :
    (f : Parser → Option Round) (a c : ℕ)
    → ((q : Parser) (r r' : Ret × Parser) → rounds f a q ≡ some r → rounds f c q ≡ some r' → r ≡ r')
    → (x : Option Round) (r r' : Ret × Parser) → after_round (rounds f a) x ≡ some r
    → after_round (rounds f c) x ≡ some r'
    → r ≡ r'
unfolding after_round
after_round_unique f a c k none r r' e e' = cc
after_round_unique f a c k (some (stop t q)) r r' e e' = cc
after_round_unique f a c k (some (again q)) r r' e e' = k q r r' e e'

-- More fuel does not change a result.
pub rounds_unique :
    (f : Parser → Option Round) (a c : ℕ) (p : Parser) (r r' : Ret × Parser)
    → rounds f a p ≡ some r
    → rounds f c p ≡ some r'
    → r ≡ r'
unfolding rounds
rounds_unique f zero c p r r' e e' = cc
rounds_unique f (suc a) zero p r r' e e' = cc
rounds_unique f (suc a) (suc c) p r r' e e' =
    after_round_unique f a c (λ q s s' k k'. rounds_unique f a c q s s' k k') (f p) r r' e e'

module _ (f : Parser → Option Round) (off : Parser → ℕ) (closed : Parser → Bool) where
  Ends-again :
      (p q : Parser) (r : Ret × Parser)
      → Steps off closed p (again q)
      → Ends off closed f q r
      → Ends off closed f p r
  Ends-again p q (done, t) s e = (e.0 ∙ s.0, omega arith, omega (arith, ap length s.0), e.3)
  Ends-again p q (more, t) s e = (e.0 ∙ s.0, omega arith, omega (arith, ap length s.0), e.3, e.4)
  Ends-again p q (failed, t) s e = (e.0 ∙ s.0, omega (arith, ap length s.0))
  Ends-again p q (invalid, t) s e = (e.0 ∙ s.0, omega (arith, ap length s.0))

  after_round_total :
      (fuel : ℕ) (p : Parser) (x : Round)
      → ((q : Parser)
          → msgsize q - off q < fuel
          → Ready off closed q
          → (r : Ret × Parser) × (rounds f fuel q ≡ some r) × Ends off closed f q r)
      → Ready off closed p
      → msgsize p - off p < suc fuel
      → f p ≡ some x
      → Steps off closed p x
      → (r : Ret × Parser) × (after_round (rounds f fuel) (some x) ≡ some r) × Ends off closed f p r
  unfolding after_round
  after_round_total fuel p (stop done q) k v h e s = ((done, q), refl, s)
  after_round_total fuel p (stop more q) k v h e s = (
    (more, q),
    refl,
    (
      ap (λ t. t.msgbuf) s,
      omega (arith, ap off s),
      omega (arith, ap off s, ap msgsize s),
      ap closed s ∙ v.1,
      subst (λ t. f t ≡ some (stop more q)) (sym s) e,
    ),
  )
  after_round_total fuel p (stop failed q) k v h e s = ((failed, q), refl, (s.0, omega arith))
  after_round_total fuel p (stop invalid q) k v h e s = ((invalid, q), refl, (s.0, omega arith))
  after_round_total fuel p (again q) k v h e s =
      let (r, e', g) = k q (omega (arith, ap length s.0)) (omega (arith, ap length s.0), s.3) in
      (r, e', Ends-again p q r s g)

module _ (f : Parser → Option Round) (off : Parser → ℕ) (closed : Parser → Bool)
    (total : (p : Parser)
      → Ready off closed p
      → (x : Round) × (f p ≡ some x) × Steps off closed p x) where
  -- With more fuel than bytes that are left the loop ends.
  pub rounds_total :
      (fuel : ℕ) (p : Parser)
      → msgsize p - off p < fuel
      → Ready off closed p
      → (r : Ret × Parser) × (rounds f fuel p ≡ some r) × Ends off closed f p r
  unfolding rounds
  rounds_total zero p h v = absurd (omega arith)
  rounds_total (suc fuel) p h v =
      let (x, e, s) = total p v in
      rw e (after_round_total f off closed fuel p x (λ q h' v'. rounds_total fuel q h' v') v h e s)
