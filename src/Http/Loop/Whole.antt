-- ===== src/Http/Loop/Whole.antt =====
-- The loops of src/protocol/http_parser.c with the fuel that they are given.
use myworkflow.Base.{
  ℕ, suc, ◌-◌, ◌≤◌, ◌≡◌, ◌≢◌, sym, ap, subst, ◌∙◌, Bool, Option, some, List, arith, length,
}
use myworkflow.Http.Types.{Parser, msgsize, feed, Ret, done, more, Round}
use myworkflow.Http.Rounds.{rounds}
use myworkflow.Http.Loop.{Ready, Ends, rounds_unique, rounds_total}
use myworkflow.Http.Loop.Pieces.{Rounds, Ready-feed, rounds-definite, rounds-resume, rounds-passes}

module _ (f : Parser → Option Round) (off : Parser → ℕ) (closed : Parser → Bool)
    (law : Rounds f off closed) where
  abbrev pub loop : Parser → Option (Ret × Parser)
  loop p = rounds f (suc (msgsize p - off p)) p

  pub loop_total :
      (p : Parser)
      → Ready off closed p
      → (r : Ret × Parser) × (loop p ≡ some r) × Ends off closed f p r
  loop_total p v = rounds_total f off closed law.total (suc (msgsize p - off p)) p (omega arith) v

  loop_found :
      (d : ℕ) (p : Parser) (r : Ret × Parser)
      → Ready off closed p
      → rounds f d p ≡ some r
      → loop p ≡ some r
  loop_found d p r v e =
      let (r', e', g) = loop_total p v in
      e' ∙ ap some (rounds_unique f (suc (msgsize p - off p)) d p r' r e' e)

  pub loop-Ends :
      (p : Parser) (r : Ret × Parser) → Ready off closed p → loop p ≡ some r → Ends off closed f p r
  loop-Ends p r v e =
      let (r', e', g) = loop_total p v in
      let same : r' ≡ r = cc in subst (λ z. Ends off closed f p z) same g

  pub loop-feed :
      (p q : Parser) (b : List ℕ)
      → Ready off closed p
      → loop p ≡ some (more, q)
      → loop (feed q b) ≡ loop (feed p b)
  loop-feed p q b v e =
      let g = loop-Ends p (more, q) v e in
      let w : Ready off closed q = (omega (arith, ap length g.0), g.3) in
      let (r, e', g') = loop_total (feed q b) (Ready-feed f off closed law b q w) in
      let (d, e'') =
        rounds-resume f off closed law (suc (msgsize p - off p))
          (suc (msgsize (feed q b) - off (feed q b))) p q b r v e e' in
      e' ∙ sym (loop_found d (feed p b) r (Ready-feed f off closed law b p v) e'')

  pub loop-definite :
      (p q : Parser) (b : List ℕ) (r : Ret)
      → r ≢ more
      → Ready off closed p
      → loop p ≡ some (r, q)
      → loop (feed p b) ≡ some (r, feed q b)
  loop-definite p q b r n v e =
      loop_found (suc (msgsize p - off p)) (feed p b) (r, feed q b)
        (Ready-feed f off closed law b p v)
        (rounds-definite f off closed law (suc (msgsize p - off p)) p q b r n v e)

  pub loop-passes :
      (p q t : Parser) (b : List ℕ)
      → Ready off closed p
      → loop p ≡ some (more, q)
      → loop (feed p b) ≡ some (done, t)
      → msgsize p ≤ off t
  loop-passes p q t b v e e' =
      let g = loop-Ends p (more, q) v e in
      let w : Ready off closed q = (omega (arith, ap length g.0), g.3) in
      omega (
        arith,
        ap length g.0,
        rounds-passes f off closed law (suc (msgsize (feed q b) - off (feed q b))) q t b w g.4
            (loop-feed p q b v e ∙ e'),
      )
