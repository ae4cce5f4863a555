-- ===== src/Http/Header/Law.antt =====
-- The rounds of `__parse_message_header` in src/protocol/http_parser.c, as the loop of
-- Http/Loop/Pieces.antt.
use myworkflow.Base.{
  ℕ, ◌≤◌, ◌≡◌, ◌≢◌, refl, ap, subst, Bool, Option, some, none, List, ◌++◌, drop-append,
}
use myworkflow.Http.Types.{
  HeaderState, start_line, header_name, header_value, header_complete, Parser, msgsize, feed, Ret,
  done, more, Round, go_on,
}
use myworkflow.Http.Loop.{Ready, Ends}
use myworkflow.Http.Loop.Pieces.{Rounds}
use myworkflow.Http.Loop.Whole.{loop_total, loop-feed, loop-definite, loop-passes}
use myworkflow.Http.Header.{
  parse_start_line, parse_header_name, parse_header_value, header_ptr, name_round, value_round,
  header_round_at, header_round, parse_message_header,
}
use myworkflow.Http.Header.Steps.{parse_start_line-Moves, parse_start_line-Later}
use myworkflow.Http.Header.Values.{
  parse_header_name-Moves, parse_header_name-Later, parse_header_value_total,
  parse_header_value-Later,
}
use myworkflow.Http.Header.Rounds.{
  header_off, header_closed, HeaderSteps, HeaderLater, go_on-HeaderSteps, go_on-HeaderLater,
  parse_start_line-Open, parse_header_value-Open, parse_header_name-Keeps, name_round-HeaderSteps,
  name_round-HeaderLater,
}

-- The rounds that two calls have found.
same_rounds :
    (b : List ℕ) (p : Parser) (x x' y y' : Round)
    → HeaderLater b p x y
    → some x ≡ some x'
    → some y ≡ some y'
    → HeaderLater b p x' y'
same_rounds b p x x' y y' l e e' =
    let x_is : x ≡ x' = cc in
    let y_is : y ≡ y' = cc in
    subst (λ z. HeaderLater b p z y') x_is (subst (λ z. HeaderLater b p x z) y_is l)

module _ (malloc_ok : ℕ → Bool) where
  header_round_at_total :
      (s : HeaderState) (p : Parser)
      → Ready header_off header_closed p
      → (x : Round) × (header_round_at malloc_ok s p ≡ some x) × HeaderSteps p x
  unfolding header_round_at
  header_round_at_total start_line p v = (
    go_on (parse_start_line malloc_ok (header_ptr p) p),
    refl,
    go_on-HeaderSteps p _ v.0 (parse_start_line-Open malloc_ok (header_ptr p) p v.1)
        (parse_start_line-Moves malloc_ok (header_ptr p) p),
  )
  header_round_at_total header_value p v =
      let (r, e, m) = parse_header_value_total malloc_ok (header_ptr p) p in
      (
        go_on r,
        ap value_round e,
        go_on-HeaderSteps p r v.0 (parse_header_value-Open malloc_ok (header_ptr p) p r e) m,
      )
  header_round_at_total header_name p v = (
    name_round (parse_header_name (header_ptr p) p),
    refl,
    name_round-HeaderSteps p _ v.0 v.1 (parse_header_name-Keeps (header_ptr p) p)
        (parse_header_name-Moves (header_ptr p) p),
  )
  header_round_at_total header_complete p v = (
    name_round (parse_header_name (header_ptr p) p),
    refl,
    name_round-HeaderSteps p _ v.0 v.1 (parse_header_name-Keeps (header_ptr p) p)
        (parse_header_name-Moves (header_ptr p) p),
  )

  -- The unread bytes, with `b` behind the message.
  header_ptr-feed :
      (b : List ℕ) (p : Parser)
      → header_off p ≤ msgsize p
      → header_ptr (feed p b) ≡ header_ptr p ++ b
  header_ptr-feed b p h = drop-append p.header_offset p.msgbuf b h

  name_later :
      (b : List ℕ) (p : Parser)
      → Ready header_off header_closed p
      → HeaderLater b p
          (name_round (parse_header_name (header_ptr p) p))
          (name_round (parse_header_name (header_ptr (feed p b)) (feed p b)))
  name_later b p v =
      name_round-HeaderLater b p _ _ v.0 v.1 (parse_header_name-Keeps (header_ptr p) p)
        (parse_header_name-Keeps (header_ptr (feed p b)) (feed p b))
        (rw (header_ptr-feed b p v.0) (parse_header_name-Later (header_ptr p) b p))

  value_later :
      (b : List ℕ) (p : Parser)
      → Ready header_off header_closed p
      → (o o' : Option (Ret × Parser)) → parse_header_value malloc_ok (header_ptr p) p ≡ o
      → parse_header_value malloc_ok (header_ptr p ++ b) (feed p b) ≡ o'
      → (x y : Round) → value_round o ≡ some x
      → value_round o' ≡ some y
      → HeaderLater b p x y
  value_later b p v none o' h h' x y e e' = cc
  value_later b p v (some r) none h h' x y e e' = cc
  value_later b p v (some r) (some r') h h' x y e e' =
      same_rounds b p (go_on r) x (go_on r') y
        (go_on-HeaderLater b p r r' v.0
          (parse_header_value-Later malloc_ok (header_ptr p) b p r r' h h'))
        e e'

  header_round_at_later :
      (s : HeaderState) (b : List ℕ) (p : Parser) (x y : Round)
      → Ready header_off header_closed p
      → header_round_at malloc_ok s p ≡ some x
      → header_round_at malloc_ok s (feed p b) ≡ some y
      → HeaderLater b p x y
  unfolding header_round_at
  header_round_at_later start_line b p x y v e e' =
      same_rounds b p _ x _ y
        (go_on-HeaderLater b p (parse_start_line malloc_ok (header_ptr p) p)
          (parse_start_line malloc_ok (header_ptr p ++ b) (feed p b)) v.0
          (parse_start_line-Later malloc_ok (header_ptr p) b p))
        e (rw (header_ptr-feed b p v.0) at e')
  header_round_at_later header_value b p x y v e e' =
      value_later b p v _ _ refl refl x y e (rw (header_ptr-feed b p v.0) at e')
  header_round_at_later header_name b p x y v e e' = same_rounds b p _ x _ y (name_later b p v) e e'
  header_round_at_later header_complete b p x y v e e' =
      same_rounds b p _ x _ y (name_later b p v) e e'

  pub header_law : Rounds (header_round malloc_ok) header_off header_closed
  unfolding header_round
  header_law = record {
    total = λ p v. header_round_at_total p.header_state p v;
    later = λ b p x y v e e'. header_round_at_later p.header_state b p x y v e e';
    off-feed = λ b p. refl;
    closed-feed = λ b p. refl;
  }

-- `__parse_message_header` ends on every message, with the offset inside the message: a complete
-- header has been read to its end, and a parser that waits is one that its loop waits in.
pub parse_message_header_total :
    (malloc_ok : ℕ → Bool) (p : Parser)
    → Ready header_off header_closed p
    → (r : Ret × Parser) × (parse_message_header malloc_ok p ≡ some r)
      × Ends header_off header_closed (header_round malloc_ok) p r
unfolding parse_message_header
parse_message_header_total malloc_ok =
    loop_total (header_round malloc_ok) header_off header_closed (header_law malloc_ok)

-- Reading a piece of a message and then the rest ends as reading both at once: if the header waits
-- for more input in the state `q`, then going on from `q` with `b` behind the message gives the
-- result that `p` gives with `b` behind the message.
pub parse_message_header-feed :
    (malloc_ok : ℕ → Bool) (p q : Parser) (b : List ℕ)
    → Ready header_off header_closed p
    → parse_message_header malloc_ok p ≡ some (more, q)
    → parse_message_header malloc_ok (feed q b) ≡ parse_message_header malloc_ok (feed p b)
unfolding parse_message_header
parse_message_header-feed malloc_ok =
    loop-feed (header_round malloc_ok) header_off header_closed (header_law malloc_ok)

-- A header that is complete or refused stays so, at the same place, whatever follows it.
pub parse_message_header-definite :
    (malloc_ok : ℕ → Bool) (p q : Parser) (b : List ℕ) (r : Ret)
    → r ≢ more
    → Ready header_off header_closed p
    → parse_message_header malloc_ok p ≡ some (r, q)
    → parse_message_header malloc_ok (feed p b) ≡ some (r, feed q b)
unfolding parse_message_header
parse_message_header-definite malloc_ok =
    loop-definite (header_round malloc_ok) header_off header_closed (header_law malloc_ok)

-- A header that waits and is complete with `b` behind it, ends in `b`.
pub parse_message_header-passes :
    (malloc_ok : ℕ → Bool) (p q t : Parser) (b : List ℕ)
    → Ready header_off header_closed p
    → parse_message_header malloc_ok p ≡ some (more, q)
    → parse_message_header malloc_ok (feed p b) ≡ some (done, t)
    → msgsize p ≤ t.header_offset
unfolding parse_message_header
parse_message_header-passes malloc_ok =
    loop-passes (header_round malloc_ok) header_off header_closed (header_law malloc_ok)
