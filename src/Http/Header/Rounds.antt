-- ===== src/Http/Header/Rounds.antt =====
-- One round of the loop of `__parse_message_header` in src/protocol/http_parser.c.
use myworkflow.Base.{
  ℕ, suc, ◌≤◌, ◌≡◌, refl, ap, inl, inr, Bool, false, some, List, [], arith, length, ◌==◌,
  length-drop, Bool-cases, Option-cases,
}
use myworkflow.Http.Types.{
  http_start_line_max, http_header_name_max, is_header_complete, Parser, msgsize, feed, Ret, done,
  more, failed, invalid, Round, go_on,
}
use myworkflow.Http.Loop.{Steps, RoundLater}
use myworkflow.Http.Lines.{LineScan, line, ValueScan, cut_space, scan_line, scan_name, scan_value}
use myworkflow.Http.Header.{
  parse_start_line, parse_header_name, parse_header_value, at_crlf, store_start_line,
  end_start_line, end_header_name, store_header, end_header_value, header_ptr, name_round,
}
use myworkflow.Http.Header.Steps.{Moves, Later}

abbrev pub header_off : Parser → ℕ
header_off p = p.header_offset

abbrev pub header_closed : Parser → Bool
header_closed p = is_header_complete p.header_state

abbrev pub HeaderSteps : Parser → Round → Type 0
HeaderSteps = Steps header_off header_closed

abbrev pub HeaderLater : List ℕ → Parser → Round → Round → Type 0
HeaderLater = RoundLater header_off header_closed

-- A step that is done leaves the header open.
abbrev pub Open : Ret × Parser → Type 0
Open (done, q) = is_header_complete q.header_state ≡ false
Open (more, q) = Unit
Open (failed, q) = Unit
Open (invalid, q) = Unit

pub go_on-HeaderSteps :
    (p : Parser) (r : Ret × Parser)
    → p.header_offset ≤ msgsize p
    → Open r
    → Moves (header_ptr p) p r
    → HeaderSteps p (go_on r)
go_on-HeaderSteps p (done, q) h o m =
    (m.0, m.1, omega (arith, m.2, length-drop p.header_offset p.msgbuf), o)
go_on-HeaderSteps p (more, q) h o m = m
go_on-HeaderSteps p (failed, q) h o m = m
go_on-HeaderSteps p (invalid, q) h o m = m

pub go_on-HeaderLater :
    (b : List ℕ) (p : Parser) (r y : Ret × Parser)
    → p.header_offset ≤ msgsize p
    → Later b (header_ptr p) p r y
    → HeaderLater b p (go_on r) (go_on y)
go_on-HeaderLater b p (done, q) y h l = ap go_on l
go_on-HeaderLater b p (failed, q) y h l = ap go_on l
go_on-HeaderLater b p (invalid, q) y h l = ap go_on l
go_on-HeaderLater b p (more, q) (done, q') h l = omega (arith, length-drop p.header_offset p.msgbuf)
go_on-HeaderLater b p (more, q) (more, q') h l = tt
go_on-HeaderLater b p (more, q) (failed, q') h l = tt
go_on-HeaderLater b p (more, q) (invalid, q') h l = tt

store_start_line-Open :
    (malloc_ok : ℕ → Bool) (l : List ℕ) (p : Parser) → Open (store_start_line malloc_ok l p)
unfolding store_start_line
store_start_line-Open malloc_ok l p = elim (Option-cases (cut_space l)) [
  | inl e ↦ ground arith
  | inr ((m, rest), e) ↦ elim (Option-cases (cut_space rest)) [
    | inl e' ↦ ground arith
    | inr (t, e') ↦ ground arith
  ]
]

end_start_line-Open :
    (malloc_ok : ℕ → Bool) (r : LineScan) (p : Parser) → Open (end_start_line malloc_ok r p)
unfolding end_start_line
end_start_line-Open malloc_ok (line l) p = store_start_line-Open malloc_ok l p
end_start_line-Open malloc_ok LineScan.short p = tt
end_start_line-Open malloc_ok LineScan.bad p = tt

pub parse_start_line-Open :
    (malloc_ok : ℕ → Bool) (ptr : List ℕ) (p : Parser)
    → is_header_complete p.header_state ≡ false
    → Open (parse_start_line malloc_ok ptr p)
unfolding parse_start_line
parse_start_line-Open malloc_ok ptr p h = elim (Bool-cases (at_crlf ptr)) [
  | inl e ↦ rw e h
  | inr e ↦ rw e (end_start_line-Open malloc_ok (scan_line (λ c. c == 0) http_start_line_max ptr) p)
]

end_header_value-Open :
    (malloc_ok : ℕ → Bool) (ptr : List ℕ) (r : ValueScan) (p : Parser)
    → Open (end_header_value malloc_ok ptr r p)
unfolding end_header_value store_header
end_header_value-Open malloc_ok ptr (ValueScan.value v rest) p = ground arith
end_header_value-Open malloc_ok ptr ValueScan.short p = tt
end_header_value-Open malloc_ok ptr ValueScan.bad p = tt

pub parse_header_value-Open :
    (malloc_ok : ℕ → Bool) (ptr : List ℕ) (p : Parser) (r : Ret × Parser)
    → parse_header_value malloc_ok ptr p ≡ some r
    → Open r
unfolding parse_header_value
parse_header_value-Open malloc_ok ptr p r e =
    elim (Option-cases (scan_value (suc (length ptr)) [] ptr)) [
      | inl none_is ↦ ground arith
      | inr (s, some_is) ↦ ground (arith, end_header_value-Open malloc_ok ptr s p)
    ]

-- `__parse_header_name` changes the state only when it is done.
abbrev pub Keeps : Parser → Ret × Parser → Type 0
Keeps p (done, q) = Unit
Keeps p (more, q) = q ≡ p
Keeps p (failed, q) = q ≡ p
Keeps p (invalid, q) = q ≡ p

end_header_name-Keeps : (r : LineScan) (p : Parser) → Keeps p (end_header_name r p)
unfolding end_header_name
end_header_name-Keeps (line l) p = tt
end_header_name-Keeps LineScan.short p = refl
end_header_name-Keeps LineScan.bad p = refl

pub parse_header_name-Keeps : (ptr : List ℕ) (p : Parser) → Keeps p (parse_header_name ptr p)
unfolding parse_header_name
parse_header_name-Keeps ptr p = elim (Bool-cases (at_crlf ptr)) [
  | inl e ↦ rw e tt
  | inr e ↦ rw e (end_header_name-Keeps (scan_name http_header_name_max ptr) p)
]

pub name_round-HeaderSteps :
    (p : Parser) (r : Ret × Parser)
    → p.header_offset ≤ msgsize p
    → is_header_complete p.header_state ≡ false
    → Keeps p r
    → Moves (header_ptr p) p r
    → HeaderSteps p (name_round r)
name_round-HeaderSteps p (done, q) h o k m = ground (arith, length-drop p.header_offset p.msgbuf)
name_round-HeaderSteps p (more, q) h o k m = rw (k, o) refl
name_round-HeaderSteps p (failed, q) h o k m = rw (k, o) (refl, refl)
name_round-HeaderSteps p (invalid, q) h o k m = rw (k, o) (refl, refl)

pub name_round-HeaderLater :
    (b : List ℕ) (p : Parser) (r y : Ret × Parser)
    → p.header_offset ≤ msgsize p
    → is_header_complete p.header_state ≡ false
    → Keeps p r
    → Keeps (feed p b) y
    → Later b (header_ptr p) p r y
    → HeaderLater b p (name_round r) (name_round y)
name_round-HeaderLater b p (done, q) y h o k k' l = ground arith
name_round-HeaderLater b p (failed, q) y h o k k' l = rw (l, k, o)
name_round-HeaderLater b p (invalid, q) y h o k k' l = rw (l, k, o)
name_round-HeaderLater b p (more, q) (done, q') h o k k' l =
    ground (arith, length-drop p.header_offset p.msgbuf)
name_round-HeaderLater b p (more, q) (more, q') h o k k' l = rw (k, k', o) tt
name_round-HeaderLater b p (more, q) (failed, q') h o k k' l = rw (k, k', o) tt
name_round-HeaderLater b p (more, q) (invalid, q') h o k k' l = rw (k, k', o) tt
