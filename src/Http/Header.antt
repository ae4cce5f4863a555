-- ===== src/Http/Header.antt =====
-- `__parse_start_line`, `__parse_header_name`, `__parse_header_value` and `__parse_message_header`
-- of src/protocol/http_parser.c. `ptr` is the list of the message's unread bytes.
pub mod Steps
pub mod Values
pub mod Rounds
pub mod Law
use myworkflow.Base.{
  ℕ, zero, suc, ◌+◌, ◌-◌, ◌*◌, ◌<◌, Bool, true, false, not, ◌&&◌, ◌||◌, Option, none, some, List,
  [], ◌∷◌, ◌++◌, ltb, leb, ◌==◌, if◌then◌else◌, length, get_or, take, drop,
}
use myworkflow.Http.Types.{
  http_start_line_max, http_header_name_max, HeaderState, start_line, header_name, header_value,
  header_complete, is_header_complete, Parser, msgsize, Ret, done, more, failed, invalid, Round,
  stop, again, go_on,
}
use myworkflow.Http.Rounds.{rounds}
use myworkflow.Http.Fields.{match_request_line, match_status_line, http_parser_add_header}
use myworkflow.Http.Lines.{LineScan, line, ValueScan, scan_line, scan_name, cut_space, scan_value}

-- `len >= 2 && ptr[0] == '\r' && ptr[1] == '\n'`.
abbrev pub at_crlf : List ℕ → Bool
at_crlf s = leb 2 (length s) && get_or s 0 0 == 13 && get_or s 1 0 == 10

-- The end of `__parse_start_line`, at a whole line: its three fields are stored.
unfoldable pub store_start_line : (ℕ → Bool) → List ℕ → Parser → Ret × Parser
unfolding cut_space
store_start_line malloc_ok s p = elim (cut_space s) [
  | none ↦ (invalid, p)
  | some (a, rest) ↦ elim (cut_space rest) [
    | none ↦ (invalid, p)
    | some (b, c) ↦
        let (ok, q) =
          if p.is_resp
          then match_status_line malloc_ok a b c p
          else match_request_line malloc_ok a b c p in
        if ok
        then (
          done,
          record q { header_offset = q.header_offset + (length s + 2); header_state = header_name },
        )
        else (failed, q)
  ]
]

-- What the scan's end means.
unfoldable pub end_start_line : (ℕ → Bool) → LineScan → Parser → Ret × Parser
unfolding store_start_line
end_start_line malloc_ok (line s) p = store_start_line malloc_ok s p
end_start_line malloc_ok LineScan.short p = (more, p)
end_start_line malloc_ok LineScan.bad p = (invalid, p)

unfoldable pub parse_start_line : (ℕ → Bool) → List ℕ → Parser → Ret × Parser
unfolding scan_line end_start_line
parse_start_line malloc_ok ptr p =
    if at_crlf ptr
    then (done, record p { header_offset = p.header_offset + 2 })
    else end_start_line malloc_ok (scan_line (λ c. c == 0) http_start_line_max ptr) p

unfoldable pub end_header_name : LineScan → Parser → Ret × Parser
end_header_name (line s) p = (
  done,
  record p {
    namebuf = s;
    header_offset = p.header_offset + (length s + 1);
    header_state = header_value;
  },
)
end_header_name LineScan.short p = (more, p)
end_header_name LineScan.bad p = (invalid, p)

unfoldable pub parse_header_name : List ℕ → Parser → Ret × Parser
unfolding scan_name end_header_name
parse_header_name ptr p =
    if at_crlf ptr
    then (done, record p { header_offset = p.header_offset + 2; header_state = header_complete })
    else end_header_name (scan_name http_header_name_max ptr) p

-- The end of `__parse_header_value`: `rest` is what the loop has not read.
unfoldable pub store_header : (ℕ → Bool) → List ℕ → List ℕ → List ℕ → Parser → Ret × Parser
store_header malloc_ok ptr v rest p =
    let (ok, q) = http_parser_add_header malloc_ok p.namebuf v p in
    if ok
    then (
      done,
      record q {
        header_offset = q.header_offset + (length ptr - length rest);
        header_state = header_name;
      },
    )
    else (failed, q)

unfoldable pub end_header_value : (ℕ → Bool) → List ℕ → ValueScan → Parser → Ret × Parser
unfolding store_header
end_header_value malloc_ok ptr (ValueScan.value v rest) p = store_header malloc_ok ptr v rest p
end_header_value malloc_ok ptr ValueScan.short p = (more, p)
end_header_value malloc_ok ptr ValueScan.bad p = (invalid, p)

-- Without fuel left it answers `none`: `parse_header_value_total` shows that this does not happen.
unfoldable pub parse_header_value : (ℕ → Bool) → List ℕ → Parser → Option (Ret × Parser)
unfolding scan_value end_header_value
parse_header_value malloc_ok ptr p = elim (scan_value (suc (length ptr)) [] ptr) [
  | none ↦ none
  | some r ↦ some (end_header_value malloc_ok ptr r p)
]

-- `(const char *)message + parser->header_offset`.
abbrev pub header_ptr : Parser → List ℕ
header_ptr p = drop p.header_offset p.msgbuf

-- A completed header ends the loop, whatever `ret` is.
abbrev pub name_round : Ret × Parser → Round
name_round (r, q) = if is_header_complete q.header_state then stop done q else go_on (r, q)

abbrev pub value_round : Option (Ret × Parser) → Option Round
value_round none = none
value_round (some r) = some (go_on r)

-- The branch on `header_state`.
unfoldable pub header_round_at : (ℕ → Bool) → HeaderState → Parser → Option Round
unfolding parse_start_line parse_header_name parse_header_value
header_round_at malloc_ok start_line p = some (go_on (parse_start_line malloc_ok (header_ptr p) p))
header_round_at malloc_ok header_value p =
    value_round (parse_header_value malloc_ok (header_ptr p) p)
header_round_at malloc_ok _ p = some (name_round (parse_header_name (header_ptr p) p))

-- One round of the loop of `__parse_message_header`.
unfoldable pub header_round : (ℕ → Bool) → Parser → Option Round
unfolding header_round_at
header_round malloc_ok p = header_round_at malloc_ok p.header_state p

unfoldable pub parse_message_header : (ℕ → Bool) → Parser → Option (Ret × Parser)
unfolding header_round rounds
parse_message_header malloc_ok p =
    rounds (header_round malloc_ok) (suc (msgsize p - p.header_offset)) p
