-- ===== src/Http/Tests.antt =====
-- Runs of src/protocol/http_parser.c on whole messages and on pieces of them.
use myworkflow.Http.Fields.{match_request_line, http_parser_add_header}
use myworkflow.Base.{
  All, str_eq, starts_with, case_eq, ℕ, ◌≡◌, refl, Bool, true, false, Option, none, some, List, [],
  ◌∷◌, ◌++◌, arith, codes, length,
}
use myworkflow.Http.Types.{new_line, start_line, chunk_data, Parser, feed, Ret, done, more}
use myworkflow.Http.Loop.{Ready}
use myworkflow.Http.Header.{parse_message_header}
use myworkflow.Http.Header.Rounds.{header_off, header_closed}
use myworkflow.Http.Header.Law.{parse_message_header-feed}
use myworkflow.Http.Chunk.{parse_chunk}
use myworkflow.Http.Chunk.Law.{chunk_off, chunk_closed, parse_chunk-feed}
use myworkflow.Http.Message.{
  http_parser_init, http_parser_append_message, http_parser_get_body, reserve, advance,
}
use myworkflow.Http.Cursor.{http_parser_set_header}
use myworkflow.Http.Cursor.Find.{IsLine, Sets, http_parser_set_header-Sets}
use myworkflow.Http.Message.Pieces.{Alive, advance-feed}
use myworkflow.Http.Message.Reserve.{IsShort, Reserved, reserve_total}

abbrev blank : Parser
blank = record {
  header_state = start_line;
  chunk_state = chunk_data;
  header_offset = 0;
  chunk_offset = 0;
  content_length = 0;
  transfer_length = 0;
  version = none;
  method = none;
  uri = none;
  code = none;
  phrase = none;
  header_list = [];
  namebuf = [];
  msgbuf = [];
  bufsize = 0;
  has_connection = false;
  has_content_length = false;
  has_keep_alive = false;
  expect_continue = false;
  keep_alive = false;
  chunked = false;
  complete = false;
  is_resp = false;
}

abbrev plenty : ℕ → Bool
plenty n = true

abbrev crlf : List ℕ
crlf = 13 ∷ 10 ∷ []

abbrev request_start : List ℕ
request_start = codes "GET / HTTP/1.1" ++ crlf ++ codes "Ho"

abbrev request_end : List ℕ
request_end = codes "st: a" ++ crlf ++ crlf

abbrev state_of : Option (Ret × Parser) → Parser
state_of none = blank
state_of (some (r, q)) = q

abbrev whole_state_of : Option (Ret × ℕ × Parser) → Parser
whole_state_of none = blank
whole_state_of (some (r, n, q)) = q

half : Parser
unfolding http_parser_init
half = feed (http_parser_init false blank) request_start

half-Ready : Ready header_off header_closed half
unfolding half
half-Ready = (omega arith, refl)

half_read : Parser
unfolding half parse_message_header
half_read = state_of (parse_message_header plenty half)

half_waits : parse_message_header plenty half ≡ some (more, half_read)
unfolding half_read match_request_line str_eq starts_with
half_waits = refl

whole_read : Parser
unfolding half parse_message_header
whole_read = state_of (parse_message_header plenty (feed half request_end))

whole_done : parse_message_header plenty (feed half request_end) ≡ some (done, whole_read)
unfolding whole_read match_request_line str_eq starts_with http_parser_add_header
whole_done = refl

whole-Ready : Ready header_off header_closed (feed half request_end)
unfolding half
whole-Ready = (omega arith, refl)

parse_message_header-feed_example :
    parse_message_header plenty (feed half_read request_end)
    ≡ parse_message_header plenty (feed half request_end)
parse_message_header-feed_example =
    parse_message_header-feed plenty half half_read request_end half-Ready half_waits

-- A chunked body, from its first chunk on.
chunks_start : Parser
chunks_start = record blank { msgbuf = codes "3" ++ crlf ++ codes "ab" }

chunks_end : List ℕ
chunks_end = codes "c" ++ crlf ++ codes "0" ++ crlf ++ crlf

chunks-Ready : Ready chunk_off chunk_closed chunks_start
unfolding chunks_start
chunks-Ready = (omega arith, refl)

chunks_wait : parse_chunk chunks_start ≡ some (more, chunks_start)
unfolding parse_chunk chunks_start
chunks_wait = refl

chunks_read : Parser
unfolding chunks_start chunks_end parse_chunk
chunks_read = state_of (parse_chunk (feed chunks_start chunks_end))

chunks_done : parse_chunk (feed chunks_start chunks_end) ≡ some (done, chunks_read)
unfolding chunks_read
chunks_done = refl

parse_chunk-feed_example :
    parse_chunk (feed chunks_start chunks_end) ≡ parse_chunk (feed chunks_start chunks_end)
parse_chunk-feed_example =
    parse_chunk-feed chunks_start chunks_start chunks_end chunks-Ready chunks_wait

half-Alive : Alive half
unfolding half
half-Alive = omega arith

half_advanced : Parser
unfolding half advance
half_advanced = whole_state_of (advance plenty 0 half)

half_advances : advance plenty 0 half ≡ some (more, 0, half_advanced)
unfolding half_advanced match_request_line str_eq starts_with
half_advances = refl

advance-feed_example :
    advance plenty 9 (feed half_advanced request_end) ≡ advance plenty 9 (feed half request_end)
advance-feed_example =
    advance-feed plenty 0 9 0 half half_advanced request_end half-Alive half_advances

half-IsShort : IsShort (length request_end) half
unfolding half request_end
half-IsShort = omega arith

reserve_total_example :
    (r : Ret × Parser) × (reserve plenty (length request_end) half ≡ some r)
    × Reserved plenty (length request_end) half r
reserve_total_example = reserve_total plenty (length request_end) half half-IsShort

-- A request with its body and three bytes of the next one: 50 bytes are taken.
get_request : List ℕ
get_request =
    codes "GET /x HTTP/1.1"
    ++ crlf
    ++ codes "Host: a"
    ++ crlf
    ++ codes "Content-Length: 3"
    ++ crlf
    ++ crlf
    ++ codes "abcdef"

abbrev taken : Option (Ret × ℕ × Parser) → Option (Ret × ℕ × Option (List ℕ))
taken none = none
taken (some (r, n, p)) = unfold http_parser_get_body in some (r, n, http_parser_get_body p)

get_request-taken :
    taken (http_parser_append_message plenty get_request (http_parser_init false blank))
    ≡ some (done, 50, some (codes "abc"))
unfolding http_parser_append_message http_parser_init http_parser_get_body get_request
    match_request_line str_eq starts_with http_parser_add_header case_eq
get_request-taken = refl

-- A line of another name, and one of the name in another case.
abbrev two_headers : Parser
two_headers = record blank {
  header_list = new_line (codes "Host") (codes "a") ∷ new_line (codes "Date") (codes "b") ∷ [];
}

two_headers-All : All IsLine two_headers.header_list
two_headers-All = omega arith

http_parser_set_header-Sets_example :
    Sets
      (codes "date")
      (codes "cc")
      two_headers
      (http_parser_set_header (λ n. true) (codes "date") (codes "cc") two_headers)
http_parser_set_header-Sets_example =
    http_parser_set_header-Sets (λ n. true) (codes "date") (codes "cc") two_headers (omega arith)
      (omega arith) two_headers-All
