-- ===== src/Http/Fields/Feed.antt =====
-- What the field functions of src/protocol/http_parser.c leave alone: the message's bytes and the
-- header's offset.
use myworkflow.Base.{ℕ, ◌≡◌, Bool, List, arith}
use myworkflow.Http.Types.{Parser, feed, Ret}
use myworkflow.Http.Fields.{
  match_request_line, match_status_line, add_message_header, check_message_header,
  http_parser_add_header,
}

abbrev pub feed_ok : List ℕ → Bool × Parser → Bool × Parser
feed_ok b (ok, q) = (ok, feed q b)

abbrev pub feed_ret : List ℕ → Ret × Parser → Ret × Parser
feed_ret b (r, q) = (r, feed q b)

-- The fields do not depend on the message's bytes, and leave the offset and the bytes alone.
pub record Same (p q : Parser) : Type 0 where
  pub same_bytes : q.msgbuf ≡ p.msgbuf
  pub same_offset : q.header_offset ≡ p.header_offset

pub match_request_line-feed :
    (malloc_ok : ℕ → Bool) (m u v b : List ℕ) (p : Parser)
    → match_request_line malloc_ok m u v (feed p b)
      ≡ feed_ok b (match_request_line malloc_ok m u v p)
unfolding match_request_line
match_request_line-feed malloc_ok m u v b p = ground arith

pub match_status_line-feed :
    (malloc_ok : ℕ → Bool) (v c ph b : List ℕ) (p : Parser)
    → match_status_line malloc_ok v c ph (feed p b)
      ≡ feed_ok b (match_status_line malloc_ok v c ph p)
unfolding match_status_line
match_status_line-feed malloc_ok v c ph b p = ground arith

pub match_request_line-Same :
    (malloc_ok : ℕ → Bool) (m u v : List ℕ) (p : Parser)
    → Same p (match_request_line malloc_ok m u v p).1
unfolding match_request_line
match_request_line-Same malloc_ok m u v p = ground arith

pub match_status_line-Same :
    (malloc_ok : ℕ → Bool) (v c ph : List ℕ) (p : Parser)
    → Same p (match_status_line malloc_ok v c ph p).1
unfolding match_status_line
match_status_line-Same malloc_ok v c ph p = ground arith

check_message_header-feed :
    (name value b : List ℕ) (p : Parser)
    → check_message_header name value (feed p b) ≡ feed (check_message_header name value p) b
unfolding check_message_header
check_message_header-feed name value b p = ground arith

check_message_header-Same :
    (name value : List ℕ) (p : Parser) → Same p (check_message_header name value p)
unfolding check_message_header
check_message_header-Same name value p = ground arith

pub http_parser_add_header-feed :
    (malloc_ok : ℕ → Bool) (name value b : List ℕ) (p : Parser)
    → http_parser_add_header malloc_ok name value (feed p b)
      ≡ feed_ok b (http_parser_add_header malloc_ok name value p)
unfolding http_parser_add_header add_message_header
http_parser_add_header-feed malloc_ok name value b p =
    ground
      (arith, check_message_header-feed name value b (add_message_header malloc_ok name value p).1)

pub http_parser_add_header-Same :
    (malloc_ok : ℕ → Bool) (name value : List ℕ) (p : Parser)
    → Same p (http_parser_add_header malloc_ok name value p).1
unfolding http_parser_add_header add_message_header
http_parser_add_header-Same malloc_ok name value p =
    ground
      (arith, check_message_header-Same name value (add_message_header malloc_ok name value p).1)
