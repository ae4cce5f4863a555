-- ===== src/Http/Message.antt =====
-- `http_parser_init`, `http_parser_append_message`, `http_parser_header_complete` and
-- `http_parser_get_body` of src/protocol/http_parser.c.
pub mod Pieces
pub mod Append
pub mod Reserve
pub mod Total
use myworkflow.Base.{
  ℕ, zero, suc, ◌+◌, ◌-◌, ◌*◌, ◌%◌, ◌^◌, Bool, true, false, not, ◌&&◌, ◌||◌, Option, none, some,
  List, [], ◌∷◌, ◌++◌, ltb, leb, ◌==◌, if◌then◌else◌, length, take, drop,
}
use myworkflow.Http.Types.{
  http_msgbuf_init_size, size_unknown, size_mod, HeaderState, start_line, header_complete,
  ChunkState, chunk_data, chunk_complete, is_header_complete, is_chunk_complete, Parser, msgsize,
  feed, Ret, done, more, failed, invalid,
}
use myworkflow.Http.Header.{parse_message_header}
use myworkflow.Http.Chunk.{parse_chunk}

-- `namebuf`, `chunk_state` and `chunk_offset` stay as they are in the storage.
unfoldable pub http_parser_init : Bool → Parser → Parser
http_parser_init is_resp storage = record storage {
  header_state = start_line;
  header_offset = 0;
  transfer_length = size_unknown;
  content_length = if is_resp then size_unknown else 0;
  version = none;
  method = none;
  uri = none;
  code = none;
  phrase = none;
  header_list = [];
  msgbuf = [];
  bufsize = 0;
  has_connection = false;
  has_content_length = false;
  has_keep_alive = false;
  expect_continue = false;
  keep_alive = true;
  chunked = false;
  complete = false;
  is_resp = is_resp;
}

unfoldable pub http_parser_header_complete : Parser → Bool
http_parser_header_complete p = is_header_complete p.header_state

-- `msgsize + *n + 1`.
abbrev pub needed : ℕ → Parser → ℕ
needed n p = (msgsize p + n + 1) % size_mod

-- `while (new_size < need) new_size *= 2`, on fuel.
unfoldable pub grow : ℕ → ℕ → ℕ → Option ℕ
grow zero need new_size = none
grow (suc fuel) need new_size =
    let rest = grow fuel need (new_size * 2 % size_mod) in
    if ltb new_size need then rest else some new_size

-- `MAX (HTTP_MSGBUF_INIT_SIZE, 2 * parser->bufsize)`.
abbrev pub first_size : Parser → ℕ
first_size p =
    let twice = 2 * p.bufsize % size_mod in
    if leb twice http_msgbuf_init_size then http_msgbuf_init_size else twice

-- The buffer grows to hold `n` more bytes and a NUL; `failed` if `realloc` fails.
unfoldable pub reserve : (ℕ → Bool) → ℕ → Parser → Option (Ret × Parser)
unfolding grow
reserve malloc_ok n p =
    if ltb p.bufsize (needed n p)
    then elim (grow 64 (needed n p) (first_size p)) [
      | none ↦ none
      | some new_size ↦
          if malloc_ok new_size
          then some (more, record p { bufsize = new_size })
          else some (failed, p)
    ]
    else some (more, p)

-- The header has just been completed.
unfoldable pub body_start : Parser → Parser
body_start p =
    if p.chunked
    then record p { chunk_offset = p.header_offset; chunk_state = chunk_data }
    else if p.transfer_length == size_unknown
    then record p { transfer_length = p.content_length }
    else p

-- `*n -= msgsize - total; msgsize = total; complete = 1`, in `size_t`.
abbrev pub finish : ℕ → ℕ → Parser → Ret × ℕ × Parser
finish total n p = (
  done,
  (n + total + size_mod - msgsize p) % size_mod,
  record p { msgbuf = take total p.msgbuf; complete = true },
)

-- `header_offset + transfer_length`.
abbrev pub total_size : Parser → ℕ
total_size p = (p.header_offset + p.transfer_length) % size_mod

-- `if (ret <= 0) return ret`.
unfoldable pub after_chunks : ℕ → Option (Ret × Parser) → Option (Ret × ℕ × Parser)
after_chunks n none = none
after_chunks n (some (done, q)) = some (finish q.chunk_offset n q)
after_chunks n (some (more, q)) = some (more, n, q)
after_chunks n (some (failed, q)) = some (failed, n, q)
after_chunks n (some (invalid, q)) = some (invalid, n, q)

unfoldable pub advance_chunks : ℕ → Parser → Option (Ret × ℕ × Parser)
unfolding parse_chunk after_chunks
advance_chunks n p =
    if is_chunk_complete p.chunk_state
    then some (finish p.chunk_offset n p)
    else after_chunks n (parse_chunk p)

-- What follows a complete header.
unfoldable pub advance_body : ℕ → Parser → Option (Ret × ℕ × Parser)
unfolding advance_chunks
advance_body n p =
    if not (p.transfer_length == size_unknown)
    then (if leb (total_size p) (msgsize p)
        then some (finish (total_size p) n p)
        else some (more, n, p))
    else if not p.chunked
    then some (more, n, p)
    else advance_chunks n p

-- `if (ret <= 0) return ret`.
unfoldable pub after_header : ℕ → Option (Ret × Parser) → Option (Ret × ℕ × Parser)
unfolding body_start advance_body
after_header n none = none
after_header n (some (done, q)) = advance_body n (body_start q)
after_header n (some (more, q)) = some (more, n, q)
after_header n (some (failed, q)) = some (failed, n, q)
after_header n (some (invalid, q)) = some (invalid, n, q)

-- The function behind the copy.
unfoldable pub advance : (ℕ → Bool) → ℕ → Parser → Option (Ret × ℕ × Parser)
unfolding parse_message_header after_header
advance malloc_ok n p =
    if is_header_complete p.header_state
    then advance_body n p
    else after_header n (parse_message_header malloc_ok p)

-- `if (!new_base) return -1`, the copy and what follows it.
unfoldable pub after_reserve :
    (ℕ → Bool) → List ℕ → Option (Ret × Parser) → Option (Ret × ℕ × Parser)
unfolding advance
after_reserve malloc_ok buf none = none
after_reserve malloc_ok buf (some (failed, q)) = some (failed, length buf, q)
after_reserve malloc_ok buf (some (_, q)) = advance malloc_ok (length buf) (feed q buf)

-- The result, the new `*n` and the new parser.
unfoldable pub http_parser_append_message : (ℕ → Bool) → List ℕ → Parser → Option (Ret × ℕ × Parser)
unfolding reserve after_reserve
http_parser_append_message malloc_ok buf p =
    if p.complete
    then some (done, 0, p)
    else after_reserve malloc_ok buf (reserve malloc_ok (length buf) p)

-- The body's bytes; `none` is the result 1. The NUL behind them is outside `msgbuf`.
unfoldable pub http_parser_get_body : Parser → Option (List ℕ)
http_parser_get_body p =
    if p.complete && is_header_complete p.header_state
    then some (drop p.header_offset p.msgbuf)
    else none
