-- ===== src/Http/Types.antt =====
-- The parser of src/protocol/http_parser.h: its state, its results and its constants.
use myworkflow.Base.{
  ℕ, ◌+◌, ◌-◌, ◌*◌, ◌%◌, ◌^◌, Bool, true, false, Option, List, [], ◌∷◌, ◌++◌, ltb, if◌then◌else◌,
  length,
}

abbrev pub http_header_name_max : ℕ
http_header_name_max = 64

abbrev pub http_start_line_max : ℕ
http_start_line_max = 8192

abbrev pub http_header_value_max : ℕ
http_header_value_max = 8192

abbrev pub http_chunk_line_max : ℕ
http_chunk_line_max = 1024

abbrev pub http_trailer_line_max : ℕ
http_trailer_line_max = 8192

abbrev pub http_msgbuf_init_size : ℕ
http_msgbuf_init_size = 2048

-- `2 * 1024 * 1024 * 1024U - HTTP_CHUNK_LINE_MAX - 4`, an `unsigned int`.
abbrev pub chunk_size_max : ℕ
chunk_size_max = 2 * 1024 * 1024 * 1024 - 1024 - 4

-- `(size_t)-1`: the length is not known.
abbrev pub size_unknown : ℕ
size_unknown = 2 ^ 64 - 1

abbrev pub size_mod : ℕ
size_mod = 2 ^ 64

pub data HeaderState : Type 0 where
  start_line header_name header_value header_complete : HeaderState

pub data ChunkState : Type 0 where
  chunk_data trailer_part chunk_complete : ChunkState

abbrev pub is_header_complete : HeaderState → Bool
is_header_complete header_complete = true
is_header_complete _ = false

abbrev pub is_chunk_complete : ChunkState → Bool
is_chunk_complete chunk_complete = true
is_chunk_complete _ = false

-- The bits of the `int` that a `size_t` is stored in.
abbrev pub to_int : ℕ → ℕ
to_int n = n % 2 ^ 32

-- The `size_t` that those bits are read as: a negative `int` is extended by its sign.
abbrev pub from_int : ℕ → ℕ
from_int n = if ltb n (2 ^ 31) then n else n + (2 ^ 64 - 2 ^ 32)

-- `struct __header_line`: `name` and `value` are the bytes that were copied into `buf`, the lengths the
-- bits of the two `int`s.
pub record HeaderLine : Type 0 where
  pub name : List ℕ
  pub value : List ℕ
  pub name_len : ℕ
  pub value_len : ℕ

abbrev pub new_line : List ℕ → List ℕ → HeaderLine
new_line name value = record {
  name = name;
  value = value;
  name_len = to_int (length name);
  value_len = to_int (length value);
}

-- `buf`.
abbrev pub line_buf : HeaderLine → List ℕ
line_buf l = l.name ++ (b':' ∷ 32 ∷ (l.value ++ (13 ∷ 10 ∷ [])))

-- `http_parser_t`. `msgbuf` holds the first `msgsize` bytes of the buffer and `namebuf` the bytes
-- before its NUL. A NULL string is `none`.
pub record Parser : Type 0 where
  pub header_state : HeaderState
  pub chunk_state : ChunkState
  pub header_offset : ℕ
  pub chunk_offset : ℕ
  pub content_length : ℕ
  pub transfer_length : ℕ
  pub version : Option (List ℕ)
  pub method : Option (List ℕ)
  pub uri : Option (List ℕ)
  pub code : Option (List ℕ)
  pub phrase : Option (List ℕ)
  pub header_list : List HeaderLine
  pub namebuf : List ℕ
  pub msgbuf : List ℕ
  pub bufsize : ℕ
  pub has_connection : Bool
  pub has_content_length : Bool
  pub has_keep_alive : Bool
  pub expect_continue : Bool
  pub keep_alive : Bool
  pub chunked : Bool
  pub complete : Bool
  pub is_resp : Bool

abbrev pub msgsize : Parser → ℕ
msgsize p = length p.msgbuf

-- `memcpy`, and `msgsize += *n`.
abbrev pub feed : Parser → List ℕ → Parser
feed p buf = record p { msgbuf = p.msgbuf ++ buf }

-- The results 1, 0, -1 and -2 of the parsing functions.
pub data Ret : Type 0 where
  done more failed invalid : Ret

-- What one round of a parsing loop ends with: the loop returns, or goes on.
pub data Round : Type 0 where
  stop : Ret → Parser → Round
  again : Parser → Round

-- `while (ret > 0)`.
abbrev pub go_on : Ret × Parser → Round
go_on (done, p) = again p
go_on (more, p) = stop more p
go_on (failed, p) = stop failed p
go_on (invalid, p) = stop invalid p
