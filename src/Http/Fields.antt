-- ===== src/Http/Fields.antt =====
-- The start line's fields and the header list of src/protocol/http_parser.c. `malloc_ok n` says
-- whether an allocation of `n` bytes succeeds.
pub mod Feed
use myworkflow.Base.{
  ℕ, zero, suc, ◌+◌, ◌-◌, ◌*◌, Bool, true, false, not, ◌&&◌, ◌||◌, Option, none, some, List, [],
  ◌∷◌, ◌++◌, ltb, leb, ◌==◌, if◌then◌else◌, length, get_or, codes, is_digit, str_eq, starts_with,
  case_eq,
}
use myworkflow.Http.Types.{Parser, new_line}

-- `strdup`.
abbrev pub strdup_ok : (ℕ → Bool) → List ℕ → Bool
strdup_ok malloc_ok s = malloc_ok (length s + 1)

-- `strcmp (version, "HTTP/1.0") == 0 || strncmp (version, "HTTP/0", 6) == 0`.
unfoldable pub is_old_version : List ℕ → Bool
is_old_version v = str_eq v (codes "HTTP/1.0") || starts_with v (codes "HTTP/0")

-- What the two start-line functions do before they copy the strings.
unfoldable pub drop_keep_alive : List ℕ → Parser → Parser
unfolding is_old_version
drop_keep_alive v p = if is_old_version v then record p { keep_alive = false } else p

-- `*code == '1' || strcmp (code, "204") == 0 || strcmp (code, "304") == 0`.
unfoldable pub has_no_body : List ℕ → Bool
has_no_body code = get_or code 0 0 == b'1' || str_eq code (codes "204") || str_eq code (codes "304")

unfoldable pub match_request_line : (ℕ → Bool) → List ℕ → List ℕ → List ℕ → Parser → Bool × Parser
unfolding drop_keep_alive
match_request_line malloc_ok m u v p =
    let q = drop_keep_alive v p in
    if strdup_ok malloc_ok m && strdup_ok malloc_ok u && strdup_ok malloc_ok v
    then (true, record q { method = some m; uri = some u; version = some v })
    else (false, q)

unfoldable pub match_status_line : (ℕ → Bool) → List ℕ → List ℕ → List ℕ → Parser → Bool × Parser
unfolding drop_keep_alive has_no_body
match_status_line malloc_ok v c ph p =
    let o = drop_keep_alive v p in
    let q = if has_no_body c then record o { transfer_length = 0 } else o in
    if strdup_ok malloc_ok v && strdup_ok malloc_ok c && strdup_ok malloc_ok ph
    then (true, record q { version = some v; code = some c; phrase = some ph })
    else (false, q)

-- `atol` on a string that begins with a digit.
unfoldable pub atol_from : ℕ → List ℕ → ℕ
unfolding is_digit
atol_from n [] = n
atol_from n (c ∷ s) = if is_digit c then atol_from (n * 10 + (c - b'0')) s else n

-- `name_len` equals the literal's length, and `strncasecmp` finds no difference.
unfoldable pub named : List ℕ → List ℕ → Bool
named literal name = length name == length literal && case_eq name literal

unfoldable pub check_connection : List ℕ → Parser → Parser
check_connection value p =
    if named (codes "Keep-Alive") value
    then record p { has_connection = true; keep_alive = true }
    else if named (codes "close") value
    then record p { has_connection = true; keep_alive = false }
    else record p { has_connection = true }

unfoldable pub check_content_length : List ℕ → Parser → Parser
unfolding atol_from
check_content_length value p =
    if leb b'0' (get_or value 0 0) && leb (get_or value 0 0) b'9' && leb (length value) 15
    then record p { has_content_length = true; content_length = atol_from 0 value }
    else record p { has_content_length = true }

-- `__check_message_header`: the literals' lengths are the cases of its `switch`.
unfoldable pub check_message_header : List ℕ → List ℕ → Parser → Parser
unfolding named check_connection check_content_length
check_message_header name value p =
    if named (codes "Expect") name
    then (if named (codes "100-continue") value then record p { expect_continue = true } else p)
    else if named (codes "Connection") name
    then check_connection value p
    else if named (codes "Keep-Alive") name
    then record p { has_keep_alive = true }
    else if named (codes "Content-Length") name
    then check_content_length value p
    else if named (codes "Transfer-Encoding") name
    then record p { chunked = not (named (codes "identity") value) }
    else p

-- `sizeof (struct __header_line)`: two pointers, two `int`s and a pointer.
abbrev header_line_size : ℕ
header_line_size = 32

-- `__add_message_header`.
unfoldable pub add_message_header : (ℕ → Bool) → List ℕ → List ℕ → Parser → Bool × Parser
add_message_header malloc_ok name value p =
    if malloc_ok (header_line_size + length name + length value + 4)
    then (true, record p { header_list = p.header_list ++ (new_line name value ∷ []) })
    else (false, p)

unfoldable pub http_parser_add_header : (ℕ → Bool) → List ℕ → List ℕ → Parser → Bool × Parser
unfolding add_message_header check_message_header
http_parser_add_header malloc_ok name value p =
    let (added, q) = add_message_header malloc_ok name value p in
    if added then (true, check_message_header name value q) else (false, q)
