-- ===== src/Http/Cursor.antt =====
-- Setting, finding and erasing header lines, and the setters of the start line's strings, in
-- src/protocol/http_parser.c. A cursor is the number of lines up to its `next`: 0 at the head.
pub mod Find
use myworkflow.Base.{
  ℕ, zero, suc, ◌+◌, ◌-◌, Bool, true, false, not, ◌&&◌, Option, none, some, List, [], ◌∷◌, ◌++◌,
  ltb, leb, ◌==◌, if◌then◌else◌, length, get_elem?, take, drop, case_eq,
}
use myworkflow.Http.Types.{to_int, from_int, Parser, HeaderLine, line_buf}
use myworkflow.Http.Fields.{strdup_ok, add_message_header, check_message_header}

-- `name_len` is equal, and so are as many bytes of `buf` but for case.
unfoldable pub same_name : List ℕ → HeaderLine → Bool
same_name name l =
    from_int l.name_len == length name && case_eq (take (length name) (line_buf l)) name

-- What the loop of `__set_message_header` ends with.
pub data SetLine : Type 0 where
  replaced : List HeaderLine → SetLine
  no_memory : SetLine
  absent : SetLine

abbrev pub push_set : HeaderLine → SetLine → SetLine
push_set l (replaced ls) = replaced (l ∷ ls)
push_set l no_memory = no_memory
push_set l absent = absent

-- The line that is found: a longer value needs a new buffer, and there the name is written anew.
unfoldable pub replace_line : (ℕ → Bool) → List ℕ → List ℕ → HeaderLine → List HeaderLine → SetLine
replace_line malloc_ok name value l ls =
    if ltb (from_int l.value_len) (length value)
    then (if malloc_ok (length name + length value + 4)
        then replaced
            (record l { name = name; value = value; value_len = to_int (length value) } ∷ ls)
        else no_memory)
    else replaced (record l { value = value; value_len = to_int (length value) } ∷ ls)

unfoldable pub set_line : (ℕ → Bool) → List ℕ → List ℕ → List HeaderLine → SetLine
unfolding same_name replace_line
set_line malloc_ok name value [] = absent
set_line malloc_ok name value (l ∷ ls) =
    let rest = push_set l (set_line malloc_ok name value ls) in
    if same_name name l then replace_line malloc_ok name value l ls else rest

abbrev pub end_set : (ℕ → Bool) → List ℕ → List ℕ → Parser → SetLine → Bool × Parser
end_set malloc_ok name value p (replaced ls) = (true, record p { header_list = ls })
end_set malloc_ok name value p no_memory = (false, p)
end_set malloc_ok name value p absent = add_message_header malloc_ok name value p

unfoldable pub set_message_header : (ℕ → Bool) → List ℕ → List ℕ → Parser → Bool × Parser
unfolding set_line add_message_header
set_message_header malloc_ok name value p =
    end_set malloc_ok name value p (set_line malloc_ok name value p.header_list)

unfoldable pub http_parser_set_header : (ℕ → Bool) → List ℕ → List ℕ → Parser → Bool × Parser
unfolding set_message_header check_message_header
http_parser_set_header malloc_ok name value p =
    let (ok, q) = set_message_header malloc_ok name value p in
    if ok then (true, check_message_header name value q) else (false, q)

unfoldable pub http_parser_set_method : (ℕ → Bool) → List ℕ → Parser → Bool × Parser
http_parser_set_method malloc_ok s p =
    if strdup_ok malloc_ok s then (true, record p { method = some s }) else (false, p)

unfoldable pub http_parser_set_uri : (ℕ → Bool) → List ℕ → Parser → Bool × Parser
http_parser_set_uri malloc_ok s p =
    if strdup_ok malloc_ok s then (true, record p { uri = some s }) else (false, p)

unfoldable pub http_parser_set_version : (ℕ → Bool) → List ℕ → Parser → Bool × Parser
http_parser_set_version malloc_ok s p =
    if strdup_ok malloc_ok s then (true, record p { version = some s }) else (false, p)

unfoldable pub http_parser_set_code : (ℕ → Bool) → List ℕ → Parser → Bool × Parser
http_parser_set_code malloc_ok s p =
    if strdup_ok malloc_ok s then (true, record p { code = some s }) else (false, p)

unfoldable pub http_parser_set_phrase : (ℕ → Bool) → List ℕ → Parser → Bool × Parser
http_parser_set_phrase malloc_ok s p =
    if strdup_ok malloc_ok s then (true, record p { phrase = some s }) else (false, p)

-- The next line and the cursor on it, unless the cursor is on the last line.
unfoldable pub http_header_cursor_next : List HeaderLine → ℕ → Option (HeaderLine × ℕ)
http_header_cursor_next ls cursor = elim (get_elem? ls cursor) [
  | none ↦ none
  | some l ↦ some (l, cursor + 1)
]

-- The bytes at `*value`, as many as `*value_len`.
abbrev pub found_value : List ℕ → HeaderLine → List ℕ
found_value name l = take (from_int l.value_len) (drop (length name + 2) (line_buf l))

-- The loop of `http_header_cursor_find` over the lines behind the cursor.
unfoldable pub find_from : List ℕ → ℕ → List HeaderLine → Option (List ℕ × ℕ)
unfolding same_name
find_from name cursor [] = none
find_from name cursor (l ∷ ls) =
    let rest = find_from name (cursor + 1) ls in
    if same_name name l then some (found_value name l, cursor + 1) else rest

unfoldable pub http_header_cursor_find : List ℕ → List HeaderLine → ℕ → Option (List ℕ × ℕ)
unfolding find_from
http_header_cursor_find name ls cursor = find_from name cursor (drop cursor ls)

-- The line under the cursor goes, and the cursor moves to the line before it.
unfoldable pub http_header_cursor_erase : List HeaderLine → ℕ → Option (List HeaderLine × ℕ)
http_header_cursor_erase ls zero = none
http_header_cursor_erase ls (suc cursor) = some (take cursor ls ++ drop (suc cursor) ls, cursor)
