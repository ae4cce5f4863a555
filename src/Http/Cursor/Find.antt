-- ===== src/Http/Cursor/Find.antt =====
-- A header that was set is found, and the others are not touched (src/protocol/http_parser.c).
use myworkflow.Base.{
  ℕ, suc, ◌+◌, ◌^◌, ◌<◌, ◌≡◌, refl, sym, ap, ap₂, subst, ◌∙◌, Bool, true, false, ◌&&◌, some, List,
  [], ◌∷◌, ◌++◌, ltb, ◌==◌, ==_iff, if◌then◌else◌, arith, length, case_eq, All, take, drop,
  take-append, take-length,
}
use myworkflow.Http.Types.{Parser, HeaderLine, to_int, from_int, new_line, line_buf}
use myworkflow.Http.Fields.{
  add_message_header, check_message_header, check_connection, check_content_length,
}
use myworkflow.Http.Cursor.{
  same_name, SetLine, replaced, no_memory, absent, push_set, replace_line, set_line, end_set,
  set_message_header, http_parser_set_header, found_value, find_from, http_header_cursor_find,
}

case_eq_refl : (s : List ℕ) → case_eq s s ≡ true
unfolding case_eq
case_eq_refl [] = refl
case_eq_refl (c ∷ s) = ground (arith, case_eq_refl s)

-- A length that an `int` can hold.
abbrev pub IsInt : ℕ → Type 0
IsInt n = n < 2 ^ 31

-- The lengths of a line are those of its bytes.
abbrev pub IsLine : HeaderLine → Type 0
IsLine l =
    (l.name_len ≡ length l.name)
    × (l.value_len ≡ length l.value)
    × IsInt (length l.name)
    × IsInt (length l.value)

int-same : (n : ℕ) → IsInt n → from_int n ≡ n
int-same n h = ground arith

new_line-IsLine :
    (name value : List ℕ)
    → IsInt (length name)
    → IsInt (length value)
    → IsLine (new_line name value)
new_line-IsLine name value h k = (omega arith, omega arith, h, k)

line_buf-name :
    (name : List ℕ) (l : HeaderLine)
    → length l.name ≡ length name
    → take (length name) (line_buf l) ≡ l.name
line_buf-name name l e =
    let rest = b':' ∷ 32 ∷ (l.value ++ (13 ∷ 10 ∷ [])) in
    ap (λ n. take n (line_buf l)) (sym e)
    ∙ take-append (length l.name) l.name rest (omega arith)
    ∙ take-length l.name

drop-past : (xs ys : List ℕ) (k : ℕ) → drop (length xs + k) (xs ++ ys) ≡ drop k ys
drop-past [] ys k = ap (λ n. drop n ys) (omega arith)
drop-past (x ∷ xs) ys k =
    let e : suc (length xs) + k ≡ suc (length xs + k) = omega arith in
    ap (λ n. drop n (x ∷ (xs ++ ys))) e ∙ drop-past xs ys k

-- What is found in a line whose name has the length of the one looked for.
found_value_lem :
    (name : List ℕ) (l : HeaderLine)
    → length l.name ≡ length name
    → l.value_len ≡ length l.value
    → IsInt (length l.value)
    → found_value name l ≡ l.value
found_value_lem name l e n h =
    let rest = b':' ∷ 32 ∷ (l.value ++ (13 ∷ 10 ∷ [])) in
    let size : from_int l.value_len ≡ length l.value =
      ap from_int n ∙ int-same (length l.value) h in
    ap₂ take size (ap (λ k. drop (k + 2) (line_buf l)) (sym e) ∙ drop-past l.name rest 2)
    ∙ take-append (length l.value) l.value (13 ∷ 10 ∷ []) (omega arith)
    ∙ take-length l.value

-- `same_name` of a line whose name has the length of the one looked for.
same_name-bytes :
    (name : List ℕ) (l : HeaderLine)
    → length l.name ≡ length name
    → same_name name l ≡ (from_int l.name_len == length name && case_eq l.name name)
unfolding same_name
same_name-bytes name l e =
    ap (λ b. from_int l.name_len == length name && case_eq b name) (line_buf-name name l e)

same_name-length :
    (name : List ℕ) (l : HeaderLine)
    → IsLine l
    → same_name name l ≡ true
    → (from_int l.name_len ≡ length name) × (length l.name ≡ length name)
unfolding same_name
same_name-length name l (a, b, h, k) e =
    let same : from_int l.name_len ≡ length name = ground (arith, e) in
    (same, sym (ap from_int a ∙ int-same (length l.name) h) ∙ same)

same_name_refl :
    (name : List ℕ) (l : HeaderLine)
    → l.name ≡ name
    → from_int l.name_len ≡ length name
    → same_name name l ≡ true
same_name_refl name l e n =
    same_name-bytes name l (ap length e)
    ∙ ap₂ ◌&&◌ ((==_iff (from_int l.name_len) (length name)).1 n)
        (ap (λ b. case_eq b name) e ∙ case_eq_refl name)

-- The lines of another name, in order.
abbrev pub others : List ℕ → List HeaderLine → List HeaderLine
others name [] = []
others name (l ∷ ls) = if same_name name l then others name ls else l ∷ others name ls

abbrev pub SetsTo : List ℕ → List ℕ → List HeaderLine → SetLine → Type 0
SetsTo name value ls (replaced ms) =
    ((k : ℕ) → (i : ℕ) × (find_from name k ms ≡ some (value, i)))
    × (others name ms ≡ others name ls)
    × All IsLine ms
SetsTo name value ls no_memory = Unit
SetsTo name value ls absent =
    (v : List ℕ) (k : ℕ)
    → IsInt (length v)
    → (i : ℕ) × (find_from name k (ls ++ (new_line name v ∷ [])) ≡ some (v, i))

hit-SetsTo :
    (name value : List ℕ) (l m : HeaderLine) (ls : List HeaderLine)
    → same_name name l ≡ true
    → same_name name m ≡ true
    → found_value name m ≡ value
    → All IsLine (m ∷ ls)
    → SetsTo name value (l ∷ ls) (replaced (m ∷ ls))
unfolding find_from
hit-SetsTo name value l m ls e e' v h = (λ k. (k + 1, rw (e', v)), rw (e, e'), h)

-- A line that has been set, with the name as it was or written anew.
set-SetsTo :
    (name value name' : List ℕ) (l : HeaderLine) (ls : List HeaderLine)
    → IsInt (length value)
    → All IsLine (l ∷ ls)
    → same_name name l ≡ true
    → length name' ≡ length name
    → case_eq name' name ≡ true
    → SetsTo name value (l ∷ ls) (
        replaced (record l { name = name'; value = value; value_len = to_int (length value) } ∷ ls))
set-SetsTo name value name' l ls k (h, hs) e n c =
    let m = record l { name = name'; value = value; value_len = to_int (length value) } in
    let (same, len) = same_name-length name l h e in
    let (a, b, x, y) = h in
    let size : to_int (length value) ≡ length value = omega arith in
    let named : same_name name m ≡ true =
      same_name-bytes name m n ∙ ap₂ ◌&&◌ ((==_iff (from_int l.name_len) (length name)).1 same) c in
    hit-SetsTo name value l m ls e named (found_value_lem name m n size k)
      ((a ∙ (len ∙ sym n), size, omega (arith, x, len, n), k), hs)

own-case :
    (name : List ℕ) (l : HeaderLine)
    → IsLine l
    → same_name name l ≡ true
    → case_eq l.name name ≡ true
own-case name l h e =
    let (same, len) = same_name-length name l h e in
    let both = sym (same_name-bytes name l len) ∙ e in ground arith

replace-SetsTo :
    (name value : List ℕ) (l : HeaderLine) (ls : List HeaderLine) (b c : Bool)
    → IsInt (length value)
    → All IsLine (l ∷ ls)
    → same_name name l ≡ true
    → SetsTo name value (l ∷ ls) (
        if b
        then (if c
            then replaced
                (record l { name = name; value = value; value_len = to_int (length value) } ∷ ls)
            else no_memory)
        else replaced (record l { value = value; value_len = to_int (length value) } ∷ ls))
replace-SetsTo name value l ls true true k h e =
    set-SetsTo name value name l ls k h e refl (case_eq_refl name)
replace-SetsTo name value l ls true false k h e = tt
replace-SetsTo name value l ls false c k h e =
    set-SetsTo name value l.name l ls k h e (same_name-length name l h.0 e).1
      (own-case name l h.0 e)

push_set-SetsTo :
    (name value : List ℕ) (l : HeaderLine) (ls : List HeaderLine) (s : SetLine)
    → IsLine l
    → same_name name l ≡ false
    → SetsTo name value ls s
    → SetsTo name value (l ∷ ls) (push_set l s)
unfolding find_from
push_set-SetsTo name value l ls (replaced ms) v e (find, same, lines) =
    (λ k. let (i, f) = find (k + 1) in (i, rw (e, f)), rw (e, same), (v, lines))
push_set-SetsTo name value l ls no_memory v e h = tt
push_set-SetsTo name value l ls absent v e h =
    λ w k small. let (i, f) = h w (k + 1) small in (i, rw (e, f))

choose-SetsTo :
    (malloc_ok : ℕ → Bool) (name value : List ℕ) (l : HeaderLine) (ls : List HeaderLine) (b : Bool)
    → IsInt (length value)
    → All IsLine (l ∷ ls)
    → same_name name l ≡ b
    → SetsTo name value ls (set_line malloc_ok name value ls)
    → SetsTo name value (l ∷ ls) (
        if b
        then replace_line malloc_ok name value l ls
        else push_set l (set_line malloc_ok name value ls))
unfolding replace_line
choose-SetsTo malloc_ok name value l ls true k v e h =
    replace-SetsTo name value l ls (ltb (from_int l.value_len) (length value))
      (malloc_ok (length name + length value + 4)) k v e
choose-SetsTo malloc_ok name value l ls false k v e h =
    push_set-SetsTo name value l ls (set_line malloc_ok name value ls) v.0 e h

new_line-found :
    (name value : List ℕ)
    → IsInt (length name)
    → IsInt (length value)
    → (same_name name (new_line name value) ≡ true)
      × (found_value name (new_line name value) ≡ value)
new_line-found name value h k =
    let m = new_line name value in
    let size : to_int (length name) ≡ length name = omega arith in
    (
      same_name_refl name m refl (ap from_int size ∙ int-same (length name) h),
      found_value_lem name m refl (omega arith) k,
    )

set_line-SetsTo :
    (malloc_ok : ℕ → Bool) (name value : List ℕ) (ls : List HeaderLine)
    → IsInt (length name)
    → IsInt (length value)
    → All IsLine ls
    → SetsTo name value ls (set_line malloc_ok name value ls)
unfolding set_line find_from
set_line-SetsTo malloc_ok name value [] h k v =
    λ w i small. let (e, f) = new_line-found name w h small in (i + 1, rw (e, f))
set_line-SetsTo malloc_ok name value (l ∷ ls) h k v =
    choose-SetsTo malloc_ok name value l ls (same_name name l) k v refl
      (set_line-SetsTo malloc_ok name value ls h k v.1)

others-snoc :
    (name : List ℕ) (ls : List HeaderLine) (m : HeaderLine)
    → same_name name m ≡ true
    → others name (ls ++ (m ∷ [])) ≡ others name ls
others-snoc name [] m e = rw e
others-snoc name (l ∷ ls) m e =
    let ih = others-snoc name ls m e in ap (λ xs. if same_name name l then xs else l ∷ xs) ih

IsLine-snoc :
    (ls : List HeaderLine) (m : HeaderLine) → All IsLine ls → IsLine m → All IsLine (ls ++ (m ∷ []))
IsLine-snoc [] m v h = (h, tt)
IsLine-snoc (l ∷ ls) m (v, vs) h = (v, IsLine-snoc ls m vs h)

-- What setting a header makes of the parser: a refused one leaves it as it is.
abbrev pub Sets : List ℕ → List ℕ → Parser → Bool × Parser → Type 0
Sets name value p (true, q) =
    ((i : ℕ) × (http_header_cursor_find name q.header_list 0 ≡ some (value, i)))
    × (others name q.header_list ≡ others name p.header_list)
    × All IsLine q.header_list
Sets name value p (false, q) = q ≡ p

append-Sets :
    (name value : List ℕ) (p : Parser) (b : Bool)
    → IsInt (length name)
    → IsInt (length value)
    → All IsLine p.header_list
    → SetsTo name value p.header_list absent
    → Sets name value p (
        if b
        then (true, record p { header_list = p.header_list ++ (new_line name value ∷ []) })
        else (false, p))
unfolding http_header_cursor_find
append-Sets name value p true n k v h = (
  h value 0 k,
  others-snoc name p.header_list (new_line name value) (new_line-found name value n k).0,
  IsLine-snoc p.header_list (new_line name value) v (new_line-IsLine name value n k),
)
append-Sets name value p false n k v h = refl

add_message_header-Sets :
    (malloc_ok : ℕ → Bool) (name value : List ℕ) (p : Parser)
    → IsInt (length name)
    → IsInt (length value)
    → All IsLine p.header_list
    → SetsTo name value p.header_list absent
    → Sets name value p (add_message_header malloc_ok name value p)
unfolding add_message_header
add_message_header-Sets malloc_ok name value p n k v h =
    append-Sets name value p (malloc_ok (32 + length name + length value + 4)) n k v h

end_set-Sets :
    (malloc_ok : ℕ → Bool) (name value : List ℕ) (p : Parser) (s : SetLine)
    → IsInt (length name)
    → IsInt (length value)
    → All IsLine p.header_list
    → SetsTo name value p.header_list s
    → Sets name value p (end_set malloc_ok name value p s)
unfolding http_header_cursor_find
end_set-Sets malloc_ok name value p (replaced ls) n k v (find, same, lines) = (find 0, same, lines)
end_set-Sets malloc_ok name value p no_memory n k v h = refl
end_set-Sets malloc_ok name value p absent n k v h =
    add_message_header-Sets malloc_ok name value p n k v h

check_message_header-keeps :
    (name value : List ℕ) (p : Parser)
    → (check_message_header name value p).header_list ≡ p.header_list
unfolding check_message_header check_connection check_content_length
check_message_header-keeps name value p = ground arith

checked :
    (name value : List ℕ) (p : Parser) (r : Bool × Parser)
    → Sets name value p r
    → Sets name value p
        (let (ok, q) = r in if ok then (true, check_message_header name value q) else (false, q))
checked name value p (true, q) h =
    let (find, same, lines) = h in
    let (i, f) = find in
    let kept = check_message_header-keeps name value q in
    ((i, rw (kept, f)), rw (kept, same), subst (All IsLine) (sym kept) lines)
checked name value p (false, q) h = h

-- Where the lengths fit an `int`, `http_parser_set_header` that returns 0 leaves a list in which a
-- cursor at the head finds the value under the name, in which the lines of every other name are as they
-- were, and in which the lengths fit; one that fails leaves the parser as it was.
pub http_parser_set_header-Sets :
    (malloc_ok : ℕ → Bool) (name value : List ℕ) (p : Parser)
    → IsInt (length name)
    → IsInt (length value)
    → All IsLine p.header_list
    → Sets name value p (http_parser_set_header malloc_ok name value p)
unfolding http_parser_set_header set_message_header
http_parser_set_header-Sets malloc_ok name value p n k v =
    checked name value p (set_message_header malloc_ok name value p) (
      end_set-Sets malloc_ok name value p (set_line malloc_ok name value p.header_list) n k v
        (set_line-SetsTo malloc_ok name value p.header_list n k v))
