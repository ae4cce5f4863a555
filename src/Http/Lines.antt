-- ===== src/Http/Lines.antt =====
-- The scanning loops of src/protocol/http_parser.c over the unread bytes of the message.
pub mod Stable
pub mod Value
pub mod Fold
use myworkflow.Base.{
  ℕ, zero, suc, ◌+◌, ◌-◌, ◌*◌, ◌<◌, Bool, true, false, not, ◌&&◌, ◌||◌, Option, none, some, List,
  [], ◌∷◌, ◌++◌, ltb, leb, ◌==◌, if◌then◌else◌, length, get_or, take,
}
use myworkflow.Http.Types.{http_header_value_max}

-- How a scan ends: a line without its CR LF, the input's end, or bytes that are refused.
pub data LineScan : Type 0 where
  line : List ℕ → LineScan
  short : LineScan
  bad : LineScan

abbrev pub push_line : ℕ → LineScan → LineScan
push_line c (line s) = line (c ∷ s)
push_line c short = short
push_line c bad = bad

-- At a CR: the byte behind it is LF, another, or not there yet.
abbrev pub at_cr : List ℕ → LineScan
at_cr [] = short
at_cr (d ∷ s) = if d == 10 then line [] else bad

-- The loops `for (i = 0; i < min; i++)` that look for CR LF; `room` is what is left of the maximal
-- length, and `refused` tells the bytes that end the start line's loop by an error.
unfoldable pub scan_line : (ℕ → Bool) → ℕ → List ℕ → LineScan
scan_line refused zero s = bad
scan_line refused (suc room) [] = short
scan_line refused (suc room) (c ∷ s) =
    let rest = push_line c (scan_line refused room s) in
    if c == 13 then at_cr s else if refused c then bad else rest

-- `(signed char)c <= 0`.
abbrev pub not_ascii : ℕ → Bool
not_ascii c = c == 0 || leb 128 c

-- The loop of `__parse_header_name`: the bytes before the colon.
unfoldable pub scan_name : ℕ → List ℕ → LineScan
scan_name zero s = bad
scan_name (suc room) [] = short
scan_name (suc room) (c ∷ s) =
    let rest = push_line c (scan_name room s) in
    if c == b':' then line [] else if not_ascii c then bad else rest

abbrev pub push_cut : ℕ → Option (List ℕ × List ℕ) → Option (List ℕ × List ℕ)
push_cut c none = none
push_cut c (some (a, b)) = some (c ∷ a, b)

-- `strchr (s, ' ')`, with the NUL that the caller writes there: what stands before and behind.
unfoldable pub cut_space : List ℕ → Option (List ℕ × List ℕ)
cut_space [] = none
cut_space (c ∷ s) = let rest = push_cut c (cut_space s) in if c == 32 then some ([], s) else rest

abbrev pub is_blank : ℕ → Bool
is_blank c = c == 32 || c == 9

-- A piece of a header's value, or its whole, with the bytes behind it.
pub data ValueScan : Type 0 where
  value : List ℕ → List ℕ → ValueScan
  short : ValueScan
  bad : ValueScan

-- The first inner loop of `__parse_header_value`.
unfoldable pub skip_blank : List ℕ → List ℕ
skip_blank [] = []
skip_blank (c ∷ s) = let rest = skip_blank s in if is_blank c then rest else c ∷ s

abbrev pub push_value : ℕ → ValueScan → ValueScan
push_value c (value v s) = value (c ∷ v) s
push_value c short = short
push_value c bad = bad

-- The second inner loop: the bytes up to a CR, and what follows the CR. `room` is
-- `HTTP_HEADER_VALUE_MAX - i`.
unfoldable pub read_value : ℕ → List ℕ → ValueScan
read_value room [] = short
read_value zero (c ∷ s) = bad
read_value (suc room) (c ∷ []) = short
read_value (suc room) (c ∷ d ∷ s) =
    let rest = push_value c (read_value room (d ∷ s)) in
    if c == 13 then value [] (d ∷ s) else if not_ascii c then bad else rest

-- The third inner loop: blanks at the end are dropped. `n` is the loop's `i`.
unfoldable pub trim_end : List ℕ → ℕ → ℕ
trim_end v zero = zero
trim_end v (suc n) = let rest = trim_end v n in if is_blank (get_or v n 0) then rest else suc n

-- Behind a CR: LF, and at least one more byte.
unfoldable pub after_cr : List ℕ → ValueScan
after_cr [] = short
after_cr (c ∷ []) = if c == 10 then short else bad
after_cr (c ∷ d ∷ s) = if c == 10 then value [] (d ∷ s) else bad

-- The end of a line with the value `w`, where `r` is what stands behind its CR.
unfoldable pub trimmed : List ℕ → ValueScan → ValueScan
unfolding trim_end
trimmed w (value _ u) = value (take (trim_end w (length w)) w) u
trimmed w short = short
trimmed w bad = bad

unfoldable pub end_line : List ℕ → ValueScan → ValueScan
unfolding after_cr trimmed
end_line v (value w t) = trimmed (v ++ w) (after_cr t)
end_line v short = short
end_line v bad = bad

-- One round of the outer loop: `v` is `header_value[0 .. i)`. It returns the new value, trimmed,
-- and what stands behind the line's CR LF.
unfoldable pub value_line : List ℕ → List ℕ → ValueScan
unfolding skip_blank read_value end_line
value_line v s = end_line v (read_value (http_header_value_max - length v) (skip_blank s))

-- A line that begins with a blank continues the value: `next` is the loop's next round.
unfoldable pub fold_line : (List ℕ → List ℕ → Option ValueScan) → ValueScan → Option ValueScan
fold_line next (value w []) = some short
fold_line next (value w (c ∷ t)) =
    if is_blank c then next (w ++ (32 ∷ [])) t else some (value w (c ∷ t))
fold_line next short = some short
fold_line next bad = some bad

-- Whether what a round has stored lies inside the array: `v`, and behind it the bytes that the second
-- inner loop has found, with their CR.
abbrev pub is_stored : List ℕ → ValueScan → Bool
is_stored v (value w t) = ltb (length v + length w) http_header_value_max
is_stored v short = ltb (length v) (http_header_value_max + 1)
is_stored v bad = ltb (length v) (http_header_value_max + 1)

-- The outer loop, on fuel. `none` is a loop without fuel, or a byte stored behind the array.
unfoldable pub scan_value : ℕ → List ℕ → List ℕ → Option ValueScan
unfolding skip_blank read_value value_line fold_line
scan_value zero v s = none
scan_value (suc fuel) v s =
    elim (is_stored v (read_value (http_header_value_max - length v) (skip_blank s))) [
      | true ↦ fold_line (scan_value fuel) (value_line v s)
      | false ↦ none
    ]
