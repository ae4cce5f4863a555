-- ===== src/Base/Ctype.antt =====
-- The <ctype.h> tests and the string comparisons of the C library, in the C locale.
use Prim.Native.Nat.{ℕ, ◌+◌, ◌-◌, ◌*◌, ◌%◌, ◌^◌, min}
use mathlib.Core.Option.{Option, none, some}
use mathlib.Core.Bool.{Bool, true, false, ◌&&◌, ◌||◌}
use mathlib.Core.List.{List, [], ◌∷◌}
use myworkflow.Base.Tests.{leb, ◌==◌, if◌then◌else◌}

unfoldable pub is_digit : ℕ → Bool
is_digit c = leb b'0' c && leb c b'9'

unfoldable pub is_upper : ℕ → Bool
is_upper c = leb b'A' c && leb c b'Z'

unfoldable pub is_lower : ℕ → Bool
is_lower c = leb b'a' c && leb c b'z'

unfoldable pub is_alnum : ℕ → Bool
unfolding is_digit is_upper is_lower
is_alnum c = is_digit c || is_upper c || is_lower c

unfoldable pub is_xdigit : ℕ → Bool
unfolding is_digit
is_xdigit c = is_digit c || leb b'A' c && leb c b'F' || leb b'a' c && leb c b'f'

unfoldable pub to_lower : ℕ → ℕ
unfolding is_upper
to_lower c = if is_upper c then c + 32 else c

unfoldable pub is_space : ℕ → Bool
is_space c = c == 32 || leb 9 c && leb c 13

-- `strcmp (a, b) == 0`, for strings without their terminating NUL.
unfoldable pub str_eq : List ℕ → List ℕ → Bool
str_eq [] [] = true
str_eq [] (d ∷ t) = false
str_eq (c ∷ s) [] = false
str_eq (c ∷ s) (d ∷ t) = c == d && str_eq s t

-- `strncmp (s, p, strlen (p)) == 0`.
unfoldable pub starts_with : List ℕ → List ℕ → Bool
starts_with s [] = true
starts_with [] (d ∷ p) = false
starts_with (c ∷ s) (d ∷ p) = c == d && starts_with s p

-- `strncasecmp (a, b, n) == 0` for two arrays of `n` bytes: it stops at a common NUL.
unfoldable pub case_eq : List ℕ → List ℕ → Bool
unfolding to_lower
case_eq [] [] = true
case_eq [] (d ∷ t) = false
case_eq (c ∷ s) [] = false
case_eq (c ∷ s) (d ∷ t) = to_lower c == to_lower d && (c == 0 || case_eq s t)

-- The value of a hexadecimal digit.
unfoldable pub digit_value : ℕ → ℕ
unfolding is_digit is_upper
digit_value c = if is_digit c then c - b'0' else if is_upper c then c - b'A' + 10 else c - b'a' + 10

-- The digits of `strtol (s, &end, 16)`, clamped to `LONG_MAX` or `-LONG_MIN` by the caller.
unfoldable pub hex_from : ℕ → List ℕ → ℕ
unfolding is_xdigit digit_value
hex_from n [] = n
hex_from n (c ∷ s) =
    let rest = hex_from (n * 16 + digit_value c) s in if is_xdigit c then rest else n

abbrev starts_with_digit : List ℕ → Bool
starts_with_digit [] = false
starts_with_digit (c ∷ s) = is_xdigit c

-- An optional `0x`, taken only where a digit follows.
unfoldable pub skip_0x : List ℕ → List ℕ
unfolding is_xdigit
skip_0x [] = []
skip_0x (a ∷ []) = a ∷ []
skip_0x (a ∷ x ∷ s) =
    if a == b'0' && to_lower x == b'x' && starts_with_digit s then s else a ∷ x ∷ s

-- The number behind the sign, or `none` if there is no digit.
unfoldable pub hex_number : List ℕ → Option ℕ
unfolding skip_0x hex_from to_lower
hex_number s = let t = skip_0x s in if starts_with_digit t then some (hex_from 0 t) else none

unfoldable pub skip_space : List ℕ → List ℕ
unfolding is_space
skip_space [] = []
skip_space (c ∷ s) = let rest = skip_space s in if is_space c then rest else c ∷ s

abbrev long_max : ℕ
long_max = 2 ^ 63 - 1

-- The sign, and the result as an `unsigned long`: a negative number is taken modulo 2 ^ 64.
unfoldable pub strtol_signed : List ℕ → Option ℕ
unfolding hex_number
strtol_signed [] = none
strtol_signed (c ∷ s) =
    if c == b'-'
    then elim (hex_number s) [
      | none ↦ none
      | some n ↦ some ((2 ^ 64 - min n (long_max + 1)) % 2 ^ 64)
    ]
    else elim (hex_number (if c == b'+' then s else c ∷ s)) [
      | none ↦ none
      | some n ↦ some (min n long_max)
    ]

-- `strtol (s, &end, 16)` cast to `unsigned long`; `none` means that `end == s`.
unfoldable pub strtol_hex : List ℕ → Option ℕ
unfolding skip_space strtol_signed
strtol_hex s = strtol_signed (skip_space s)
