-- ===== src/StringUtil/Codec.antt =====
-- The URL codec of src/util/StringUtil.cc: `__htoi`, `__itoh`, `__url_decode`, `url_decode`,
-- `url_encode` and `url_encode_component`. The <ctype.h> tests are those of the C locale.
use myworkflow.Base.{
  is_digit, is_alnum, is_xdigit, to_lower, ℕ, zero, suc, ◌+◌, ◌-◌, ◌*◌, ◌/◌, ◌%◌, Bool, ◌&&◌, ◌||◌,
  List, [], ◌∷◌, ◌++◌, ltb, ◌==◌, if◌then◌else◌, get_or,
}

-- One digit of `__htoi`. It is called on hexadecimal digits only.
pub hex_value : ℕ → ℕ
unfolding is_digit to_lower
hex_value c = let d = to_lower c in if is_digit d then d - b'0' else d - b'a' + 10

-- `__htoi`: the `int` is assigned to a `char`, so that only its low byte is kept.
unfoldable pub htoi : ℕ → ℕ → ℕ
unfolding hex_value
htoi a b = hex_value a * 16 + hex_value b

unfoldable pub itoh : ℕ → ℕ
itoh n = if ltb 9 n then n - 10 + b'A' else n + b'0'

-- A `%` with two hexadecimal digits behind it. Past the end stands the terminating NUL.
unfoldable pub is_escape : ℕ → List ℕ → Bool
unfolding is_xdigit
is_escape c xs = c == b'%' && is_xdigit (get_or xs 0 0) && is_xdigit (get_or xs 1 0)

-- The byte that one round of `__url_decode` writes.
unfoldable pub decode_byte : ℕ → List ℕ → ℕ
unfolding is_escape htoi
decode_byte c xs =
    if is_escape c xs
    then htoi (get_or xs 0 0) (get_or xs 1 0) % 256
    else if c == b'+'
    then 32
    else c

-- The loop of `__url_decode` at `data + skip`: it returns the bytes that it writes at `dest`.
unfoldable pub url_decode_from : ℕ → List ℕ → List ℕ
unfolding decode_byte
url_decode_from skip [] = []
url_decode_from (suc skip) (c ∷ xs) = url_decode_from skip xs
url_decode_from zero (c ∷ xs) =
    let rest = url_decode_from (if is_escape c xs then 2 else 0) xs in
    if c == 0 then [] else decode_byte c xs ∷ rest

unfoldable pub url_decode : List ℕ → List ℕ
unfolding url_decode_from
url_decode [] = []
url_decode (c ∷ xs) = url_decode_from 0 (c ∷ xs)

unfoldable pub is_unreserved : ℕ → Bool
unfolding is_alnum
is_unreserved c =
    is_alnum c
    || c == b'-'
    || c == b'_'
    || c == b'.'
    || c == b'!'
    || c == b'~'
    || c == b'*'
    || c == b'\''
    || c == b'('
    || c == b')'

-- What `url_encode` leaves as it is, and `url_encode_component` does not.
unfoldable pub is_delimiter : ℕ → Bool
is_delimiter c = c == b':' || c == b'/' || c == b'@' || c == b'?' || c == b'#' || c == b'&'

unfoldable pub percent : ℕ → List ℕ
unfolding itoh
percent c = b'%' ∷ itoh (c / 16) ∷ itoh (c % 16) ∷ []

unfoldable pub url_encode : List ℕ → List ℕ
unfolding is_unreserved is_delimiter percent
url_encode [] = []
url_encode (c ∷ xs) =
    (if c == 32 then b'+' ∷ [] else if is_unreserved c || is_delimiter c then c ∷ [] else percent c)
    ++ url_encode xs

unfoldable pub url_encode_component : List ℕ → List ℕ
unfolding is_unreserved percent
url_encode_component [] = []
url_encode_component (c ∷ xs) =
    (if c == 32 then b'+' ∷ [] else if is_unreserved c then c ∷ [] else percent c)
    ++ url_encode_component xs
