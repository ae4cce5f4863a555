-- ===== src/StringUtil/RoundTrip.antt =====
-- Decoding after encoding, for the two encoders of src/util/StringUtil.cc.
use myworkflow.Base.{
  is_xdigit, ℕ, zero, suc, ◌/◌, ◌%◌, ◌≤◌, ◌<◌, ◌≡◌, ◌≢◌, refl, Bool, true, not, ◌&&◌, ◌||◌, List,
  [], ◌∷◌, ◌++◌, arith, ◌==◌, if◌then◌else◌, length, All, IsByte, every_byte, every_byte-at,
}
use myworkflow.StringUtil.Codec.{
  htoi, itoh, is_escape, decode_byte, url_decode_from, url_decode, is_unreserved, is_delimiter,
  percent, url_encode, url_encode_component,
}

-- A byte that stands for itself on both sides.
abbrev kept : ℕ → Bool
kept c = not (is_unreserved c || is_delimiter c) || not (c == 0 || c == b'%' || c == b'+')

kept_table : every_byte kept ≡ true
unfolding every_byte is_unreserved is_delimiter
kept_table = refl

abbrev escaped : ℕ → Bool
escaped c =
    is_xdigit (itoh (c / 16))
    && is_xdigit (itoh (c % 16))
    && htoi (itoh (c / 16)) (itoh (c % 16)) % 256 == c

escaped_table : every_byte escaped ≡ true
unfolding every_byte is_xdigit itoh htoi
escaped_table = refl

decode_plain :
    (c : ℕ) (t : List ℕ)
    → c ≢ 0
    → c ≢ b'%'
    → c ≢ b'+'
    → url_decode_from 0 (c ∷ t) ≡ c ∷ url_decode_from 0 t
unfolding url_decode_from decode_byte is_escape
decode_plain c t h₀ h₁ h₂ = ground arith

decode_kept :
    (c : ℕ) (t : List ℕ)
    → c < 256
    → (is_unreserved c || is_delimiter c) ≡ true
    → url_decode_from 0 (c ∷ t) ≡ c ∷ url_decode_from 0 t
decode_kept c t h k = ground (arith, every_byte-at kept c kept_table h, decode_plain c t)

decode_percent :
    (c : ℕ) (t : List ℕ) → c < 256 → url_decode_from 0 (percent c ++ t) ≡ c ∷ url_decode_from 0 t
unfolding url_decode_from decode_byte is_escape percent
decode_percent c t h = ground (arith, every_byte-at escaped c escaped_table h)

decode_space : (t : List ℕ) → url_decode_from 0 (b'+' ∷ t) ≡ 32 ∷ url_decode_from 0 t
unfolding url_decode_from decode_byte is_escape
decode_space t = refl

whole : (s t : List ℕ) → url_decode_from 0 t ≡ s → url_decode t ≡ s
unfolding url_decode url_decode_from
whole s [] h = h
whole s (c ∷ t) h = h

decode-url_encode : (s : List ℕ) → All IsByte s → url_decode_from 0 (url_encode s) ≡ s
unfolding url_encode
decode-url_encode [] h = unfold url_decode_from in refl
decode-url_encode (c ∷ s) h = ground (
  arith,
  decode-url_encode s h.1,
  decode_space (url_encode s),
  decode_kept c (url_encode s) h.0,
  decode_percent c (url_encode s) h.0,
)

decode-url_encode_component :
    (s : List ℕ) → All IsByte s → url_decode_from 0 (url_encode_component s) ≡ s
unfolding url_encode_component
decode-url_encode_component [] h = unfold url_decode_from in refl
decode-url_encode_component (c ∷ s) h = ground (
  arith,
  decode-url_encode_component s h.1,
  decode_space (url_encode_component s),
  decode_kept c (url_encode_component s) h.0,
  decode_percent c (url_encode_component s) h.0,
)

-- `url_decode` undoes `url_encode` on every byte string, NUL bytes included.
pub url_decode-url_encode : (s : List ℕ) → All IsByte s → url_decode (url_encode s) ≡ s
url_decode-url_encode s h = whole s (url_encode s) (decode-url_encode s h)

-- `url_decode` undoes `url_encode_component` on every byte string, NUL bytes included.
pub url_decode-url_encode_component :
    (s : List ℕ) → All IsByte s → url_decode (url_encode_component s) ≡ s
url_decode-url_encode_component s h =
    whole s (url_encode_component s) (decode-url_encode_component s h)

-- A byte that `url_encode_component` may emit.
abbrev pub safe : ℕ → Bool
safe c = is_unreserved c || c == b'%' || c == b'+'

abbrev safe_percent : ℕ → Bool
safe_percent c = safe (itoh (c / 16)) && safe (itoh (c % 16))

safe_table : every_byte safe_percent ≡ true
unfolding every_byte is_unreserved itoh
safe_table = refl

-- The output of `url_encode_component` consists of unreserved bytes, `%` and `+` only: no
-- delimiter of a URL is left in it.
pub url_encode_component-safe :
    (s : List ℕ) → All IsByte s → All (λ c. safe c ≡ true) (url_encode_component s)
unfolding url_encode_component percent
url_encode_component-safe [] h = tt
url_encode_component-safe (c ∷ s) h =
    ground (arith, url_encode_component-safe s h.1, every_byte-at safe_percent c safe_table h.0)

length-url_decode_from : (k : ℕ) (s : List ℕ) → length (url_decode_from k s) ≤ length s
unfolding url_decode_from
length-url_decode_from k [] = omega arith
length-url_decode_from (suc k) (c ∷ s) = omega (arith, length-url_decode_from k s)
length-url_decode_from zero (c ∷ s) =
    ground (arith, length-url_decode_from (if is_escape c s then 2 else 0) s)

-- Decoding in place never writes past the string that it reads.
pub length-url_decode : (s : List ℕ) → length (url_decode s) ≤ length s
unfolding url_decode
length-url_decode [] = omega arith
length-url_decode (c ∷ s) = length-url_decode_from 0 (c ∷ s)
