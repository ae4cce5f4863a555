-- ===== src/UriParser/Print.antt =====
-- How the URIs that `URIParser::parse` of src/util/URIParser.cc reads are written, by its comment
-- scheme://[userinfo@]host[:port][/path][?query][#fragment].
use myworkflow.Base.{
  ℕ, zero, suc, ◌+◌, ◌-◌, ◌≤◌, ◌<◌, ◌≡◌, ◌≢◌, refl, sym, ap, ap₂, ◌∙◌, true, Option, none, some,
  List, [], ◌∷◌, ◌++◌, arith, length, take, drop, All, take-append, take-length,
}
use myworkflow.UriParser.{uri_scheme, uri_userinfo, uri_host, uri_port, valid_char}

-- A URI with a host and a path, which begins behind its '/'.
pub record Uri : Type 0 where
  pub scheme : List ℕ
  pub userinfo : Option (List ℕ)
  pub host : List ℕ
  pub port : Option (List ℕ)
  pub path : List ℕ
  pub query : Option (List ℕ)
  pub fragment : Option (List ℕ)

abbrev pub print_userinfo : Option (List ℕ) → List ℕ → List ℕ
print_userinfo none rest = rest
print_userinfo (some x) rest = x ++ (b'@' ∷ rest)

-- A part behind the byte that begins it.
abbrev pub print_part : ℕ → Option (List ℕ) → List ℕ → List ℕ
print_part c none rest = rest
print_part c (some x) rest = c ∷ (x ++ rest)

abbrev pub print_path : Uri → List ℕ
print_path u = b'/' ∷ (u.path ++ print_part b'?' u.query (print_part b'#' u.fragment []))

abbrev pub print_authority : Uri → List ℕ
print_authority u = print_userinfo u.userinfo (u.host ++ print_part b':' u.port (print_path u))

unfoldable pub print : Uri → List ℕ
print u = u.scheme ++ (b':' ∷ b'/' ∷ b'/' ∷ print_authority u)

abbrev pub IsOption : (List ℕ → Type 0) → Option (List ℕ) → Type 0
IsOption P none = Unit {0}
IsOption P (some x) = (0 < length x) × P x

abbrev pub HostByte : ℕ → Type 0
HostByte c = (valid_char uri_host c ≡ true) × (c ≢ b':') × (c ≢ b'[')

-- The bytes of each part are valid, and a part that is there is not empty. The host is no IPv6 address.
pub record IsUri (u : Uri) : Type 0 where
  pub scheme_some : 0 < length u.scheme
  pub scheme_bytes : All (λ c. valid_char uri_scheme c ≡ true) u.scheme
  pub userinfo_bytes : IsOption (All (λ c. valid_char uri_userinfo c ≡ true)) u.userinfo
  pub host_some : 0 < length u.host
  pub host_bytes : All HostByte u.host
  pub port_bytes : IsOption (All (λ c. valid_char uri_port c ≡ true)) u.port
  pub path_bytes : All (λ c. (c ≢ b'?') × (c ≢ b'#')) u.path
  pub query_bytes : IsOption (All (λ c. c ≢ b'#')) u.query
  pub fragment_bytes : IsOption (λ x. Unit {0}) u.fragment

-- The bytes from `b` to `e` are the part, which is missing where they are none.
abbrev pub Spans : List ℕ → ℕ → ℕ → Option (List ℕ) → Type 0
Spans str b e none = e ≤ b
Spans str b e (some x) = (b < e) × (take (e - b) (drop b str) ≡ x)

drop_nil : (n : ℕ) → drop {A = ℕ} n [] ≡ []
drop_nil zero = refl
drop_nil (suc n) = refl

drop_add : (i n : ℕ) (xs : List ℕ) → drop (i + n) xs ≡ drop n (drop i xs)
drop_add zero n xs = ap (λ k. drop k xs) (omega arith)
drop_add (suc i) n [] = drop_nil (suc i + n) ∙ sym (drop_nil n)
drop_add (suc i) n (x ∷ xs) =
    let e : suc i + n ≡ suc (i + n) = omega arith in ap (λ k. drop k (x ∷ xs)) e ∙ drop_add i n xs

drop-length : (xs rest : List ℕ) → drop (length xs) (xs ++ rest) ≡ rest
drop-length [] rest = refl
drop-length (x ∷ xs) rest = drop-length xs rest

-- What stands behind a piece of the string.
pub drop_next :
    (i : ℕ) (str xs rest : List ℕ) → drop i str ≡ xs ++ rest → drop (i + length xs) str ≡ rest
drop_next i str xs rest h =
    drop_add i (length xs) str ∙ ap (drop (length xs)) h ∙ drop-length xs rest

pub slice :
    (b : ℕ) (str x rest : List ℕ)
    → 0 < length x
    → drop b str ≡ x ++ rest
    → Spans str b (b + length x) (some x)
slice b str x rest h d = (
  omega (arith, h),
  ap₂ take (omega arith) d ∙ take-append (length x) x rest (omega arith) ∙ take-length x,
)
