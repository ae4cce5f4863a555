-- ===== src/UriParser.antt =====
-- src/util/URIParser.cc and URIParser.h: the parts of a URI, and the tables of their bytes. A string is
-- the list of its bytes before the NUL.
pub mod Scan
pub mod Parse
pub mod Bounds
pub mod Print
pub mod Authority
pub mod Tail
pub mod Spans
pub mod RoundTrip
pub mod Outcome
pub mod Query
mod Tests
use myworkflow.Base.{
  ℕ, Bool, true, false, ◌||◌, ◌&&◌, Option, none, some, List, leb, ◌==◌, if◌then◌else◌, is_alnum,
  is_digit,
}

-- The indices of the arrays; `uri_part_elements` is their length.
pub data Part : Type 0 where
  uri_scheme uri_userinfo uri_host uri_port uri_query uri_fragment uri_path uri_part_elements : Part

-- An array with an element for each part.
pub record Parts {ℓ} (A : Type ℓ) : Type ℓ where
  pub scheme : A
  pub userinfo : A
  pub host : A
  pub port : A
  pub query : A
  pub fragment : A
  pub path : A

-- `a[i]`, where no read is behind the end: `d` stands for it.
abbrev pub at {ℓ} : {A : Type ℓ} → A → Part → Parts A → A
at d uri_scheme a = a.scheme
at d uri_userinfo a = a.userinfo
at d uri_host a = a.host
at d uri_port a = a.port
at d uri_query a = a.query
at d uri_fragment a = a.fragment
at d uri_path a = a.path
at d uri_part_elements a = d

-- `a[i] = v`, where no write is behind the end.
abbrev pub put_at {ℓ} : {A : Type ℓ} → Part → A → Parts A → Parts A
put_at uri_scheme v a = record a { scheme = v }
put_at uri_userinfo v a = record a { userinfo = v }
put_at uri_host v a = record a { host = v }
put_at uri_port v a = record a { port = v }
put_at uri_query v a = record a { query = v }
put_at uri_fragment v a = record a { fragment = v }
put_at uri_path v a = record a { path = v }
put_at uri_part_elements v a = a

abbrev pub fill {ℓ} : {A : Type ℓ} → A → Parts A
fill v = record { scheme = v; userinfo = v; host = v; port = v; query = v; fragment = v; path = v }

unfoldable pub scheme_char : ℕ → Bool
unfolding is_alnum
scheme_char c = is_alnum c || c == b'+' || c == b'-' || c == b'.'

unfoldable pub userinfo_char : ℕ → Bool
unfolding is_alnum
userinfo_char c =
    is_alnum c
    || c == b'!'
    || leb b'$' c && leb c b'.'
    || c == b':'
    || c == b';'
    || c == b'='
    || c == b'_'
    || c == b'~'

unfoldable pub host_char : ℕ → Bool
unfolding userinfo_char
host_char c = userinfo_char c || c == b'[' || c == b']'

-- `valid_char`, which has the first four parts: no other is looked up.
unfoldable pub valid_char : Part → ℕ → Bool
unfolding scheme_char userinfo_char host_char is_digit
valid_char uri_scheme c = scheme_char c
valid_char uri_userinfo c = userinfo_char c
valid_char uri_host c = host_char c
valid_char uri_port c = is_digit c
valid_char _ c = true

-- `authority_map` of a byte that is no NUL, with `none` for 0.
unfoldable pub authority_map : ℕ → Option Part
authority_map c =
    if c == b'#'
    then some uri_fragment
    else if c == b'/'
    then some uri_path
    else if c == b':'
    then some uri_host
    else if c == b'?'
    then some uri_query
    else if c == b'@'
    then some uri_userinfo
    else none
