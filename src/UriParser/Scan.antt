-- ===== src/UriParser/Scan.antt =====
-- The loops of `URIParser::parse` of src/util/URIParser.cc, which find where each part begins and ends.
use myworkflow.Base.{
  ℕ, ◌+◌, Bool, true, false, not, ◌&&◌, ◌||◌, Option, none, some, List, [], ◌∷◌, ◌==◌,
  if◌then◌else◌, length, drop, starts_with, All, ◌<◌, ◌%◌, ◌^◌, ltb,
}
use myworkflow.UriParser.{
  Part, uri_scheme, uri_userinfo, uri_host, uri_port, uri_query, uri_fragment, uri_path,
  uri_part_elements, Parts, put_at, fill, authority_map,
}

-- A string of C, of which an `int` can hold every index.
abbrev pub IsString : List ℕ → Type 0
IsString str = All (λ c. 0 < c) str × (length str < 2 ^ 31)

-- The `int` that a `size_t` is stored in. A negative one is behind no begin, as 0 is, and counts as 0.
abbrev pub to_int : ℕ → ℕ
to_int n = let bits = n % 2 ^ 32 in if ltb bits (2 ^ 31) then bits else 0

-- The local variables but `i`, which does not leave the `int`s where the string `IsString`.
pub record Scan : Type 0 where
  pub start_idx : Parts ℕ
  pub end_idx : Parts ℕ
  pub pre_state : Part
  pub in_ipv6 : Bool
  pub skip_path : Bool

abbrev pub starts_at : Part → ℕ → Scan → Scan
starts_at p i s = record s { start_idx = put_at p i s.start_idx }

abbrev pub ends_at : Part → ℕ → Scan → Scan
ends_at p i s = record s { end_idx = put_at p i s.end_idx }

-- The first loop: the index of the first ':' and what is behind it.
unfoldable pub scheme_loop : ℕ → List ℕ → Option (ℕ × List ℕ)
scheme_loop i [] = none
scheme_loop i (c ∷ cs) =
    let rest = scheme_loop (i + 1) cs in if c == b':' then some (i, cs) else rest

-- A round of the second loop goes on, or leaves it.
pub data Round : Type 0 where
  next : Scan → Round
  break : Scan → Round

-- `str[i] == c`, where `cs` is what stands at `i`.
abbrev pub is_at : List ℕ → ℕ → Bool
is_at [] c = false
is_at (d ∷ cs) c = d == c

-- The round at the index `i`, between the byte `prev` and the bytes `cs`. `left` is `strlen (str + i)`.
unfoldable pub authority_round : Option Part → ℕ → ℕ → ℕ → List ℕ → Scan → Round
authority_round none left prev i cs s = next s
authority_round (some uri_userinfo) left prev i cs s =
    let t = starts_at uri_host (i + 1) (ends_at uri_userinfo i s) in
    next (record t { in_ipv6 = is_at cs b'[' || s.in_ipv6; pre_state = uri_host })
authority_round (some uri_host) left prev i cs s =
    let inside = s.in_ipv6 && not (prev == b']') in
    if inside
    then next (record s { in_ipv6 = inside })
    else (let t = starts_at uri_port (i + 1) (ends_at uri_host i s) in
        next (record t { in_ipv6 = inside; pre_state = uri_port }))
authority_round (some uri_query) left prev i cs s =
    let t = starts_at uri_query (i + 1) (ends_at s.pre_state i s) in
    next (record t { pre_state = uri_query; skip_path = true })
authority_round (some uri_fragment) left prev i cs s =
    let t =
      ends_at uri_fragment (to_int (i + left))
        (starts_at uri_fragment (i + 1) (ends_at s.pre_state i s)) in
    break (record t { pre_state = uri_part_elements; skip_path = true })
authority_round (some uri_path) left prev i cs s =
    if s.skip_path then next s else break (starts_at uri_path i s)
authority_round (some _) left prev i cs s = next s

-- The second loop: where it stops, what stands there, and the variables.
unfoldable pub authority_loop : ℕ → ℕ → List ℕ → Scan → ℕ × List ℕ × Scan
unfolding authority_map authority_round
authority_loop prev i [] s = (i, [], record s { skip_path = true })
authority_loop prev i (c ∷ cs) s =
    elim (authority_round (authority_map c) (length (c ∷ cs)) prev i cs s) [
      | next t ↦ authority_loop c (i + 1) cs t
      | break t ↦ (i, c ∷ cs, t)
    ]

-- `if (str[i] == '#')` of the third loop.
abbrev pub at_hash : ℕ → Scan → Scan
at_hash i s =
    let t = starts_at uri_fragment (i + 1) (ends_at s.pre_state i s) in
    record t { pre_state = uri_fragment }

-- The inner loop behind a '?'. Where it finds no '#' the outer one ends with it.
unfoldable pub query_loop : ℕ → List ℕ → Scan → Scan
query_loop i [] s = s
query_loop i (c ∷ cs) s =
    let rest = query_loop (i + 1) cs s in if c == b'#' then at_hash i s else rest

-- The third loop.
unfoldable pub path_loop : ℕ → List ℕ → Scan → Scan
unfolding query_loop
path_loop i [] s = s
path_loop i (c ∷ cs) s =
    let rest = path_loop (i + 1) cs s in
    let t = starts_at uri_query (i + 1) (ends_at uri_path i s) in
    if c == b'?'
    then query_loop (i + 1) cs (record t { pre_state = uri_query })
    else if c == b'#'
    then at_hash i s
    else rest

-- `if (!skip_path)`: `len` is the length of the string.
unfoldable pub scan_path : ℕ → ℕ → List ℕ → Scan → Scan
unfolding path_loop
scan_path len i cs s =
    let t = path_loop i cs (record s { pre_state = uri_path }) in ends_at t.pre_state (to_int len) t

-- What follows the second loop.
unfoldable pub after_authority : ℕ → ℕ × List ℕ × Scan → Scan
unfolding scan_path
after_authority len (i, cs, s) =
    let t = ends_at s.pre_state i s in if t.skip_path then t else scan_path len i cs t

abbrev pub fresh : Scan
fresh = record {
  start_idx = fill 0;
  end_idx = fill 0;
  pre_state = uri_scheme;
  in_ipv6 = false;
  skip_path = false;
}

-- What follows "//", where `i` is and `cs` stands.
abbrev pub before_authority : ℕ → List ℕ → Scan → Scan
before_authority i cs s =
    let t = if is_at cs b'[' then record s { in_ipv6 = true } else starts_at uri_userinfo i s in
    starts_at uri_host i (record t { pre_state = uri_host })

-- What follows the scheme, which ends at `e`; `cs` stands behind its ':'.
unfoldable pub after_scheme : ℕ → ℕ → List ℕ → Scan
unfolding authority_loop after_authority starts_with
after_scheme len e cs =
    let s = ends_at uri_scheme e fresh in
    if starts_with cs (b'/' ∷ b'/' ∷ [])
    then (let rest = drop 2 cs in
        after_authority len (authority_loop b'/' (e + 3) rest (before_authority (e + 3) rest s)))
    else after_authority len
        (e + 1, cs, starts_at uri_path (e + 1) (record s { pre_state = uri_path }))

-- The ranges of the parts, or `none` where there is no scheme.
unfoldable pub scan : List ℕ → Option Scan
unfolding scheme_loop after_scheme
scan str = elim (scheme_loop 0 str) [
  | none ↦ none
  | some (e, cs) ↦ if e == 0 then none else some (after_scheme (length str) e cs)
]
