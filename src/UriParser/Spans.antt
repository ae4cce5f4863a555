-- ===== src/UriParser/Spans.antt =====
-- The ranges that URIParser::parse of src/util/URIParser.cc finds in a printed URI.
use myworkflow.Base.{
  ◌^◌, is_alnum, is_digit, is_upper, is_lower, starts_with, ℕ, ◌+◌, ◌<◌, ◌≡◌, refl, ap, ◌∙◌, true,
  false, Option, none, some, List, [], ◌∷◌, ◌++◌, ◌==◌, if◌then◌else◌, arith, length, drop, All,
}
use myworkflow.UriParser.{
  Part, uri_scheme, uri_userinfo, uri_host, uri_path, valid_char, scheme_char, userinfo_char,
}
use myworkflow.UriParser.Scan.{
  scan_path, fresh, ends_at, before_authority, Scan, is_at, starts_at, scheme_loop, authority_loop,
  after_authority, after_scheme, scan,
}
use myworkflow.UriParser.Print.{
  Uri, print_userinfo, print_part, print_path, print_authority, print, IsOption, HostByte, IsUri,
  Spans, slice, drop_next,
}
use myworkflow.UriParser.Authority.{opened, userinfo_stage, host_stage}
use myworkflow.UriParser.Tail.{PathByte, closed, tail_stage}

not_colon : (c : ℕ) → valid_char uri_scheme c ≡ true → (c == b':') ≡ false
unfolding valid_char scheme_char is_alnum is_digit is_upper is_lower
not_colon c h = ground arith

scheme_loop-plain :
    (xs : List ℕ) (i : ℕ) (rest : List ℕ)
    → All (λ c. valid_char uri_scheme c ≡ true) xs
    → scheme_loop i (xs ++ (b':' ∷ rest)) ≡ some (i + length xs, rest)
unfolding scheme_loop
scheme_loop-plain [] i rest h = ap (λ k. some (k, rest)) (omega arith)
scheme_loop-plain (c ∷ xs) i rest (h, hs) =
    rw (not_colon c h)
      (scheme_loop-plain xs (i + 1) rest hs ∙ ap (λ k. some (k, rest)) (omega arith))

-- What the parts of a URI are, by the variables at the end of the loops.
abbrev pub AllSpans : List ℕ → Uri → Scan → Type 0
AllSpans str u s =
    Spans str s.start_idx.scheme s.end_idx.scheme (some u.scheme)
    × Spans str s.start_idx.userinfo s.end_idx.userinfo u.userinfo
    × Spans str s.start_idx.host s.end_idx.host (some u.host)
    × Spans str s.start_idx.port s.end_idx.port u.port
    × Spans str s.start_idx.query s.end_idx.query u.query
    × Spans str s.start_idx.fragment s.end_idx.fragment u.fragment
    × Spans str s.start_idx.path s.end_idx.path (some (b'/' ∷ u.path))

-- A host does not begin with a bracket, and neither does the userinfo before it.
host-plain : (x rest : List ℕ) → 0 < length x → All HostByte x → is_at (x ++ rest) b'[' ≡ false
host-plain [] rest h v = absurd (omega arith)
host-plain (c ∷ x) rest h ((a, b, k), v) = ground arith

userinfo-plain :
    (o : Option (List ℕ)) (rest : List ℕ)
    → IsOption (All (λ c. valid_char uri_userinfo c ≡ true)) o
    → is_at rest b'[' ≡ false
    → is_at (print_userinfo o rest) b'[' ≡ false
unfolding valid_char userinfo_char
userinfo-plain none rest v h = h
userinfo-plain (some []) rest (n, v) h = absurd (omega arith)
userinfo-plain (some (c ∷ x)) rest (n, (v, vs)) h = ground arith

before_authority-plain :
    (i e : ℕ) (cs : List ℕ)
    → is_at cs b'[' ≡ false
    → before_authority i cs (ends_at uri_scheme e fresh) ≡ opened e i 0 i 0 0 0 uri_host
before_authority-plain i e cs h = rw h refl

-- The variables at the end of the loops, from the ranges of the parts.
closed-Spans :
    (u : Uri) (str : List ℕ) (e a b k host' port port' m q q' f f' : ℕ) (p p' : Part) (x : Scan)
    → x ≡ closed (starts_at uri_path k (opened e (e + 3) a b port host' port' p)) m q q' f f' p'
    → Spans str 0 e (some u.scheme)
    → Spans str (e + 3) a u.userinfo
    → Spans str b host' (some u.host)
    → Spans str port port' u.port
    → Spans str q q' u.query
    → Spans str f f' u.fragment
    → Spans str k m (some (b'/' ∷ u.path))
    → (s : Scan) × (x ≡ s) × AllSpans str u s
closed-Spans u str e a b k host' port port' m q q' f f' p p' x read s₁ s₂ s₃ s₄ s₅ s₆ s₇ = (
  closed (starts_at uri_path k (opened e (e + 3) a b port host' port' p)) m q q' f f' p',
  read,
  (s₁, s₂, s₃, s₄, s₅, s₆, s₇),
)

cons_some : (c : ℕ) (x : List ℕ) → 0 < length (c ∷ x)
cons_some c x = omega arith

slash_plain : (x : List ℕ) → All PathByte x → All PathByte (b'/' ∷ x)
slash_plain x h = (((λ k. cc), (λ k. cc)), h)

path-Spans :
    (u : Uri) (str : List ℕ) (e a b k host' port port' : ℕ) (p : Part)
    → length str < 2 ^ 31
    → IsUri u
    → Spans str 0 e (some u.scheme)
    → Spans str (e + 3) a u.userinfo
    → Spans str b host' (some u.host)
    → Spans str port port' u.port
    → drop k str ≡ print_path u
    → (s : Scan) × (scan_path
          (length str)
          k
          (print_path u)
          (starts_at uri_path k (opened e (e + 3) a b port host' port' p))
        ≡ s)
      × AllSpans str u s
path-Spans u str e a b k host' port port' p small v scheme userinfo host port_spans d =
    let t =
      tail_stage str (b'/' ∷ u.path) u.query u.fragment k e (e + 3) a b port host' port' p small
        (cons_some b'/' u.path) (slash_plain u.path v.path_bytes) v.query_bytes v.fragment_bytes
        d in
    closed-Spans u str e a b k host' port port' t.0 t.1 t.2 t.3 t.4 p t.5
      (scan_path (length str) k (print_path u)
        (starts_at uri_path k (opened e (e + 3) a b port host' port' p)))
      t.6 scheme userinfo host port_spans t.8 t.9 t.7

host-Spans :
    (u : Uri) (str : List ℕ) (prev e a b c h : ℕ)
    → length str < 2 ^ 31
    → IsUri u
    → Spans str 0 e (some u.scheme)
    → Spans str (e + 3) a u.userinfo
    → drop b str ≡ u.host ++ print_part b':' u.port (print_path u)
    → (s : Scan) × (after_authority (length str) (
          authority_loop prev b
            (u.host ++ print_part b':' u.port (print_path u))
            (opened e (e + 3) a b c h 0 uri_host))
        ≡ s)
      × AllSpans str u s
host-Spans u str prev e a b c h small v scheme userinfo d =
    let tail = print_part b'?' u.query (print_part b'#' u.fragment []) in
    let (k, host', port, port', p, read, host, port_spans, d') =
      host_stage str u.host u.port prev b e (e + 3) a c h (length str) (u.path ++ tail) v.host_some
        v.host_bytes v.port_bytes d in
    let (s, read', spans) =
      path-Spans u str e a b k host' port port' p small v scheme userinfo host port_spans d' in
    (s, read ∙ read', spans)

authority-Spans :
    (u : Uri) (str : List ℕ) (e : ℕ)
    → length str < 2 ^ 31
    → IsUri u
    → drop (e + 3) str ≡ print_authority u
    → Spans str 0 e (some u.scheme)
    → (s : Scan) × (after_authority (length str) (
          authority_loop b'/'
            (e + 3)
            (print_authority u)
            (before_authority (e + 3) (print_authority u) (ends_at uri_scheme e fresh)))
        ≡ s)
      × AllSpans str u s
authority-Spans u str e small v d scheme =
    let rest = u.host ++ print_part b':' u.port (print_path u) in
    let plain_host =
      host-plain u.host (print_part b':' u.port (print_path u)) v.host_some v.host_bytes in
    let begins =
      before_authority-plain (e + 3) e (print_authority u)
        (userinfo-plain u.userinfo rest v.userinfo_bytes plain_host) in
    let (prev, a, b, c, h, read, userinfo, d') =
      userinfo_stage str u.userinfo (e + 3) e rest v.userinfo_bytes plain_host d in
    let (s, read', spans) = host-Spans u str prev e a b c h small v scheme userinfo d' in
    let end : ℕ × List ℕ × Scan → Scan = after_authority (length str) in
    (
      s,
      ap (λ z. end (authority_loop b'/' (e + 3) (print_authority u) z)) begins
          ∙ ap end read
          ∙ read',
      spans,
    )

after_scheme-slashes :
    (n e : ℕ) (cs : List ℕ)
    → after_scheme n e (b'/' ∷ b'/' ∷ cs)
      ≡ after_authority n (
          authority_loop b'/' (e + 3) cs (before_authority (e + 3) cs (ends_at uri_scheme e fresh)))
unfolding after_scheme starts_with
after_scheme-slashes n e cs = refl

not_zero : (n : ℕ) → 0 < n → (n == 0) ≡ false
not_zero n h = ground arith

pub scan-print :
    (u : Uri)
    → length (print u) < 2 ^ 31
    → IsUri u
    → (s : Scan) × (scan (print u) ≡ some s) × AllSpans (print u) u s
unfolding scan print
scan-print u small v =
    let e = 0 + length u.scheme in
    let rest = b'/' ∷ b'/' ∷ print_authority u in
    let str = u.scheme ++ (b':' ∷ rest) in
    let d = drop_next 0 str u.scheme (b':' ∷ rest) refl in
    let d' = drop_next e str (b':' ∷ b'/' ∷ b'/' ∷ []) (print_authority u) d in
    let (s, read, spans) =
      authority-Spans u str e small v d' (slice 0 str u.scheme (b':' ∷ rest) v.scheme_some refl) in
    let n = length str in
    let pick : Option (ℕ × List ℕ) → Option Scan = λ o. elim o [
      | none ↦ none
      | some (x, cs) ↦ if x == 0 then none else some (after_scheme n x cs)
    ] in
    let some_read : (e == 0) ≡ false = not_zero e (omega (arith, v.scheme_some)) in
    (
      s,
      ap pick (scheme_loop-plain u.scheme 0 rest v.scheme_bytes)
          ∙ ap (λ b. if b then none else some (after_scheme n e rest)) some_read
          ∙ ap some (after_scheme-slashes n e (print_authority u) ∙ read),
      spans,
    )
