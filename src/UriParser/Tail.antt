-- ===== src/UriParser/Tail.antt =====
-- The third loop of `URIParser::parse` of src/util/URIParser.cc over a path and what follows it.
use myworkflow.Base.{
  ◌^◌, ℕ, ◌+◌, ◌<◌, ◌≡◌, ◌≢◌, subst, ap, ◌∙◌, false, Option, none, some, List, [], ◌∷◌, ◌++◌, ◌==◌,
  arith, length, drop, All, length-drop, length-append,
}
use myworkflow.UriParser.{Part, uri_path, uri_query, uri_fragment}
use myworkflow.UriParser.Scan.{to_int, Scan, starts_at, ends_at, query_loop, path_loop, scan_path}
use myworkflow.UriParser.Print.{print_part, IsOption, Spans, slice, drop_next}
use myworkflow.UriParser.Authority.{opened}

-- Neither byte that the loop looks for.
abbrev pub PathByte : ℕ → Type 0
PathByte c = (c ≢ b'?') × (c ≢ b'#')

not_equal : (a b : ℕ) → a ≢ b → (a == b) ≡ false
not_equal a b h = ground arith

path_loop-plain :
    (xs : List ℕ) (i : ℕ) (rest : List ℕ) (s : Scan)
    → All PathByte xs
    → path_loop i (xs ++ rest) s ≡ path_loop (i + length xs) rest s
unfolding path_loop
path_loop-plain [] i rest s h = ap (λ k. path_loop k rest s) (omega arith)
path_loop-plain (c ∷ xs) i rest s ((h, k), hs) = rw (not_equal c b'?' h) (
    rw (not_equal c b'#' k)
      (path_loop-plain xs (i + 1) rest s hs ∙ ap (λ j. path_loop j rest s) (omega arith)))

query_loop-plain :
    (xs : List ℕ) (i : ℕ) (rest : List ℕ) (s : Scan)
    → All (λ c. c ≢ b'#') xs
    → query_loop i (xs ++ rest) s ≡ query_loop (i + length xs) rest s
unfolding query_loop
query_loop-plain [] i rest s h = ap (λ k. query_loop k rest s) (omega arith)
query_loop-plain (c ∷ xs) i rest s (h, hs) =
    rw (not_equal c b'#' h)
      (query_loop-plain xs (i + 1) rest s hs ∙ ap (λ j. query_loop j rest s) (omega arith))

-- The variables at the end.
abbrev pub closed : Scan → ℕ → ℕ → ℕ → ℕ → ℕ → Part → Scan
closed s m query query' fragment fragment' pre = record s {
  start_idx = record s.start_idx { query = query; fragment = fragment };
  end_idx = record s.end_idx { path = m; query = query'; fragment = fragment' };
  pre_state = pre;
}

-- A part that the string ends with.
slice_end :
    (k : ℕ) (str x : List ℕ)
    → 0 < length x
    → drop k str ≡ x ++ []
    → Spans str k (length str) (some x)
slice_end k str x h d =
    let e : k + length x ≡ length str =
      omega (arith, length-drop k str, ap length d, length-append x []) in
    subst (λ n. Spans str k n (some x)) e (slice k str x [] h d)

-- The end of the last part, behind the loop.
abbrev ends_last : List ℕ → Scan → Scan
ends_last str t = ends_at t.pre_state (length str) t

scan_path-ends :
    (len i : ℕ) (cs : List ℕ) (s : Scan)
    → len < 2 ^ 31
    → scan_path len i cs s
      ≡ (let t = path_loop i cs (record s { pre_state = uri_path }) in ends_at t.pre_state len t)
unfolding scan_path
scan_path-ends len i cs s h =
    let t = path_loop i cs (record s { pre_state = uri_path }) in
    let same : to_int len ≡ len = ground arith in ap (λ n. ends_at t.pre_state n t) same

pub tail_stage :
    (str x : List ℕ) (q f : Option (List ℕ)) (k e a a' b port host' port' : ℕ) (p : Part)
    → length str < 2 ^ 31
    → 0 < length x
    → All PathByte x
    → IsOption (All (λ c. c ≢ b'#')) q
    → IsOption (λ y. Unit {0}) f
    → drop k str ≡ x ++ print_part b'?' q (print_part b'#' f [])
    → (m q₀ q₁ f₀ f₁ : ℕ) × (p' : Part) × (scan_path
          (length str)
          k
          (x ++ print_part b'?' q (print_part b'#' f []))
          (starts_at uri_path k (opened e a a' b port host' port' p))
        ≡ closed (starts_at uri_path k (opened e a a' b port host' port' p)) m q₀ q₁ f₀ f₁ p')
      × Spans str k m (some x)
      × Spans str q₀ q₁ q
      × Spans str f₀ f₁ f
unfolding path_loop query_loop
tail_stage str x none none k e a a' b port host' port' p small some_x v vq vf d =
    let s = starts_at uri_path k (opened e a a' b port host' port' uri_path) in
    let ends = λ (cs : List ℕ).
      scan_path-ends (length str) k cs (starts_at uri_path k (opened e a a' b port host' port' p))
        small in
    (
      length str,
      0,
      0,
      0,
      0,
      uri_path,
      ends (x ++ []) ∙ ap (ends_last str) (path_loop-plain x k [] s v),
      slice_end k str x some_x d,
      omega arith,
      omega arith,
    )
tail_stage str x none (some z) k e a a' b port host' port' p small some_x v vq (some_z, vf) d =
    let s = starts_at uri_path k (opened e a a' b port host' port' uri_path) in
    let ends = λ (cs : List ℕ).
      scan_path-ends (length str) k cs (starts_at uri_path k (opened e a a' b port host' port' p))
        small in
    let j = k + length x in
    let d' = drop_next k str x (b'#' ∷ (z ++ [])) d in
    (
      j,
      0,
      0,
      j + 1,
      length str,
      uri_fragment,
      ends (x ++ (b'#' ∷ (z ++ [])))
          ∙ ap (ends_last str) (path_loop-plain x k (b'#' ∷ (z ++ [])) s v),
      slice k str x (b'#' ∷ (z ++ [])) some_x d,
      omega arith,
      slice_end (j + 1) str z some_z (drop_next j str (b'#' ∷ []) (z ++ []) d'),
    )
tail_stage str x (some y) none k e a a' b port host' port' p small some_x v (some_y, vq) vf d =
    let s = starts_at uri_path k (opened e a a' b port host' port' uri_path) in
    let ends = λ (cs : List ℕ).
      scan_path-ends (length str) k cs (starts_at uri_path k (opened e a a' b port host' port' p))
        small in
    let j = k + length x in
    let t = record (starts_at uri_query (j + 1) (ends_at uri_path j s)) { pre_state = uri_query } in
    let d' = drop_next k str x (b'?' ∷ (y ++ [])) d in
    (
      j,
      j + 1,
      length str,
      0,
      0,
      uri_query,
      ends (x ++ (b'?' ∷ (y ++ [])))
          ∙ ap (ends_last str)
              (path_loop-plain x k (b'?' ∷ (y ++ [])) s v ∙ query_loop-plain y (j + 1) [] t vq),
      slice k str x (b'?' ∷ (y ++ [])) some_x d,
      slice_end (j + 1) str y some_y (drop_next j str (b'?' ∷ []) (y ++ []) d'),
      omega arith,
    )
tail_stage str x (some y) (some z) k e a a' b port host' port' p small some_x v (some_y, vq)
      (some_z, vf) d =
    let s = starts_at uri_path k (opened e a a' b port host' port' uri_path) in
    let ends = λ (cs : List ℕ).
      scan_path-ends (length str) k cs (starts_at uri_path k (opened e a a' b port host' port' p))
        small in
    let j = k + length x in
    let i = j + 1 + length y in
    let t = record (starts_at uri_query (j + 1) (ends_at uri_path j s)) { pre_state = uri_query } in
    let rest = b'#' ∷ (z ++ []) in
    let d' = drop_next k str x (b'?' ∷ (y ++ rest)) d in
    let d'' = drop_next j str (b'?' ∷ []) (y ++ rest) d' in
    let d3 = drop_next (j + 1) str y rest d'' in
    (
      j,
      j + 1,
      i,
      i + 1,
      length str,
      uri_fragment,
      ends (x ++ (b'?' ∷ (y ++ rest)))
          ∙ ap (ends_last str)
              (path_loop-plain x k (b'?' ∷ (y ++ rest)) s v ∙ query_loop-plain y (j + 1) rest t vq),
      slice k str x (b'?' ∷ (y ++ rest)) some_x d,
      slice (j + 1) str y rest some_y d'',
      slice_end (i + 1) str z some_z (drop_next i str (b'#' ∷ []) (z ++ []) d3),
    )
