-- ===== src/UriParser/Bounds.antt =====
-- The indices of `URIParser::parse` of src/util/URIParser.cc stay inside the string.
use myworkflow.Base.{
  ℕ, suc, ◌+◌, ◌≤◌, ◌<◌, ◌≡◌, ap, ap₂, subst, ==_iff, inl, inr, true, not, ◌&&◌, ◌≢◌, ◌++◌, All,
  length-append, Option, none, some, List, [], ◌∷◌, ◌==◌, if◌then◌else◌, arith, length, drop,
  starts_with, Bool-cases, both_branches, Option-cases,
}
use myworkflow.UriParser.{
  Part, uri_scheme, uri_userinfo, uri_host, uri_port, uri_query, uri_fragment, uri_path,
  uri_part_elements, Parts, put_at, authority_map,
}
use myworkflow.UriParser.Scan.{
  IsString, to_int, Scan, starts_at, ends_at, scheme_loop, Round, next, break, authority_round,
  authority_loop, at_hash, query_loop, path_loop, scan_path, after_authority, fresh,
  before_authority, is_at, after_scheme, scan,
}

abbrev pub Below : ℕ → Parts ℕ → Type 0
Below n a =
    (a.scheme ≤ n)
    × (a.userinfo ≤ n)
    × (a.host ≤ n)
    × (a.port ≤ n)
    × (a.query ≤ n)
    × (a.fragment ≤ n)
    × (a.path ≤ n)

-- Every part begins and ends within `n` bytes.
abbrev pub Within : ℕ → Scan → Type 0
Within n s = Below n s.start_idx × Below n s.end_idx

put_at-Below : (p : Part) (v n : ℕ) (a : Parts ℕ) → v ≤ n → Below n a → Below n (put_at p v a)
put_at-Below uri_scheme v n a h b = omega arith
put_at-Below uri_userinfo v n a h b = omega arith
put_at-Below uri_host v n a h b = omega arith
put_at-Below uri_port v n a h b = omega arith
put_at-Below uri_query v n a h b = omega arith
put_at-Below uri_fragment v n a h b = omega arith
put_at-Below uri_path v n a h b = omega arith
put_at-Below uri_part_elements v n a h b = b

starts_at-Within : (p : Part) (i n : ℕ) (s : Scan) → i ≤ n → Within n s → Within n (starts_at p i s)
starts_at-Within p i n s h (b, e) = (put_at-Below p i n s.start_idx h b, e)

ends_at-Within : (p : Part) (i n : ℕ) (s : Scan) → i ≤ n → Within n s → Within n (ends_at p i s)
ends_at-Within p i n s h (b, e) = (b, put_at-Below p i n s.end_idx h e)

-- The end of one part and the begin of the next.
turn-Within :
    (p q : Part) (i j n : ℕ) (s : Scan)
    → i ≤ n
    → j ≤ n
    → Within n s
    → Within n (starts_at q j (ends_at p i s))
turn-Within p q i j n s h k w =
    starts_at-Within q j n (ends_at p i s) k (ends_at-Within p i n s h w)

to_int-le : (n : ℕ) → to_int n ≤ n
to_int-le n = ground arith

abbrev RoundWithin : ℕ → Round → Type 0
RoundWithin n (next t) = Within n t
RoundWithin n (break t) = Within n t

authority_round-Within :
    (o : Option Part) (left prev i n : ℕ) (cs : List ℕ) (s : Scan)
    → i < n
    → i + left ≤ n
    → Within n s
    → RoundWithin n (authority_round o left prev i cs s)
unfolding authority_round
authority_round-Within none left prev i n cs s h k w = w
authority_round-Within (some uri_userinfo) left prev i n cs s h k w =
    turn-Within uri_userinfo uri_host i (i + 1) n s (omega arith) (omega arith) w
authority_round-Within (some uri_host) left prev i n cs s h k w =
    let inside = s.in_ipv6 && not (prev == b']') in
    let t = starts_at uri_port (i + 1) (ends_at uri_host i s) in
    both_branches (RoundWithin n) inside (next (record s { in_ipv6 = inside }))
      (next (record t { in_ipv6 = inside; pre_state = uri_port })) w
      (turn-Within uri_host uri_port i (i + 1) n s (omega arith) (omega arith) w)
authority_round-Within (some uri_query) left prev i n cs s h k w =
    turn-Within s.pre_state uri_query i (i + 1) n s (omega arith) (omega arith) w
authority_round-Within (some uri_fragment) left prev i n cs s h k w =
    ends_at-Within uri_fragment (to_int (i + left)) n
      (starts_at uri_fragment (i + 1) (ends_at s.pre_state i s))
      (omega (arith, to_int-le (i + left), k))
      (turn-Within s.pre_state uri_fragment i (i + 1) n s (omega arith) (omega arith) w)
authority_round-Within (some uri_path) left prev i n cs s h k w =
    both_branches (RoundWithin n) s.skip_path (next s) (break (starts_at uri_path i s)) w
      (starts_at-Within uri_path i n s (omega arith) w)
authority_round-Within (some uri_scheme) left prev i n cs s h k w = w
authority_round-Within (some uri_port) left prev i n cs s h k w = w
authority_round-Within (some uri_part_elements) left prev i n cs s h k w = w

abbrev StopWithin : ℕ → ℕ × List ℕ × Scan → Type 0
StopWithin n (i, cs, s) = (i + length cs ≡ n) × Within n s

-- A round and what follows it, which is the loop `go`.
round-Within :
    (go : Scan → ℕ × List ℕ × Scan) (i n c : ℕ) (cs : List ℕ) (r : Round)
    → ((t : Scan) → Within n t → StopWithin n (go t))
    → i + suc (length cs) ≡ n
    → RoundWithin n r
    → StopWithin n (elim r [ next t ↦ go t | break t ↦ (i, c ∷ cs, t) ])
round-Within go i n c cs (next t) k h w = k t w
round-Within go i n c cs (break t) k h w = (h, w)

authority_loop-Within :
    (prev i n : ℕ) (cs : List ℕ) (s : Scan)
    → i + length cs ≡ n
    → Within n s
    → StopWithin n (authority_loop prev i cs s)
unfolding authority_loop
authority_loop-Within prev i n [] s h w = (h, w)
authority_loop-Within prev i n (c ∷ cs) s h w =
    round-Within (authority_loop c (i + 1) cs) i n c cs
      (authority_round (authority_map c) (length (c ∷ cs)) prev i cs s)
      (λ t v. authority_loop-Within c (i + 1) n cs t (omega arith) v) h
      (authority_round-Within (authority_map c) (length (c ∷ cs)) prev i n cs s (omega arith)
        (omega arith) w)

at_hash-Within : (i n : ℕ) (s : Scan) → i < n → Within n s → Within n (at_hash i s)
at_hash-Within i n s h w =
    turn-Within s.pre_state uri_fragment i (i + 1) n s (omega arith) (omega arith) w

query_loop-Within :
    (i n : ℕ) (cs : List ℕ) (s : Scan)
    → i + length cs ≤ n
    → Within n s
    → Within n (query_loop i cs s)
unfolding query_loop
query_loop-Within i n [] s h w = w
query_loop-Within i n (c ∷ cs) s h w =
    both_branches (Within n) (c == b'#') (at_hash i s) (query_loop (i + 1) cs s)
      (at_hash-Within i n s (omega arith) w) (query_loop-Within (i + 1) n cs s (omega arith) w)

path_loop-Within :
    (i n : ℕ) (cs : List ℕ) (s : Scan)
    → i + length cs ≤ n
    → Within n s
    → Within n (path_loop i cs s)
unfolding path_loop
path_loop-Within i n [] s h w = w
path_loop-Within i n (c ∷ cs) s h w =
    let t = starts_at uri_query (i + 1) (ends_at uri_path i s) in
    let rest = if c == b'#' then at_hash i s else path_loop (i + 1) cs s in
    both_branches (Within n) (c == b'?')
      (query_loop (i + 1) cs (record t { pre_state = uri_query })) rest
      (query_loop-Within (i + 1) n cs (record t { pre_state = uri_query }) (omega arith)
        (turn-Within uri_path uri_query i (i + 1) n s (omega arith) (omega arith) w))
      (both_branches (Within n) (c == b'#') (at_hash i s) (path_loop (i + 1) cs s)
        (at_hash-Within i n s (omega arith) w) (path_loop-Within (i + 1) n cs s (omega arith) w))

after_authority-Within :
    (n : ℕ) (r : ℕ × List ℕ × Scan) → StopWithin n r → Within n (after_authority n r)
unfolding after_authority scan_path
after_authority-Within n (i, cs, s) (h, w) =
    let t = ends_at s.pre_state i s in
    let v = ends_at-Within s.pre_state i n s (omega arith) w in
    let u = path_loop i cs (record t { pre_state = uri_path }) in
    both_branches (Within n) t.skip_path t (ends_at u.pre_state (to_int n) u) v (
      ends_at-Within u.pre_state (to_int n) n u (to_int-le n)
        (path_loop-Within i n cs (record t { pre_state = uri_path }) (omega arith) v))

before_authority-Within :
    (i n : ℕ) (cs : List ℕ) (s : Scan) → i ≤ n → Within n s → Within n (before_authority i cs s)
before_authority-Within i n cs s h w =
    let t = if is_at cs b'[' then record s { in_ipv6 = true } else starts_at uri_userinfo i s in
    starts_at-Within uri_host i n (record t { pre_state = uri_host }) h
      (both_branches (Within n) (is_at cs b'[') (record s { in_ipv6 = true })
        (starts_at uri_userinfo i s) w (starts_at-Within uri_userinfo i n s h w))

-- Two bytes at least, where the string starts with two.
two_bytes :
    (a b : ℕ) (cs : List ℕ)
    → starts_with cs (a ∷ b ∷ []) ≡ true
    → 2 + length (drop 2 cs) ≡ length cs
unfolding starts_with
two_bytes a b [] h = cc
two_bytes a b (c ∷ []) h = ground arith
two_bytes a b (c ∷ d ∷ cs) h = omega arith

after_scheme-Within :
    (n e : ℕ) (cs : List ℕ) → e + suc (length cs) ≡ n → Within n (after_scheme n e cs)
unfolding after_scheme
after_scheme-Within n e cs h =
    let s = ends_at uri_scheme e fresh in
    let w : Within n s = omega arith in
    elim (Bool-cases (starts_with cs (b'/' ∷ b'/' ∷ []))) [
      | inr other ↦ rw other (
          after_authority-Within n
            (e + 1, cs, starts_at uri_path (e + 1) (record s { pre_state = uri_path }))
            (omega arith, starts_at-Within uri_path (e + 1) n s (omega arith) w))
      | inl same ↦
          let rest = drop 2 cs in
          let two = two_bytes b'/' b'/' cs same in
          let t = before_authority (e + 3) rest s in
          rw same (
            after_authority-Within n (authority_loop b'/' (e + 3) rest t) (
              authority_loop-Within b'/' (e + 3) n rest t (omega (arith, two))
                (before_authority-Within (e + 3) n rest s (omega (arith, two)) w)))
    ]

scheme_loop-at :
    (i e : ℕ) (str cs : List ℕ)
    → scheme_loop i str ≡ some (e, cs)
    → (pre : List ℕ) × (e ≡ i + length pre) × (str ≡ pre ++ (b':' ∷ cs)) × All (λ c. c ≢ b':') pre
unfolding scheme_loop
scheme_loop-at i e [] cs h = cc
scheme_loop-at i e (c ∷ str) cs h = elim (Bool-cases (c == b':')) [
  | inl same ↦
      let found : some (i, str) ≡ some (e, cs) = rw same at h in
      (
        [],
        (let x : i ≡ e = cc in omega arith),
        (let x : str ≡ cs = cc in ap₂ ◌∷◌ ((==_iff c b':').0 same) x),
        tt,
      )
  | inr other ↦
      let (pre, x, y, z) = scheme_loop-at (i + 1) e str cs (rw other at h) in
      (c ∷ pre, omega (arith, x), ap (c ∷◌) y, (λ k. cc, z))
]

-- In a string that an `int` can index, `parse` finds no range that leaves the string: each part begins
-- and ends within its length.
pub scan-Within :
    (str : List ℕ) (s : Scan) → IsString str → scan str ≡ some s → Within (length str) s
unfolding scan
scan-Within str s small h = elim (Option-cases (scheme_loop 0 str)) [
  | inl missing ↦ let h' = rw (missing, scan) at h in cc
  | inr ((e, cs), found) ↦
      let (pre, x, y, z) = scheme_loop-at 0 e str cs found in
      let n : e + suc (length cs) ≡ length str =
        omega (arith, x, ap length y, length-append pre (b':' ∷ cs)) in
      elim (Bool-cases (e == 0)) [
        | inl none_read ↦ let h' = rw (found, none_read, scan) at h in cc
        | inr some_read ↦
            let h' = rw (found, some_read, scan) at h in
            let same : after_scheme (length str) e cs ≡ s = cc in
            subst (Within (length str)) same (after_scheme-Within (length str) e cs n)
      ]
]
