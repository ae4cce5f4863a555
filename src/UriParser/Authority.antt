-- ===== src/UriParser/Authority.antt =====
-- The second loop of `URIParser::parse` of src/util/URIParser.cc over the pieces of an authority.
use myworkflow.Base.{
  ℕ, ◌+◌, ◌<◌, ◌≡◌, ◌≢◌, refl, ap, ◌∙◌, inl, inr, true, false, is_digit, Option, none, some, List,
  [], ◌∷◌, ◌++◌, ◌==◌, arith, ==_iff, length, drop, All, Bool-cases,
}
use myworkflow.UriParser.{
  Part, uri_userinfo, uri_host, uri_port, uri_path, valid_char, userinfo_char, host_char,
  authority_map,
}
use myworkflow.UriParser.Scan.{
  after_authority, scan_path, Scan, Round, next, break, is_at, authority_round, authority_loop,
  starts_at,
}
use myworkflow.UriParser.Print.{
  print_userinfo, print_part, IsOption, HostByte, Spans, slice, drop_next,
}

-- The variables in the authority of a URI whose scheme ends at `e`.
abbrev pub opened : ℕ → ℕ → ℕ → ℕ → ℕ → ℕ → ℕ → Part → Scan
opened e userinfo userinfo' host port host' port' pre = record {
  start_idx = record {
    scheme = 0;
    userinfo = userinfo;
    host = host;
    port = port;
    query = 0;
    fragment = 0;
    path = 0;
  };
  end_idx = record {
    scheme = e;
    userinfo = userinfo';
    host = host';
    port = port';
    query = 0;
    fragment = 0;
    path = 0;
  };
  pre_state = pre;
  in_ipv6 = false;
  skip_path = false;
}

userinfo_char-map : (c : ℕ) → userinfo_char c ≡ true → c ≢ b':' → authority_map c ≡ none
unfolding userinfo_char authority_map
userinfo_char-map c h k = ground arith

host_char-map : (c : ℕ) → HostByte c → authority_map c ≡ none
unfolding valid_char host_char userinfo_char authority_map
host_char-map c (h, k, l) = ground arith

port_char-map : (c : ℕ) → valid_char uri_port c ≡ true → authority_map c ≡ none
unfolding valid_char is_digit authority_map
port_char-map c h = ground arith

-- A round of the loop, by the entry of its byte.
loop-next :
    (o : Option Part) (prev i c : ℕ) (cs : List ℕ) (s t : Scan)
    → authority_map c ≡ o
    → authority_round o (length (c ∷ cs)) prev i cs s ≡ next t
    → authority_loop prev i (c ∷ cs) s ≡ authority_loop c (i + 1) cs t
unfolding authority_loop
loop-next o prev i c cs s t m e =
    let round : Round → ℕ × List ℕ × Scan =
      λ r. elim r [ next u ↦ authority_loop c (i + 1) cs u | break u ↦ (i, c ∷ cs, u) ] in
    ap (λ z. round (authority_round z (length (c ∷ cs)) prev i cs s)) m ∙ ap round e

-- The loop goes on over bytes that begin no part.
loop-plain :
    (xs : List ℕ) (prev i : ℕ) (rest : List ℕ) (s : Scan)
    → All (λ c. authority_map c ≡ none) xs
    → (prev' : ℕ) × (authority_loop prev i (xs ++ rest) s
        ≡ authority_loop prev' (i + length xs) rest s)
unfolding authority_round
loop-plain [] prev i rest s h = (prev, ap (λ k. authority_loop prev k rest s) (omega arith))
loop-plain (c ∷ xs) prev i rest s (h, hs) =
    let (prev', e) = loop-plain xs c (i + 1) rest s hs in
    (
      prev',
      loop-next none prev i c (xs ++ rest) s s h refl
          ∙ e
          ∙ ap (λ k. authority_loop prev' k rest s) (omega arith),
    )

-- A ':' in the userinfo leaves a begin of a port that does not count.
loop-userinfo :
    (xs : List ℕ) (prev i e a b c h : ℕ) (p : Part) (rest : List ℕ)
    → All (λ x. userinfo_char x ≡ true) xs
    → (prev' c' h' : ℕ) × (p' : Part) × (authority_loop prev i (xs ++ rest) (opened e a 0 b c h 0 p)
        ≡ authority_loop prev' (i + length xs) rest (opened e a 0 b c' h' 0 p'))
unfolding authority_round authority_map
loop-userinfo [] prev i e a b c h p rest v =
    (prev, c, h, p, ap (λ k. authority_loop prev k rest (opened e a 0 b c h 0 p)) (omega arith))
loop-userinfo (x ∷ xs) prev i e a b c h p rest (v, vs) = elim (Bool-cases (x == b':')) [
  | inl colon ↦
      let (prev', c', h', p', e') = loop-userinfo xs x (i + 1) e a b (i + 1) i uri_port rest vs in
      let found : authority_map x ≡ some uri_host = ap authority_map ((==_iff x b':').0 colon) in
      (
        prev',
        c',
        h',
        p',
        loop-next (some uri_host) prev i x (xs ++ rest) (opened e a 0 b c h 0 p)
              (opened e a 0 b (i + 1) i 0 uri_port) found refl
            ∙ e'
            ∙ ap (λ k. authority_loop prev' k rest (opened e a 0 b c' h' 0 p')) (omega arith),
      )
  | inr other ↦
      let (prev', c', h', p', e') = loop-userinfo xs x (i + 1) e a b c h p rest vs in
      let found : authority_map x ≡ none = userinfo_char-map x v (λ k. cc) in
      (
        prev',
        c',
        h',
        p',
        loop-next none prev i x (xs ++ rest) (opened e a 0 b c h 0 p) (opened e a 0 b c h 0 p) found
              refl
            ∙ e'
            ∙ ap (λ k. authority_loop prev' k rest (opened e a 0 b c' h' 0 p')) (omega arith),
      )
]

All-map : (P Q : ℕ → Type 0) (xs : List ℕ) → ((c : ℕ) → P c → Q c) → All P xs → All Q xs
All-map P Q [] f h = tt
All-map P Q (c ∷ xs) f (h, hs) = (f c h, All-map P Q xs f hs)

-- The loop before the host, for a string `str` in which the authority begins at `i`.
pub userinfo_stage :
    (str : List ℕ) (o : Option (List ℕ)) (i e : ℕ) (rest : List ℕ)
    → IsOption (All (λ c. valid_char uri_userinfo c ≡ true)) o
    → is_at rest b'[' ≡ false
    → drop i str ≡ print_userinfo o rest
    → (prev a b c h : ℕ) × (authority_loop b'/' i
          (print_userinfo o rest)
          (opened e i 0 i 0 0 0 uri_host)
        ≡ authority_loop prev b rest (opened e i a b c h 0 uri_host))
      × Spans str i a o
      × (drop b str ≡ rest)
unfolding valid_char authority_round authority_map
userinfo_stage str none i e rest v plain d = (b'/', 0, i, 0, 0, refl, omega arith, d)
userinfo_stage str (some x) i e rest (some_x, v) plain d =
    let (prev, c, h, p, read) = loop-userinfo x b'/' i e i i 0 0 uri_host (b'@' ∷ rest) v in
    let j = i + length x in
    let turn : authority_loop prev j (b'@' ∷ rest) (opened e i 0 i c h 0 p)
        ≡ authority_loop b'@' (j + 1) rest (opened e i j (j + 1) c h 0 uri_host) =
      loop-next (some uri_userinfo) prev j b'@' rest (opened e i 0 i c h 0 p)
        (opened e i j (j + 1) c h 0 uri_host) refl (rw plain refl) in
    (
      b'@',
      j,
      j + 1,
      c,
      h,
      read ∙ turn,
      slice i str x (b'@' ∷ rest) some_x d,
      drop_next j str (b'@' ∷ []) rest (drop_next i str x (b'@' ∷ rest) d),
    )

-- The loop from the host to the path, which begins at `k`, and what follows it.
pub host_stage :
    (str : List ℕ) (x : List ℕ) (o : Option (List ℕ)) (prev i e a a' c h len : ℕ) (r : List ℕ)
    → 0 < length x
    → All HostByte x
    → IsOption (All (λ c. valid_char uri_port c ≡ true)) o
    → drop i str ≡ x ++ print_part b':' o (b'/' ∷ r)
    → (k host' port port' : ℕ) × (p : Part) × (after_authority len (
          authority_loop prev i
            (x ++ print_part b':' o (b'/' ∷ r))
            (opened e a a' i c h 0 uri_host))
        ≡ scan_path len k (b'/' ∷ r) (starts_at uri_path k (opened e a a' i port host' port' p)))
      × Spans str i host' (some x)
      × Spans str port port' o
      × (drop k str ≡ b'/' ∷ r)
unfolding after_authority authority_loop authority_round authority_map
host_stage str x none prev i e a a' c h len r some_x v vo d =
    let s = opened e a a' i c h 0 uri_host in
    let k = i + length x in
    let (prev', read) = loop-plain x prev i (b'/' ∷ r) s (All-map HostByte _ x host_char-map v) in
    (
      k,
      k,
      c,
      0,
      uri_host,
      ap (after_authority len) read,
      slice i str x (b'/' ∷ r) some_x d,
      omega arith,
      drop_next i str x (b'/' ∷ r) d,
    )
host_stage str x (some y) prev i e a a' c h len r some_x v (some_y, w) d =
    let s = opened e a a' i c h 0 uri_host in
    let j = i + length x in
    let k = j + 1 + length y in
    let t = opened e a a' i (j + 1) j 0 uri_port in
    let (prev', read) =
      loop-plain x prev i (b':' ∷ (y ++ (b'/' ∷ r))) s (All-map HostByte _ x host_char-map v) in
    let (prev'', read') = loop-plain y b':' (j + 1) (b'/' ∷ r) t (All-map _ _ y port_char-map w) in
    let d' = drop_next i str x (b':' ∷ (y ++ (b'/' ∷ r))) d in
    let d'' = drop_next j str (b':' ∷ []) (y ++ (b'/' ∷ r)) d' in
    (
      k,
      j,
      j + 1,
      k,
      uri_port,
      ap (after_authority len) (read ∙ read'),
      slice i str x (b':' ∷ (y ++ (b'/' ∷ r))) some_x d,
      slice (j + 1) str y (b'/' ∷ r) some_y d'',
      drop_next (j + 1) str y (b'/' ∷ r) d'',
    )
