-- ===== src/UriParser/RoundTrip.antt =====
-- `URIParser::parse` of src/util/URIParser.cc on the URIs of the form that it is for.
use myworkflow.Base.{
  ℕ, ◌+◌, ◌-◌, ◌≤◌, ◌≡◌, refl, ap, ◌∙◌, Bool, true, false, Option, none, some, List, [], ◌∷◌, ◌==◌,
  ◌&&◌, ltb, if◌then◌else◌, arith, drop, take, All, lt→ltb,
}
use myworkflow.UriParser.{
  Part, uri_scheme, uri_userinfo, uri_host, uri_port, uri_query, uri_fragment, uri_path, Parts, at,
  valid_char,
}
use myworkflow.UriParser.Scan.{IsString, Scan}
use myworkflow.UriParser.Parse.{
  enomem, state_error, state_success, ParsedUri, range, all_valid, is_valid, unbracket, text, store,
  assign, parse, all_parts, state_invalid,
}
use myworkflow.UriParser.Print.{Uri, print, IsOption, HostByte, IsUri, Spans}
use myworkflow.UriParser.Spans.{AllSpans, scan-print}

-- What a part's text is: nothing where it is missing.
abbrev or_empty : Option (List ℕ) → List ℕ
or_empty none = []
or_empty (some x) = x

Spans-range :
    (str : List ℕ) (b e : ℕ) (o : Option (List ℕ))
    → Spans str b e o
    → take (e - b) (drop b str) ≡ or_empty o
Spans-range str b e none h = ap (λ n. take n (drop b str)) (let z : e - b ≡ 0 = omega arith in z)
Spans-range str b e (some x) (h, eq) = eq

missing : (b e : ℕ) → e ≤ b → ltb b e ≡ false
missing b e h = ground arith

-- A round of the last loop.
assign-Spans :
    (realloc_ok : ℕ → Bool) (str : List ℕ) (s : Scan) (p : Part) (ps : List Part) (uri : ParsedUri)
    (o : Option (List ℕ))
    → ((n : ℕ) → realloc_ok n ≡ true)
    → Spans str (at 0 p s.start_idx) (at 0 p s.end_idx) o
    → text str s p ≡ or_empty o
    → assign realloc_ok str s (p ∷ ps) uri ≡ assign realloc_ok str s ps (store p o uri)
unfolding assign
assign-Spans realloc_ok str s p ps uri o given h e =
    let b = at 0 p s.start_idx in
    let n = at 0 p s.end_idx in
    let rest = assign realloc_ok str s ps in
    let full : Bool → Bool × ParsedUri = λ t. elim t [
      | true ↦ rest (store p (some (text str s p)) uri)
      | false ↦ (false, record (store p none uri) { state = state_error; error = enomem })
    ] in
    let pick : Bool → Bool × ParsedUri =
      λ t. elim t [ true ↦ full (realloc_ok (n - b + 1)) | false ↦ rest (store p none uri) ] in
    elim o
        as (λ z.
          Spans str b n z → text str s p ≡ or_empty z → pick (ltb b n) ≡ rest (store p z uri)) [
            | none ↦ λ h e. ap pick (missing b n h)
            | some x ↦ λ h e.
                ap pick (lt→ltb b n h.0)
                ∙ ap full (given (n - b + 1))
                ∙ ap (λ y. rest (store p (some y) uri)) e
          ]
      h e

all_valid-All : (p : Part) (x : List ℕ) → All (λ c. valid_char p c ≡ true) x → all_valid p x ≡ true
unfolding all_valid
all_valid-All p [] h = refl
all_valid-All p (c ∷ x) (h, hs) = rw h (all_valid-All p x hs)

option-All :
    (p : Part) (o : Option (List ℕ))
    → IsOption (All (λ c. valid_char p c ≡ true)) o
    → all_valid p (or_empty o) ≡ true
unfolding all_valid
option-All p none h = refl
option-All p (some x) (h, v) = all_valid-All p x v

unbracket-plain : (x : List ℕ) → All HostByte x → unbracket x ≡ x
unfolding unbracket
unbracket-plain [] h = refl
unbracket-plain (c ∷ x) ((a, b, k), v) = let other : (c == b'[') ≡ false = ground arith in rw other

abbrev pub parts_of : Uri → Parts (Option (List ℕ))
parts_of u = record {
  scheme = some u.scheme;
  userinfo = u.userinfo;
  host = some u.host;
  port = u.port;
  query = u.query;
  fragment = u.fragment;
  path = some (b'/' ∷ u.path);
}

assign_end :
    (realloc_ok : ℕ → Bool) (str : List ℕ) (s : Scan) (uri : ParsedUri)
    → assign realloc_ok str s [] uri ≡ (true, record uri { state = state_success })
unfolding assign
assign_end realloc_ok str s uri = refl

AllTexts : List ℕ → Uri → Scan → Type 0
AllTexts str u s =
    (text str s uri_scheme ≡ u.scheme)
    × (text str s uri_userinfo ≡ or_empty u.userinfo)
    × (text str s uri_host ≡ u.host)
    × (text str s uri_port ≡ or_empty u.port)
    × (text str s uri_query ≡ or_empty u.query)
    × (text str s uri_fragment ≡ or_empty u.fragment)
    × (text str s uri_path ≡ b'/' ∷ u.path)

all_texts :
    (str : List ℕ) (u : Uri) (s : Scan) → All HostByte u.host → AllSpans str u s → AllTexts str u s
unfolding text range AllTexts
all_texts str u s v (a, b, c, d, e, f, g) = (
  a.1,
  Spans-range str s.start_idx.userinfo s.end_idx.userinfo u.userinfo b,
  ap unbracket c.1 ∙ unbracket-plain u.host v,
  Spans-range str s.start_idx.port s.end_idx.port u.port d,
  Spans-range str s.start_idx.query s.end_idx.query u.query e,
  Spans-range str s.start_idx.fragment s.end_idx.fragment u.fragment f,
  g.1,
)

assign-AllSpans :
    (realloc_ok : ℕ → Bool) (str : List ℕ) (u : Uri) (s : Scan) (uri : ParsedUri)
    → ((n : ℕ) → realloc_ok n ≡ true)
    → All HostByte u.host
    → AllSpans str u s
    → assign realloc_ok str s all_parts uri
      ≡ (true, record uri { parts = parts_of u; state = state_success })
unfolding AllTexts
assign-AllSpans realloc_ok str u s uri given v spans =
    let (a, b, c, d, e, f, g) = spans in
    let (ta, tb, tc, td, te, tf, tg) = all_texts str u s v spans in
    let z₁ = store uri_scheme (some u.scheme) uri in
    let z₂ = store uri_userinfo u.userinfo z₁ in
    let z₃ = store uri_host (some u.host) z₂ in
    let z₄ = store uri_port u.port z₃ in
    let z₅ = store uri_query u.query z₄ in
    let z₆ = store uri_fragment u.fragment z₅ in
    assign-Spans realloc_ok str s uri_scheme _ uri (some u.scheme) given a ta
    ∙ assign-Spans realloc_ok str s uri_userinfo _ z₁ u.userinfo given b tb
    ∙ assign-Spans realloc_ok str s uri_host _ z₂ (some u.host) given c tc
    ∙ assign-Spans realloc_ok str s uri_port _ z₃ u.port given d td
    ∙ assign-Spans realloc_ok str s uri_query _ z₄ u.query given e te
    ∙ assign-Spans realloc_ok str s uri_fragment _ z₅ u.fragment given f tf
    ∙ assign-Spans realloc_ok str s uri_path [] z₆ (some (b'/' ∷ u.path)) given g tg
    ∙ assign_end realloc_ok str s (store uri_path (some (b'/' ∷ u.path)) z₆)

host-All : (x : List ℕ) → All HostByte x → all_valid uri_host x ≡ true
unfolding all_valid
host-All [] h = refl
host-All (c ∷ x) ((a, b, k), hs) = rw a (host-All x hs)

four : {a b c d : Bool} → a ≡ true → b ≡ true → c ≡ true → d ≡ true → (a && b && c && d) ≡ true
four {a} {b} {c} {d} h k l m = ground arith

is_valid-Spans :
    (str : List ℕ) (u : Uri) (s : Scan) → IsUri u → AllSpans str u s → is_valid str s ≡ true
unfolding is_valid range
is_valid-Spans str u s v (a, b, c, d, e, f, g) =
    let scheme = ap (all_valid uri_scheme) a.1 ∙ all_valid-All uri_scheme u.scheme v.scheme_bytes in
    let userinfo =
      ap (all_valid uri_userinfo)
        (Spans-range str s.start_idx.userinfo s.end_idx.userinfo u.userinfo b)
      ∙ option-All uri_userinfo u.userinfo v.userinfo_bytes in
    let host = ap (all_valid uri_host) c.1 ∙ host-All u.host v.host_bytes in
    let port =
      ap (all_valid uri_port) (Spans-range str s.start_idx.port s.end_idx.port u.port d)
      ∙ option-All uri_port u.port v.port_bytes in
    four scheme userinfo host port

-- Where every allocation succeeds, `parse` gives back the parts of a URI that is written by its
-- grammar, with no NUL and with less than 2 ^ 31 bytes: it has a host, which is no IPv6 address, and a
-- path.
pub parse-print :
    (realloc_ok : ℕ → Bool) (u : Uri) (uri : ParsedUri)
    → ((n : ℕ) → realloc_ok n ≡ true)
    → IsUri u
    → IsString (print u)
    → parse realloc_ok (print u) uri
      ≡ (true, record uri { parts = parts_of u; state = state_success })
unfolding parse
parse-print realloc_ok u uri given v small =
    let str = print u in
    let invalid = record uri { state = state_invalid } in
    let (s, read, spans) = scan-print u small.1 v in
    let check : Bool → Bool × ParsedUri =
      λ b. if b then assign realloc_ok str s all_parts invalid else (false, invalid) in
    let pick : Option Scan → Bool × ParsedUri = λ o. elim o [
      | none ↦ (false, invalid)
      | some t ↦
          if is_valid str t then assign realloc_ok str t all_parts invalid else (false, invalid)
    ] in
    ap pick read
    ∙ ap check (is_valid-Spans str u s v spans)
    ∙ assign-AllSpans realloc_ok str u s invalid given v.host_bytes spans
