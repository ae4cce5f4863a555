-- ===== src/UriParser/Parse.antt =====
-- `URIParser::parse` of src/util/URIParser.cc behind its loops, and the copies of `ParsedURI`.
use myworkflow.Base.{
  ℕ, ◌+◌, ◌-◌, Bool, true, false, ◌&&◌, Option, none, some, List, [], ◌∷◌, ltb, ◌==◌, if◌then◌else◌,
  length, take, drop,
}
use myworkflow.UriParser.{
  Part, uri_scheme, uri_userinfo, uri_host, uri_port, uri_query, uri_fragment, uri_path, Parts, at,
  put_at, fill, valid_char,
}
use myworkflow.UriParser.Scan.{Scan, scan}

pub data UriState : Type 0 where
  state_init state_success state_invalid state_error : UriState

-- `ParsedURI`, whose strings are in `parts`: `none` is NULL.
pub record ParsedUri : Type 0 where
  pub parts : Parts (Option (List ℕ))
  pub state : UriState
  pub error : ℕ

abbrev pub enomem : ℕ
enomem = 12

-- `ParsedURI::init`.
abbrev pub init : ParsedUri
init = record { parts = fill none; state = state_init; error = 0 }

-- The bytes from the part's begin to its end: none where it does not end behind its begin.
unfoldable pub range : List ℕ → Scan → Part → List ℕ
range str s p = take (at 0 p s.end_idx - at 0 p s.start_idx) (drop (at 0 p s.start_idx) str)

unfoldable pub all_valid : Part → List ℕ → Bool
unfolding valid_char
all_valid p [] = true
all_valid p (c ∷ cs) = let rest = all_valid p cs in valid_char p c && rest

-- The loop over the four parts of which the bytes are looked up.
unfoldable pub is_valid : List ℕ → Scan → Bool
unfolding range all_valid
is_valid str s =
    all_valid uri_scheme (range str s uri_scheme)
    && all_valid uri_userinfo (range str s uri_userinfo)
    && all_valid uri_host (range str s uri_host)
    && all_valid uri_port (range str s uri_port)

-- Whether the last byte is `c`.
unfoldable pub ends_with : ℕ → List ℕ → Bool
ends_with c [] = false
ends_with c (d ∷ []) = d == c
ends_with c (d ∷ e ∷ cs) = ends_with c (e ∷ cs)

-- The brackets of an IPv6 address are left out.
unfoldable pub unbracket : List ℕ → List ℕ
unfolding ends_with
unbracket [] = []
unbracket (c ∷ cs) =
    if c == b'[' && ends_with b']' (c ∷ cs) then take (length (c ∷ cs) - 2) cs else c ∷ cs

-- What is copied for a part.
unfoldable pub text : List ℕ → Scan → Part → List ℕ
unfolding range unbracket
text str s uri_host = unbracket (range str s uri_host)
text str s p = range str s p

abbrev pub store : Part → Option (List ℕ) → ParsedUri → ParsedUri
store p v uri = record uri { parts = put_at p v uri.parts }

-- The last loop over the parts that are left. `realloc_ok` tells of each size whether `realloc` gives it.
unfoldable pub assign : (ℕ → Bool) → List ℕ → Scan → List Part → ParsedUri → Bool × ParsedUri
unfolding text
assign realloc_ok str s [] uri = (true, record uri { state = state_success })
assign realloc_ok str s (p ∷ ps) uri =
    let len = at 0 p s.end_idx - at 0 p s.start_idx in
    elim (ltb (at 0 p s.start_idx) (at 0 p s.end_idx)) [
      | true ↦ elim (realloc_ok (len + 1)) [
        | true ↦ assign realloc_ok str s ps (store p (some (text str s p)) uri)
        | false ↦ (false, record (store p none uri) { state = state_error; error = enomem })
      ]
      | false ↦ assign realloc_ok str s ps (store p none uri)
    ]

abbrev pub all_parts : List Part
all_parts =
    uri_scheme ∷ uri_userinfo ∷ uri_host ∷ uri_port ∷ uri_query ∷ uri_fragment ∷ uri_path ∷ []

-- `URIParser::parse`: whether it returns 0, and the URI.
unfoldable pub parse : (ℕ → Bool) → List ℕ → ParsedUri → Bool × ParsedUri
unfolding scan is_valid assign
parse realloc_ok str uri =
    let invalid = record uri { state = state_invalid } in
    elim (scan str) [
      | none ↦ (false, invalid)
      | some s ↦
          if is_valid str s then assign realloc_ok str s all_parts invalid else (false, invalid)
    ]

-- The strings that `copy` has, in its order, until `strdup` fails; whether it did not.
unfoldable pub copy_parts :
    (ℕ → Bool) → Parts (Option (List ℕ)) → List Part → ParsedUri → Bool × ParsedUri
copy_parts malloc_ok from [] uri = (true, uri)
copy_parts malloc_ok from (p ∷ ps) uri = elim (at none p from) [
  | none ↦ copy_parts malloc_ok from ps uri
  | some s ↦ elim (malloc_ok (length s + 1)) [
    | true ↦ copy_parts malloc_ok from ps (store p (some s) uri)
    | false ↦ (false, uri)
  ]
]

abbrev pub copy_order : List Part
copy_order =
    uri_scheme ∷ uri_userinfo ∷ uri_host ∷ uri_port ∷ uri_path ∷ uri_query ∷ uri_fragment ∷ []

abbrev pub end_copy : Bool × ParsedUri → ParsedUri
end_copy (true, uri) = uri
end_copy (false, uri) = record init { state = state_error; error = enomem }

-- `ParsedURI::copy`.
unfoldable pub copy : (ℕ → Bool) → ParsedUri → ParsedUri
unfolding copy_parts
copy malloc_ok uri =
    let to = record init { state = uri.state; error = uri.error } in
    elim uri.state [
      | state_success ↦ end_copy (copy_parts malloc_ok uri.parts copy_order to)
      | _ ↦ to
    ]

-- The constructor and the assignment that move: what they get, and what they leave.
abbrev pub move : ParsedUri → ParsedUri × ParsedUri
move uri = (uri, init)
