-- ===== src/UriParser/Outcome.antt =====
-- What `URIParser::parse` of src/util/URIParser.cc leaves in the URI, for any string.
use myworkflow.Base.{
  ℕ, ◌-◌, ◌+◌, ◌≡◌, ◌⊎◌, Bool, true, false, Option, none, some, List, [], ◌∷◌, ltb, if◌then◌else◌,
  not, ◌&&◌, ◌||◌,
}
use myworkflow.UriParser.{Part, at}
use myworkflow.UriParser.Scan.{Scan, scan}
use myworkflow.UriParser.Parse.{
  state_success, state_invalid, state_error, ParsedUri, enomem, is_valid, text, store, all_parts,
}

-- The part of the string, or NULL where its range is empty.
abbrev pub part_text : List ℕ → Scan → Part → Option (List ℕ)
part_text str s p =
    if ltb (at 0 p s.start_idx) (at 0 p s.end_idx) then some (text str s p) else none

abbrev pub stored : List ℕ → Scan → List Part → ParsedUri → ParsedUri
stored str s [] uri = uri
stored str s (p ∷ ps) uri = stored str s ps (store p (part_text str s p) uri)

abbrev pub Failed : Bool × ParsedUri → Type 0
Failed (r, uri) = (r ≡ false) × (uri.state ≡ state_error) × (uri.error ≡ enomem)

-- Whether an allocation for one of the parts is refused: the part is not empty, and needs a NUL.
abbrev pub is_refused : (ℕ → Bool) → Scan → List Part → Bool
is_refused realloc_ok s [] = false
is_refused realloc_ok s (p ∷ ps) =
    let b = at 0 p s.start_idx in
    let e = at 0 p s.end_idx in
    (ltb b e && not (realloc_ok (e - b + 1))) || is_refused realloc_ok s ps

-- Either every allocation succeeds and the URI is the one given, or one of them has failed.
abbrev Ends : Bool → ParsedUri → Bool × ParsedUri → Type 0
Ends refused uri r = ((refused ≡ false) × (r ≡ (true, uri))) ⊎ ((refused ≡ true) × Failed r)

-- The string has no scheme, or a byte that is not valid in one of the four parts that are looked up.
abbrev pub IsRefused : List ℕ → Type 0
IsRefused str = (scan str ≡ none) ⊎ ((s : Scan) × (scan str ≡ some s) × (is_valid str s ≡ false))

-- What `parse` makes of the URI, and when.
abbrev pub Outcome : (ℕ → Bool) → List ℕ → ParsedUri → Bool × ParsedUri → Type 0
Outcome realloc_ok str uri r =
    let invalid = record uri { state = state_invalid } in
    ((s : Scan) × (scan str ≡ some s)
      × (is_valid str s ≡ true)
      × Ends (is_refused realloc_ok s all_parts)
          (record (stored str s all_parts invalid) { state = state_success }) r)
    ⊎ (IsRefused str × (r ≡ (false, invalid)))
