-- ===== src/UriParser/Query.antt =====
-- `split_query_strict`, `split_query` and `split_path` of src/util/URIParser.cc. A `std::map` is the
-- function that looks a key up.
pub mod Pairs
use myworkflow.Base.{
  ℕ, ◌≡◌, ◌≢◌, refl, sym, ap, ap₂, subst, ◌∙◌, inl, inr, append-nil, append_assoc, length-append,
  length, ◌<◌, arith, Bool, true, false, Option, none, some, List, [], ◌∷◌, ◌++◌, map,
  if◌then◌else◌, str_eq, All, ==_iff, ◌==◌, ◌&&◌, Bool-cases, Option-cases,
}
use myworkflow.StringUtil.Split.{
  split, split_filter_empty, Pieces, split_lem, join, Lacks, split-join,
}

abbrev pub Values : Type 0
Values = List ℕ → List (List ℕ)

abbrev pub Value : Type 0
Value = List ℕ → Option (List ℕ)

-- The key and the value of the pieces, or `none` where the round goes on with the next.
unfoldable pub pair : List (List ℕ) → Option (List ℕ × List ℕ)
pair [] = none
pair ([] ∷ kv) = none
pair ((c ∷ key) ∷ []) = some (c ∷ key, [])
pair ((c ∷ key) ∷ value ∷ kv) = some (c ∷ key, value)

-- One element of the query; the outer `none` is a loop of `split` without fuel.
unfoldable pub key_value : List ℕ → Option (Option (List ℕ × List ℕ))
unfolding pair split
key_value [] = some none
key_value (c ∷ ele) = elim (split (c ∷ ele) b'=') [ none ↦ none | some kv ↦ some (pair kv) ]

-- `res[key].emplace_back (value)`.
unfoldable pub emplace_back : List ℕ → List ℕ → Values → Values
unfolding str_eq
emplace_back key value res k = if str_eq k key then res k ++ (value ∷ []) else res k

-- `res.emplace (key, value)`, unless `res.count (key) > 0`.
unfoldable pub emplace_new : List ℕ → List ℕ → Value → Value
unfolding str_eq
emplace_new key value res k = elim (res key) [
  | none ↦ if str_eq k key then some value else res k
  | some v ↦ res k
]

unfoldable pub strict_loop : List (List ℕ) → Values → Option Values
unfolding key_value emplace_back
strict_loop [] res = some res
strict_loop (ele ∷ arr) res = elim (key_value ele) [
  | none ↦ none
  | some none ↦ strict_loop arr res
  | some (some (key, value)) ↦ strict_loop arr (emplace_back key value res)
]

unfoldable pub query_loop : List (List ℕ) → Value → Option Value
unfolding key_value emplace_new
query_loop [] res = some res
query_loop (ele ∷ arr) res = elim (key_value ele) [
  | none ↦ none
  | some none ↦ query_loop arr res
  | some (some (key, value)) ↦ query_loop arr (emplace_new key value res)
]

unfoldable pub split_query_strict : List ℕ → Option Values
unfolding split strict_loop
split_query_strict [] = some (λ k. [])
split_query_strict (c ∷ query) = elim (split (c ∷ query) b'&') [
  | none ↦ none
  | some arr ↦ strict_loop arr (λ k. [])
]

unfoldable pub split_query : List ℕ → Option Value
unfolding split query_loop
split_query [] = some (λ k. none)
split_query (c ∷ query) = elim (split (c ∷ query) b'&') [
  | none ↦ none
  | some arr ↦ query_loop arr (λ k. none)
]

unfoldable pub split_path : List ℕ → Option (List (List ℕ))
unfolding split_filter_empty
split_path path = split_filter_empty path b'/'

abbrev pub first : List (List ℕ) → Option (List ℕ)
first [] = none
first (v ∷ vs) = some v

both_true : (a b : Bool) → (a && b) ≡ true → (a ≡ true) × (b ≡ true)
both_true true b h = (refl, h)
both_true false b h = cc

str_eq-eq : (a b : List ℕ) → str_eq a b ≡ true → a ≡ b
unfolding str_eq
str_eq-eq [] [] h = refl
str_eq-eq [] (d ∷ b) h = cc
str_eq-eq (c ∷ a) [] h = cc
str_eq-eq (c ∷ a) (d ∷ b) h =
    let (same, h') = both_true (c == d) (str_eq a b) h in
    ap₂ ◌∷◌ ((==_iff c d).0 same) (str_eq-eq a b h')

str_eq_refl : (a : List ℕ) → str_eq a a ≡ true
unfolding str_eq
str_eq_refl [] = refl
str_eq_refl (c ∷ a) = rw ((==_iff c c).1 refl) (str_eq_refl a)

key_value_total : (ele : List ℕ) → (o : Option (List ℕ × List ℕ)) × (key_value ele ≡ some o)
unfolding key_value
key_value_total [] = (none, refl)
key_value_total (c ∷ ele) =
    let (kv, e, p) = split_lem (c ∷ ele) b'=' in
    let pick : Option (List (List ℕ)) → Option (Option (List ℕ × List ℕ)) =
      λ o. elim o [ none ↦ none | some x ↦ some (pair x) ] in
    (pair kv, ap pick e)

-- `emplace` at a key: what the key in question has, and what its value is then.
abbrev chosen : Option (List ℕ) → Bool → List ℕ → Option (List ℕ) → Option (List ℕ)
chosen o same value own = elim o [ none ↦ if same then some value else own | some v ↦ own ]

chosen-other :
    (o : Option (List ℕ)) (value : List ℕ) (own : Option (List ℕ)) → chosen o false value own ≡ own
chosen-other none value own = refl
chosen-other (some v) value own = refl

chosen-same :
    (vs : List (List ℕ)) (value : List ℕ)
    → chosen (first vs) true value (first vs) ≡ first (vs ++ (value ∷ []))
chosen-same [] value = refl
chosen-same (v ∷ vs) value = refl

emplace-First :
    (key value : List ℕ) (m : Values) (m' : Value)
    → ((k : List ℕ) → m' k ≡ first (m k))
    → (k : List ℕ) → emplace_new key value m' k ≡ first (emplace_back key value m k)
unfolding emplace_new emplace_back
emplace-First key value m m' h k =
    let added : Bool → List (List ℕ) = λ b. if b then m k ++ (value ∷ []) else m k in
    elim (Bool-cases (str_eq k key)) [
      | inr other ↦
          ap (λ b. chosen (m' key) b value (m' k)) other
          ∙ chosen-other (m' key) value (m' k)
          ∙ h k
          ∙ sym (ap (λ b. first (added b)) other)
      | inl same ↦
          let at_key : m' key ≡ first (m k) =
            h key ∙ ap (λ z. first (m z)) (sym (str_eq-eq k key same)) in
          ap (λ b. chosen (m' key) b value (m' k)) same
          ∙ ap₂ (λ o own. chosen o true value own) at_key (h k)
          ∙ chosen-same (m k) value
          ∙ sym (ap (λ b. first (added b)) same)
    ]

-- Both loops end, and keep the maps alike.
abbrev Alike : Option Values → Option Value → Type 0
Alike o o' =
    (n : Values) × (n' : Value) × (o ≡ some n)
    × (o' ≡ some n')
    × ((k : List ℕ) → n' k ≡ first (n k))

loops-First :
    (arr : List (List ℕ)) (m : Values) (m' : Value)
    → ((k : List ℕ) → m' k ≡ first (m k))
    → Alike (strict_loop arr m) (query_loop arr m')
unfolding strict_loop query_loop
loops-First [] m m' h = (m, m', refl, refl, h)
loops-First (ele ∷ arr) m m' h =
    let strict : Option (Option (List ℕ × List ℕ)) → Option Values = λ o. elim o [
      | none ↦ none
      | some none ↦ strict_loop arr m
      | some (some (key, value)) ↦ strict_loop arr (emplace_back key value m)
    ] in
    let query : Option (Option (List ℕ × List ℕ)) → Option Value = λ o. elim o [
      | none ↦ none
      | some none ↦ query_loop arr m'
      | some (some (key, value)) ↦ query_loop arr (emplace_new key value m')
    ] in
    let (o, e) = key_value_total ele in
    let rest : Alike (strict (some o)) (query (some o)) =
      elim o as (λ z. Alike (strict (some z)) (query (some z))) [
        | none ↦ loops-First arr m m' h
        | some (key, value) ↦
            loops-First arr (emplace_back key value m) (emplace_new key value m')
              (emplace-First key value m m' h)
      ] in
    subst (λ z. Alike (strict z) (query z)) (sym e) rest

-- Both ways to split a query end, and the value of a key in `split_query` is the first of its values
-- in `split_query_strict`: a key is in the one map where it is in the other.
pub split_query-strict :
    (query : List ℕ)
    → (n : Values) × (n' : Value) × (split_query_strict query ≡ some n)
      × (split_query query ≡ some n')
      × ((k : List ℕ) → n' k ≡ first (n k))
unfolding split_query_strict split_query
split_query-strict [] = ((λ k. []), (λ k. none), refl, refl, (λ k. refl))
split_query-strict (c ∷ query) =
    let strict : Option (List (List ℕ)) → Option Values =
      λ o. elim o [ none ↦ none | some arr ↦ strict_loop arr (λ k. []) ] in
    let lax : Option (List (List ℕ)) → Option Value =
      λ o. elim o [ none ↦ none | some arr ↦ query_loop arr (λ k. none) ] in
    let (arr, e, p) = split_lem (c ∷ query) b'&' in
    subst (λ z. Alike (strict z) (lax z)) (sym e)
      (loops-First arr (λ k. []) (λ k. none) (λ k. refl))
