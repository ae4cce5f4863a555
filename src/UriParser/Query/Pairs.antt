-- ===== src/UriParser/Query/Pairs.antt =====
-- Queries of `URIParser` of src/util/URIParser.cc that are written from pairs.
use myworkflow.Base.{
  ℕ, ◌≡◌, ◌≢◌, refl, sym, ap, ◌∙◌, append-nil, append_assoc, length-append, length, ◌<◌, arith,
  Bool, true, false, Option, none, some, List, [], ◌∷◌, ◌++◌, if◌then◌else◌, str_eq, All,
}
use myworkflow.StringUtil.Split.{split, join, Lacks, split-join}
use myworkflow.UriParser.Query.{
  Values, pair, key_value, emplace_back, strict_loop, split_query_strict,
}

-- A query of some pairs.
abbrev pub print_pairs : List (List ℕ × List ℕ) → List (List ℕ)
print_pairs [] = []
print_pairs ((key, value) ∷ ps) = (key ++ (b'=' ∷ value)) ∷ print_pairs ps

-- The values that the pairs give a key, in their order.
abbrev pub values_of : List (List ℕ × List ℕ) → Values
values_of [] k = []
values_of ((key, value) ∷ ps) k =
    let rest = values_of ps k in if str_eq k key then value ∷ rest else rest

-- Neither key nor value has one of the two separators, and the key is not empty.
abbrev pub IsPair : List ℕ × List ℕ → Type 0
IsPair (key, value) =
    (0 < length key) × Lacks b'=' key × Lacks b'&' key × Lacks b'=' value × Lacks b'&' value

key_value-pair :
    (key value : List ℕ)
    → IsPair (key, value)
    → key_value (key ++ (b'=' ∷ value)) ≡ some (some (key, value))
unfolding key_value pair
key_value-pair [] value (h, a, b, d, e) = absurd (omega arith)
key_value-pair (c ∷ key) value (h, a, b, d, e) =
    let pick : Option (List (List ℕ)) → Option (Option (List ℕ × List ℕ)) =
      λ o. elim o [ none ↦ none | some x ↦ some (pair x) ] in
    ap pick (split-join b'=' (c ∷ key) (value ∷ []) (a, (d, tt)))

append_if :
    (b : Bool) (x : List (List ℕ)) (v : List ℕ) (rest : List (List ℕ))
    → (if b then x ++ (v ∷ []) else x) ++ rest ≡ x ++ (if b then v ∷ rest else rest)
append_if true x v rest = append_assoc x (v ∷ []) rest
append_if false x v rest = refl

strict_loop-pairs :
    (ps : List (List ℕ × List ℕ)) (m : Values)
    → All IsPair ps
    → (n : Values) × (strict_loop (print_pairs ps) m ≡ some n)
      × ((k : List ℕ) → n k ≡ m k ++ values_of ps k)
unfolding strict_loop emplace_back
strict_loop-pairs [] m h = (m, refl, (λ k. sym (append-nil (m k))))
strict_loop-pairs ((key, value) ∷ ps) m (h, hs) =
    let (n, e, v) = strict_loop-pairs ps (emplace_back key value m) hs in
    let pick : Option (Option (List ℕ × List ℕ)) → Option Values = λ o. elim o [
      | none ↦ none
      | some none ↦ strict_loop (print_pairs ps) m
      | some (some (x, y)) ↦ strict_loop (print_pairs ps) (emplace_back x y m)
    ] in
    (
      n,
      ap pick (key_value-pair key value h) ∙ e,
      (λ k. v k ∙ append_if (str_eq k key) (m k) value (values_of ps k)),
    )

Lacks-append : (sep : ℕ) (x y : List ℕ) → Lacks sep x → Lacks sep y → Lacks sep (x ++ y)
Lacks-append sep [] y h k = k
Lacks-append sep (c ∷ x) y (h, hs) k = (h, Lacks-append sep x y hs k)

separators_ne : ◌≢◌ {A = ℕ} b'=' b'&'
separators_ne e = cc

pair-Lacks : (key value : List ℕ) → IsPair (key, value) → Lacks b'&' (key ++ (b'=' ∷ value))
pair-Lacks key value h = Lacks-append b'&' key (b'=' ∷ value) h.2 (separators_ne, h.4)

print_pairs-Lacks :
    (ps : List (List ℕ × List ℕ)) → All IsPair ps → All (Lacks b'&') (print_pairs ps)
print_pairs-Lacks [] h = tt
print_pairs-Lacks (p ∷ ps) h = (pair-Lacks p.0 p.1 h.0, print_pairs-Lacks ps h.1)

join-some :
    (sep : ℕ) (x : List ℕ) (xs : List (List ℕ)) → 0 < length x → 0 < length (join sep (x ∷ xs))
join-some sep x [] h = h
join-some sep x (y ∷ xs) h = omega (arith, length-append x (sep ∷ join sep (y ∷ xs)), h)

split_query_strict-some :
    (q : List ℕ) (arr : List (List ℕ))
    → 0 < length q
    → split q b'&' ≡ some arr
    → split_query_strict q ≡ strict_loop arr (λ k. [])
unfolding split_query_strict
split_query_strict-some [] arr h e = absurd (omega arith)
split_query_strict-some (c ∷ q) arr h e =
    let pick : Option (List (List ℕ)) → Option Values =
      λ o. elim o [ none ↦ none | some x ↦ strict_loop x (λ k. []) ] in
    ap pick e

-- A query that is written from pairs, whose keys are not empty and where no key and no value has a
-- separator, gives each key back with the values of its pairs, in their order.
pub split_query_strict-pairs :
    (key value : List ℕ) (ps : List (List ℕ × List ℕ))
    → All IsPair ((key, value) ∷ ps)
    → (n : Values) × (split_query_strict (join b'&' (print_pairs ((key, value) ∷ ps))) ≡ some n)
      × ((k : List ℕ) → n k ≡ values_of ((key, value) ∷ ps) k)
split_query_strict-pairs key value ps h =
    let arr = print_pairs ((key, value) ∷ ps) in
    let (n, e, v) = strict_loop-pairs ((key, value) ∷ ps) (λ k. []) h in
    let long : 0 < length (key ++ (b'=' ∷ value)) =
      omega (arith, length-append key (b'=' ∷ value)) in
    let found =
      split-join b'&' (key ++ (b'=' ∷ value)) (print_pairs ps)
        (print_pairs-Lacks ((key, value) ∷ ps) h) in
    (
      n,
      split_query_strict-some (join b'&' arr) arr
            (join-some b'&' (key ++ (b'=' ∷ value)) (print_pairs ps) long) found
          ∙ e,
      v,
    )
