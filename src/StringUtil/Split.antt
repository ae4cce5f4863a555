-- ===== src/StringUtil/Split.antt =====
-- `split` and `split_filter_empty` of src/util/StringUtil.cc.
use mathlib.Core.Option
use myworkflow.Base.{
  ℕ, zero, suc, ◌≤◌, ◌<◌, ◌≡◌, ◌≢◌, refl, sym, ap, inl, inr, Option, none, some, List, [], ◌∷◌,
  ◌++◌, arith, ◌==◌, if◌then◌else◌, length, All, Bool-cases, Option-cases, ==_iff, subst,
}

-- `std::find` from the front: what stands before the first `sep`, and what stands behind it.
pub break_at : ℕ → List ℕ → List ℕ × Option (List ℕ)
break_at sep [] = ([], none)
break_at sep (c ∷ s) =
    let (piece, rest) = break_at sep s in if c == sep then ([], some s) else (c ∷ piece, rest)

-- The loop of `split`, with fuel. Each round drops a separator.
pub split_loop : ℕ → ℕ → List ℕ → Option (List (List ℕ))
unfolding break_at
split_loop zero sep s = none
split_loop (suc fuel) sep s =
    let (piece, rest) = break_at sep s in
    elim rest [
      | none ↦ some (piece ∷ [])
      | some s' ↦ elim (split_loop fuel sep s') [ none ↦ none | some ps ↦ some (piece ∷ ps) ]
    ]

-- `StringUtil::split`.
unfoldable pub split : List ℕ → ℕ → Option (List (List ℕ))
unfolding split_loop
split s sep = split_loop (suc (length s)) sep s

-- `if (start < next) res.emplace_back(start, next)`.
abbrev pub keep_piece : List ℕ → List (List ℕ) → List (List ℕ)
keep_piece [] ps = ps
keep_piece (c ∷ p) ps = (c ∷ p) ∷ ps

pub split_filter_empty_loop : ℕ → ℕ → List ℕ → Option (List (List ℕ))
unfolding break_at
split_filter_empty_loop zero sep s = none
split_filter_empty_loop (suc fuel) sep s =
    let (piece, rest) = break_at sep s in
    elim rest [
      | none ↦ some (keep_piece piece [])
      | some s' ↦ elim (split_filter_empty_loop fuel sep s') [
        | none ↦ none
        | some ps ↦ some (keep_piece piece ps)
      ]
    ]

-- `StringUtil::split_filter_empty`.
unfoldable pub split_filter_empty : List ℕ → ℕ → Option (List (List ℕ))
unfolding split_filter_empty_loop
split_filter_empty s sep = split_filter_empty_loop (suc (length s)) sep s

-- The pieces with the separator between them.
abbrev pub join : ℕ → List (List ℕ) → List ℕ
join sep [] = []
join sep (p ∷ []) = p
join sep (p ∷ q ∷ ps) = p ++ (sep ∷ join sep (q ∷ ps))

abbrev pub Lacks : ℕ → List ℕ → Type 0
Lacks sep = All (λ c. c ≢ sep)

-- What `break_at` finds: a piece without the separator, and the string put together again.
record Broken (sep : ℕ) (s : List ℕ) (r : List ℕ × Option (List ℕ)) : Type 0 where
  lacks : Lacks sep r.0
  last : r.1 ≡ none → s ≡ r.0
  more : (t : List ℕ) → r.1 ≡ some t → s ≡ r.0 ++ (sep ∷ t)

break_at-Broken : (sep : ℕ) (s : List ℕ) → Broken sep s (break_at sep s)
unfolding break_at
break_at-Broken sep [] = ground arith
break_at-Broken sep (c ∷ s) =
    let v = break_at-Broken sep s in
    elim (Bool-cases (c == sep)) [
      | inl e ↦ ground (arith, (==_iff c sep).0 e)
      | inr e ↦ ground (arith, v.lacks, v.last, v.more)
    ]

length-middle : (xs : List ℕ) (c : ℕ) (ys : List ℕ) → length ys < length (xs ++ (c ∷ ys))
length-middle [] c ys = omega arith
length-middle (x ∷ xs) c ys = omega (arith, length-middle xs c ys)

-- The pieces of `s`: together they are `s`, none holds the separator, and there is at least one.
pub record Pieces (sep : ℕ) (s : List ℕ) (ps : List (List ℕ)) : Type 0 where
  pub joined : join sep ps ≡ s
  pub lacking : All (Lacks sep) ps
  pub nonempty : ps ≢ []

Pieces-last : (sep : ℕ) (s : List ℕ) → Lacks sep s → Pieces sep s (s ∷ [])
Pieces-last sep s h = record { joined = refl; lacking = (h, tt); nonempty = λ e. cc }

Pieces-cons :
    (sep : ℕ) (p s : List ℕ) (ps : List (List ℕ))
    → Lacks sep p
    → Pieces sep s ps
    → Pieces sep (p ++ (sep ∷ s)) (p ∷ ps)
Pieces-cons sep p s [] h v = absurd (v.nonempty refl)
Pieces-cons sep p s (q ∷ ps) h v = record {
  joined = ap (λ t. p ++ (sep ∷ t)) v.joined;
  lacking = (h, v.lacking);
  nonempty = λ e. cc;
}

split_loop-Pieces :
    (fuel sep : ℕ) (s : List ℕ)
    → length s < fuel
    → (ps : List (List ℕ)) × (split_loop fuel sep s ≡ some ps) × Pieces sep s ps
unfolding split_loop
split_loop-Pieces zero sep s h = absurd (omega arith)
split_loop-Pieces (suc fuel) sep s h =
    let v = break_at-Broken sep s in
    elim (Option-cases (break_at sep s).1) [
      | inl e ↦ (
        (break_at sep s).0 ∷ [],
        rw (e, split_loop),
        subst (λ u. Pieces sep u ((break_at sep s).0 ∷ [])) (sym (v.last e))
            (Pieces-last sep _ v.lacks),
      )
      | inr (t, e) ↦
          let (ps, run, pieces) =
            split_loop-Pieces fuel sep t
              (omega (arith, ap length (v.more t e), length-middle (break_at sep s).0 sep t)) in
          (
            (break_at sep s).0 ∷ ps,
            rw (e, split_loop, run),
            subst (λ u. Pieces sep u ((break_at sep s).0 ∷ ps)) (sym (v.more t e))
                (Pieces-cons sep (break_at sep s).0 t ps v.lacks pieces),
          )
    ]

-- `split` ends, and its pieces are exactly those between the separators: joined by `sep` they give
-- the string back, none of them holds `sep`, and there is always at least one.
pub split_lem :
    (s : List ℕ) (sep : ℕ) → (ps : List (List ℕ)) × (split s sep ≡ some ps) × Pieces sep s ps
unfolding split
split_lem s sep = split_loop-Pieces (suc (length s)) sep s (omega arith)

-- The pieces that are not empty.
abbrev pub non_empty : List (List ℕ) → List (List ℕ)
non_empty [] = []
non_empty (p ∷ ps) = keep_piece p (non_empty ps)

split_filter_empty_loop-split_loop :
    (fuel sep : ℕ) (s : List ℕ)
    → split_filter_empty_loop fuel sep s ≡ Option.map non_empty (split_loop fuel sep s)
unfolding split_loop split_filter_empty_loop
split_filter_empty_loop-split_loop zero sep s = refl
split_filter_empty_loop-split_loop (suc fuel) sep s = elim (Option-cases (break_at sep s).1) [
  | inl e ↦ rw (e, split_loop, split_filter_empty_loop)
  | inr (t, e) ↦
      rw (e, split_loop, split_filter_empty_loop, split_filter_empty_loop-split_loop fuel sep t)
        (ground arith)
]

-- `split_filter_empty` returns the pieces of `split` without the empty ones, in order.
pub split_filter_empty-split :
    (s : List ℕ) (sep : ℕ) → split_filter_empty s sep ≡ Option.map non_empty (split s sep)
unfolding split split_filter_empty
split_filter_empty-split s sep = split_filter_empty_loop-split_loop (suc (length s)) sep s

break_at-append :
    (sep : ℕ) (p t : List ℕ) → Lacks sep p → break_at sep (p ++ (sep ∷ t)) ≡ (p, some t)
unfolding break_at
break_at-append sep [] t h = ground arith
break_at-append sep (c ∷ p) t h = ground (arith, break_at-append sep p t h.1)

break_at_lacking : (sep : ℕ) (p : List ℕ) → Lacks sep p → break_at sep p ≡ (p, none)
unfolding break_at
break_at_lacking sep [] h = refl
break_at_lacking sep (c ∷ p) h = ground (arith, break_at_lacking sep p h.1)

split_loop-join :
    (fuel sep : ℕ) (p : List ℕ) (ps : List (List ℕ))
    → length ps < fuel
    → All (Lacks sep) (p ∷ ps)
    → split_loop fuel sep (join sep (p ∷ ps)) ≡ some (p ∷ ps)
unfolding split_loop
split_loop-join zero sep p ps h v = absurd (omega arith)
split_loop-join (suc fuel) sep p [] h v = ground (arith, break_at_lacking sep p v.0)
split_loop-join (suc fuel) sep p (q ∷ ps) h v = ground (
  arith,
  break_at-append sep p (join sep (q ∷ ps)) v.0,
  split_loop-join fuel sep q ps (omega arith) v.1,
)

length-join : (sep : ℕ) (p : List ℕ) (ps : List (List ℕ)) → length ps ≤ length (join sep (p ∷ ps))
length-join sep p [] = omega arith
length-join sep p (q ∷ ps) =
    omega (arith, length-join sep q ps, length-middle p sep (join sep (q ∷ ps)))

-- Conversely `split` finds exactly the pieces that were joined, if none of them holds `sep`.
pub split-join :
    (sep : ℕ) (p : List ℕ) (ps : List (List ℕ))
    → All (Lacks sep) (p ∷ ps)
    → split (join sep (p ∷ ps)) sep ≡ some (p ∷ ps)
unfolding split
split-join sep p ps v =
    split_loop-join (suc (length (join sep (p ∷ ps)))) sep p ps
      (omega (arith, length-join sep p ps)) v
