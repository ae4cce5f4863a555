-- ===== src/StringUtil/Affix.antt =====
-- `strip` and `start_with` of src/util/StringUtil.cc.
use myworkflow.Base.{
  ℕ, ◌≡◌, refl, sym, ap, ap₂, subst, ◌∙◌, inl, inr, Bool, true, false, ◌&&◌, List, [], ◌∷◌, ◌++◌,
  ltb, ◌==◌, if◌then◌else◌, arith, length, is_space, All, Bool-cases, ==_iff, length-append,
}

-- The first loop of `strip`, which moves `st`.
pub skip_spaces : List ℕ → List ℕ
skip_spaces [] = []
skip_spaces (c ∷ s) = let rest = skip_spaces s in if is_space c then rest else c ∷ s

-- One byte before what the second loop has left.
abbrev keep_end : ℕ → List ℕ → List ℕ
keep_end c [] = if is_space c then [] else c ∷ []
keep_end c (d ∷ t) = c ∷ d ∷ t

-- The second loop, which moves `ed`: what it leaves of a string.
skip_end_spaces : List ℕ → List ℕ
skip_end_spaces [] = []
skip_end_spaces (c ∷ s) = keep_end c (skip_end_spaces s)

-- `StringUtil::strip`.
pub strip : List ℕ → List ℕ
unfolding skip_spaces skip_end_spaces
strip str = skip_end_spaces (skip_spaces str)

-- The loop of `start_with`, where the string is as long as the prefix at least.
same_bytes : List ℕ → List ℕ → Bool
same_bytes str [] = true
same_bytes [] (d ∷ prefix) = false
same_bytes (c ∷ str) (d ∷ prefix) = c == d && same_bytes str prefix

-- `StringUtil::start_with`.
pub start_with : List ℕ → List ℕ → Bool
unfolding same_bytes
start_with str prefix = if ltb (length str) (length prefix) then false else same_bytes str prefix

abbrev pub AreSpaces : List ℕ → Type 0
AreSpaces = All (λ c. is_space c ≡ true)

-- No space begins the string, and none ends it.
abbrev pub BeginsPlain : List ℕ → Type 0
BeginsPlain [] = Unit {0}
BeginsPlain (c ∷ t) = is_space c ≡ false

abbrev pub EndsPlain : List ℕ → Type 0
EndsPlain [] = Unit {0}
EndsPlain (c ∷ []) = is_space c ≡ false
EndsPlain (c ∷ d ∷ t) = EndsPlain (d ∷ t)

skip_spaces-plain : (s : List ℕ) → BeginsPlain (skip_spaces s)
unfolding skip_spaces
skip_spaces-plain [] = tt
skip_spaces-plain (c ∷ s) = elim (Bool-cases (is_space c)) [
  | inl h ↦ rw h (skip_spaces-plain s)
  | inr h ↦ subst (λ b. BeginsPlain (if b then skip_spaces s else c ∷ s)) (sym h) h
]

skip_spaces-spaces : (s : List ℕ) → (pre : List ℕ) × AreSpaces pre × (s ≡ pre ++ skip_spaces s)
unfolding skip_spaces
skip_spaces-spaces [] = ([], tt, refl)
skip_spaces-spaces (c ∷ s) = elim (Bool-cases (is_space c)) [
  | inl h ↦
      let (pre, spaces, e) = skip_spaces-spaces s in (c ∷ pre, (h, spaces), rw h (ap (c ∷◌) e))
  | inr h ↦ ([], tt, rw h)
]

keep_end-plain : (c : ℕ) (t : List ℕ) → EndsPlain t → EndsPlain (keep_end c t)
keep_end-plain c [] k = elim (Bool-cases (is_space c)) [
  | inl h ↦ rw h tt
  | inr h ↦ subst (λ b. EndsPlain (if b then [] else c ∷ [])) (sym h) h
]
keep_end-plain c (d ∷ t) k = k

keep_end-spaces :
    (c : ℕ) (t post : List ℕ)
    → AreSpaces post
    → (x : List ℕ) × AreSpaces x × (c ∷ t ++ post ≡ keep_end c t ++ x)
keep_end-spaces c [] post spaces = elim (Bool-cases (is_space c)) [
  | inl h ↦ (c ∷ post, (h, spaces), rw h)
  | inr h ↦ (post, spaces, rw h)
]
keep_end-spaces c (d ∷ t) post spaces = (post, spaces, refl)

skip_end_spaces-plain : (s : List ℕ) → EndsPlain (skip_end_spaces s)
unfolding skip_end_spaces
skip_end_spaces-plain [] = tt
skip_end_spaces-plain (c ∷ s) = keep_end-plain c (skip_end_spaces s) (skip_end_spaces-plain s)

skip_end_spaces-spaces :
    (s : List ℕ) → (post : List ℕ) × AreSpaces post × (s ≡ skip_end_spaces s ++ post)
unfolding skip_end_spaces
skip_end_spaces-spaces [] = ([], tt, refl)
skip_end_spaces-spaces (c ∷ s) =
    let (post, spaces, e) = skip_end_spaces-spaces s in
    let (x, more, e') = keep_end-spaces c (skip_end_spaces s) post spaces in
    (x, more, ap (c ∷◌) e ∙ e')

keep_end-begins : (c : ℕ) (t : List ℕ) → is_space c ≡ false → BeginsPlain (keep_end c t)
keep_end-begins c [] h = subst (λ b. BeginsPlain (if b then [] else c ∷ [])) (sym h) h
keep_end-begins c (d ∷ t) h = h

-- A string that begins with no space still begins so when the spaces at its end are left out.
skip_end_spaces-begins : (s : List ℕ) → BeginsPlain s → BeginsPlain (skip_end_spaces s)
unfolding skip_end_spaces
skip_end_spaces-begins [] b = tt
skip_end_spaces-begins (c ∷ s) b = keep_end-begins c (skip_end_spaces s) b

-- `strip` leaves out spaces alone, from the begin and the end of the string, and what it gives begins
-- and ends with none.
pub strip_lem :
    (s : List ℕ)
    → ((pre post : List ℕ) × AreSpaces pre × AreSpaces post × (s ≡ pre ++ (strip s ++ post)))
      × BeginsPlain (strip s)
      × EndsPlain (strip s)
unfolding strip
strip_lem s =
    let (pre, spaces, e) = skip_spaces-spaces s in
    let (post, spaces', e') = skip_end_spaces-spaces (skip_spaces s) in
    (
      (pre, post, spaces, spaces', e ∙ ap (pre ++◌) e'),
      skip_end_spaces-begins (skip_spaces s) (skip_spaces-plain s),
      skip_end_spaces-plain (skip_spaces s),
    )

both : (a b : Bool) → (a && b) ≡ true → (a ≡ true) × (b ≡ true)
both true b h = (refl, h)
both false b h = cc

long-append : (p rest : List ℕ) → ltb (length (p ++ rest)) (length p) ≡ false
long-append p rest = let e = length-append p rest in ground arith

same_bytes-prefix : (s p : List ℕ) → same_bytes s p ≡ true → (rest : List ℕ) × (s ≡ p ++ rest)
unfolding same_bytes
same_bytes-prefix s [] h = (s, refl)
same_bytes-prefix [] (d ∷ p) h = cc
same_bytes-prefix (c ∷ s) (d ∷ p) h =
    let (same, h') = both (c == d) (same_bytes s p) h in
    let (rest, e) = same_bytes-prefix s p h' in (rest, ap₂ ◌∷◌ ((==_iff c d).0 same) e)

same_bytes-append : (p rest : List ℕ) → same_bytes (p ++ rest) p ≡ true
unfolding same_bytes
same_bytes-append [] rest = refl
same_bytes-append (c ∷ p) rest = rw ((==_iff c c).1 refl) (same_bytes-append p rest)

-- A string that starts with the prefix is the prefix and something behind it, and every such string
-- starts with it.
start_with_lem :
    (s p : List ℕ)
    → (start_with s p ≡ true → (rest : List ℕ) × (s ≡ p ++ rest))
      × ((rest : List ℕ) → start_with (p ++ rest) p ≡ true)
unfolding start_with
start_with_lem s p = (
  (λ h. elim (Bool-cases (ltb (length s) (length p))) [
    | inl short ↦ let h' = rw short at h in cc
    | inr fits ↦ same_bytes-prefix s p (rw fits at h)
  ]),
  (λ rest. rw (long-append p rest) (same_bytes-append p rest)),
)
