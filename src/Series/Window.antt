-- ===== src/Series/Window.antt =====
-- The tasks in the circular queue of a `SeriesWork` (src/factory/Workflow.cc), read from an index on.
use myworkflow.Base.{
  true, false, ℕ, zero, suc, ◌+◌, ◌-◌, ◌≤◌, ◌<◌, ◌≡◌, ◌≢◌, refl, sym, ap, ap₂, ◌∙◌, none, List, [],
  ◌∷◌, ◌++◌, arith, leb, ◌==◌, if◌then◌else◌, length, get_or, set, length-set, get_or-set_self,
  get_or-set_ne,
}
use myworkflow.Series.{Slot, next_index, prev_index}

-- An index that has gone round at most once.
abbrev pub wrap : ℕ → ℕ → ℕ
wrap size i = if leb size i then i - size else i

-- The `n` slots from index `i` on.
abbrev pub window : List Slot → ℕ → ℕ → ℕ → List Slot
window q size i zero = []
window q size i (suc n) = get_or q i none ∷ window q size (next_index size i) n

module _ (size : ℕ) where
  pub wrap-next :
      (i m : ℕ)
      → i < size
      → suc m ≤ size
      → wrap size (next_index size i + m) ≡ wrap size (i + suc m)
  wrap-next i m h k = ground arith

  pub next_index-lt : (i : ℕ) → i < size → next_index size i < size
  next_index-lt i h = ground arith

  pub wrap-lt : (i m : ℕ) → i < size → m < size → wrap size (i + m) < size
  wrap-lt i m h k = ground arith

  wrap-ne : (i m : ℕ) → i < size → 1 ≤ m → m < size → wrap size (i + m) ≢ i
  wrap-ne i m h k l = ground arith

  -- A write outside the window.
  pub window-set_ne :
      (q : List Slot) (i n m : ℕ) (v : Slot)
      → i < size
      → n ≤ m
      → m < size
      → window (set q (wrap size (i + m)) v) size i n ≡ window q size i n
  window-set_ne q i zero m v h k l = refl
  window-set_ne q i (suc n) zero v h k l = absurd (omega arith)
  window-set_ne q i (suc n) (suc m) v h k l =
      ap₂ ◌∷◌
        (get_or-set_ne q (wrap size (i + suc m)) i v none (wrap-ne i (suc m) h (omega arith) l))
        (ap (λ p. window (set q p v) size (next_index size i) n)
            (sym (wrap-next i m h (omega arith)))
          ∙ window-set_ne q (next_index size i) n m v (next_index-lt i h) (omega arith)
              (omega arith))

  pub window-snoc :
      (q : List Slot) (i n : ℕ)
      → i < size
      → n < size
      → window q size i (suc n) ≡ window q size i n ++ (get_or q (wrap size (i + n)) none ∷ [])
  window-snoc q i zero h k = ap (λ p. get_or q p none ∷ []) (ground arith)
  window-snoc q i (suc n) h k =
      ap (λ t. get_or q i none ∷ t)
        (window-snoc q (next_index size i) n (next_index-lt i h) (omega arith)
          ∙ ap (λ p. window q size (next_index size i) n ++ (get_or q p none ∷ []))
              (wrap-next i n h (omega arith)))

-- The slots written one after another.
abbrev pub fill : List Slot → ℕ → List Slot → List Slot
fill to i [] = to
fill to i (x ∷ xs) = fill (set to i x) (i + 1) xs

get_or-fill :
    (to xs : List Slot) (i j : ℕ) → j < i → get_or (fill to i xs) j none ≡ get_or to j none
get_or-fill to [] i j h = refl
get_or-fill to (x ∷ xs) i j h =
    get_or-fill (set to i x) xs (i + 1) j (omega arith) ∙ get_or-set_ne to i j x none (omega arith)

pub length-fill : (to xs : List Slot) (i : ℕ) → length (fill to i xs) ≡ length to
length-fill to [] i = refl
length-fill to (x ∷ xs) i = length-fill (set to i x) xs (i + 1) ∙ length-set to i x

-- What was written is read back.
pub window-fill :
    (size : ℕ) (to xs : List Slot) (i : ℕ)
    → i + length xs ≤ length to
    → i + length xs < size
    → window (fill to i xs) size i (length xs) ≡ xs
window-fill size to [] i h k = refl
window-fill size to (x ∷ xs) i h k =
    ap₂ ◌∷◌
      (get_or-fill (set to i x) xs (i + 1) i (omega arith)
        ∙ get_or-set_self to i x none (omega arith))
      (ap (λ j. window (fill (set to i x) (i + 1) xs) size j (length xs)) (ground arith)
        ∙ window-fill size (set to i x) xs (i + 1) (omega (arith, length-set to i x)) (omega arith))

module _ (size front back n : ℕ) (front_in : front < size) (room : n < size)
    (ends : back ≡ wrap size (front + n)) where
  pub back-next : next_index size back ≡ wrap size (front + suc n)
  back-next = ground arith

  pub back-room : (front == next_index size back) ≡ false → suc n < size
  back-room h = ground arith

  pub back-full :
      (front == next_index size back) ≡ true → (suc n ≡ size) × (next_index size back ≡ front)
  back-full h = ground arith

  pub prev_index-lt : prev_index size front < size
  prev_index-lt = ground arith

  pub prev_index-next : next_index size (prev_index size front) ≡ front
  prev_index-next = ground arith

  pub prev_index-wrap : prev_index size front ≡ wrap size (front + (size - 1))
  prev_index-wrap = ground arith

  pub prev_index-ends : back ≡ wrap size (prev_index size front + suc n)
  prev_index-ends = ground arith

  pub front-room : (prev_index size front == back) ≡ false → suc n < size
  front-room h = ground arith

  pub front-full :
      (prev_index size front == back) ≡ true → (suc n ≡ size) × (back ≡ prev_index size front)
  front-full h = ground arith
