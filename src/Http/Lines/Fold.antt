-- ===== src/Http/Lines/Fold.antt =====
-- The outer loop of `__parse_header_value` in src/protocol/http_parser.c: it ends, its buffer does
-- not overflow, and its result does not depend on how the input arrives.
use myworkflow.Base.{
  ℕ, zero, suc, ◌≤◌, ◌<◌, ◌≡◌, refl, Option, some, List, [], ◌∷◌, ◌++◌, arith, subst, length,
  length-append, ap, Bool, true, false, none, ◌∙◌, ◌-◌, Bool-cases, inl, inr,
}
use myworkflow.Http.Types.{http_header_value_max}
use myworkflow.Http.Lines.{
  ValueScan, value, short, bad, is_blank, is_stored, skip_blank, read_value, fold_line, value_line,
  scan_value,
}
use myworkflow.Http.Lines.Value.{
  Reads, Leaves, Follows, Reads-mono, read_value-Reads, Follows-short, Reads-Leaves,
  value_line-Reads, value_line-Follows,
}

fold_line-Reads :
    (next : List ℕ → List ℕ → Option ValueScan) (m n : ℕ) (r : ValueScan)
    → ((w t : List ℕ)
        → length w ≤ http_header_value_max
        → length t < m
        → (q : ValueScan) × (next w t ≡ some q) × Reads 2 http_header_value_max (length t) q)
    → n ≤ m
    → Reads 2 http_header_value_max n r
    → (q : ValueScan) × (fold_line next r ≡ some q) × Reads 2 http_header_value_max n q
unfolding fold_line
fold_line-Reads next m n (value w []) k h v = absurd (omega arith)
fold_line-Reads next m n (value w (c ∷ t)) k h v =
    let (q, e, u) = k (w ++ (32 ∷ [])) t (omega (arith, length-append w (32 ∷ []))) (omega arith) in
    elim (Bool-cases (is_blank c)) [
      | inl blank ↦ (
        q,
        rw (blank, fold_line) e,
        Reads-mono 2 2 http_header_value_max (length t) n q (omega arith) u,
      )
      | inr ends ↦ (value w (c ∷ t), rw (ends, fold_line), v)
    ]
fold_line-Reads next m n short k h v = (short, refl, tt)
fold_line-Reads next m n bad k h v = (bad, refl, tt)

is_stored-Reads :
    (v : List ℕ) (n : ℕ) (r : ValueScan)
    → length v ≤ http_header_value_max
    → Reads 1 (http_header_value_max - length v) n r
    → is_stored v r ≡ true
is_stored-Reads v n (value w t) h (a, b, c) = ground arith
is_stored-Reads v n short h k = ground arith
is_stored-Reads v n bad h k = ground arith

-- A round whose bytes are inside the array.
scan_value-stored :
    (fuel : ℕ) (v s : List ℕ)
    → is_stored v (read_value (http_header_value_max - length v) (skip_blank s)) ≡ true
    → scan_value (suc fuel) v s ≡ fold_line (scan_value fuel) (value_line v s)
unfolding scan_value
scan_value-stored fuel v s h =
    ap (λ b. elim b [ true ↦ fold_line (scan_value fuel) (value_line v s) | false ↦ none ]) h

-- A round that gives a result.
scan_value-some :
    (fuel : ℕ) (v s : List ℕ) (r : ValueScan)
    → scan_value (suc fuel) v s ≡ some r
    → fold_line (scan_value fuel) (value_line v s) ≡ some r
unfolding scan_value
scan_value-some fuel v s r e =
    let go : Bool → Option ValueScan =
      λ b. elim b [ true ↦ fold_line (scan_value fuel) (value_line v s) | false ↦ none ] in
    elim (Bool-cases (is_stored v (read_value (http_header_value_max - length v) (skip_blank s)))) [
      | inl in_array ↦ subst (λ b. go b ≡ some r) in_array e
      | inr out ↦ let e' : none ≡ some r = subst (λ b. go b ≡ some r) out e in cc
    ]

pub scan_value_total :
    (fuel : ℕ) (v s : List ℕ)
    → length v ≤ http_header_value_max
    → length s < fuel
    → (r : ValueScan) × (scan_value fuel v s ≡ some r) × Reads 2 http_header_value_max (length s) r
scan_value_total zero v s i h = absurd (omega arith)
scan_value_total (suc fuel) v s i h =
    let room = http_header_value_max - length v in
    let read = read_value-Reads room (skip_blank s) in
    let inside =
      is_stored-Reads v (length (skip_blank s)) (read_value room (skip_blank s)) i read in
    let (r, e, u) =
      fold_line-Reads (scan_value fuel) fuel (length s) (value_line v s)
        (λ w t j k. scan_value_total fuel w t j k) (omega arith) (value_line-Reads v s) in
    (r, scan_value-stored fuel v s inside ∙ e, u)

Leaves-mono : (m n : ℕ) (r : ValueScan) → m ≤ n → Leaves m r → Leaves n r
Leaves-mono m n (value w t) h v = omega arith
Leaves-mono m n short h v = tt
Leaves-mono m n bad h v = tt

fold_line-Leaves :
    (next : List ℕ → List ℕ → Option ValueScan)
    → ((w t : List ℕ) (q : ValueScan) → next w t ≡ some q → Leaves (length t) q)
    → (r : ValueScan) (n : ℕ) (q : ValueScan) → Leaves n r
    → fold_line next r ≡ some q
    → Leaves n q
unfolding fold_line
fold_line-Leaves next k (value w []) n q v e = ground arith
fold_line-Leaves next k (value w (c ∷ t)) n q v e = elim (Bool-cases (is_blank c)) [
  | inl blank ↦
      Leaves-mono (length t) n q (omega arith) (k (w ++ (32 ∷ [])) t q (rw (blank, fold_line) at e))
  | inr ends ↦ ground arith
]
fold_line-Leaves next k short n q v e = ground arith
fold_line-Leaves next k bad n q v e = ground arith

scan_value-Leaves :
    (fuel : ℕ) (v s : List ℕ) (r : ValueScan) → scan_value fuel v s ≡ some r → Leaves (length s) r
scan_value-Leaves zero v s r e = unfold scan_value in cc
scan_value-Leaves (suc fuel) v s r e =
    fold_line-Leaves (scan_value fuel) (λ w t q k. scan_value-Leaves fuel w t q k) (value_line v s)
      (length s) r
      (Reads-Leaves 2 http_header_value_max (length s) (value_line v s) (value_line-Reads v s))
      (scan_value-some fuel v s r e)

fold_line-Follows :
    (next next' : List ℕ → List ℕ → Option ValueScan) (b : List ℕ)
    → ((w t : List ℕ) (q q' : ValueScan)
        → next w t ≡ some q
        → next' w (t ++ b) ≡ some q'
        → Follows b q q')
    → ((w t : List ℕ) (q : ValueScan) → next' w t ≡ some q → Leaves (length t) q)
    → (r r' : ValueScan) → Follows b r r'
    → (q q' : ValueScan) → fold_line next r ≡ some q
    → fold_line next' r' ≡ some q'
    → Follows b q q'
unfolding fold_line
fold_line-Follows next next' b k l (value w []) r' h q q' e e' =
    let short_is : short ≡ q = cc in
    subst (λ x. Follows b x q') short_is
      (Follows-short b q' (length b) (omega arith)
        (fold_line-Leaves next' l (value w b) (length b) q' (omega arith) (rw h at e')))
fold_line-Follows next next' b k l (value w (c ∷ t)) r' h q q' e e' =
    let e'' = rw h at e' in
    elim (Bool-cases (is_blank c)) [
      | inl blank ↦ k (w ++ (32 ∷ [])) t q q' (rw blank at e) (rw blank at e'')
      | inr ends ↦
          let found : some (value w (c ∷ t)) ≡ some q = rw ends at e in
          let found' : some (value w (c ∷ (t ++ b))) ≡ some q' = rw ends at e'' in
          let q_is : value w (c ∷ t) ≡ q = cc in subst (λ x. Follows b x q') q_is (cc)
    ]
fold_line-Follows next next' b k l bad r' h q q' e e' = ground arith
fold_line-Follows next next' b k l short (value w t) h q q' e e' =
    let short_is : short ≡ q = cc in
    subst (λ x. Follows b x q') short_is
      (Follows-short b q' (length t) h
        (fold_line-Leaves next' l (value w t) (length t) q' (omega arith) e'))
fold_line-Follows next next' b k l short short h q q' e e' = ground arith
fold_line-Follows next next' b k l short bad h q q' e e' = ground arith

-- What more input changes: nothing, where the loop has found a value or an error.
pub scan_value-Follows :
    (fuel fuel' : ℕ) (v s b : List ℕ) (r r' : ValueScan)
    → scan_value fuel v s ≡ some r
    → scan_value fuel' v (s ++ b) ≡ some r'
    → Follows b r r'
scan_value-Follows zero fuel' v s b r r' e e' = unfold scan_value in cc
scan_value-Follows (suc fuel) zero v s b r r' e e' = unfold scan_value in cc
scan_value-Follows (suc fuel) (suc fuel') v s b r r' e e' =
    fold_line-Follows (scan_value fuel) (scan_value fuel') b
      (λ w t q q' k k'. scan_value-Follows fuel fuel' w t b q q' k k')
      (λ w t q k. scan_value-Leaves fuel' w t q k) (value_line v s) (value_line v (s ++ b))
      (value_line-Follows v s b) r r' (scan_value-some fuel v s r e)
      (scan_value-some fuel' v (s ++ b) r' e')
