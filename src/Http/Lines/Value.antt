-- ===== src/Http/Lines/Value.antt =====
-- The loops of `__parse_header_value` in src/protocol/http_parser.c: how much they read, that the
-- buffer of the value does not overflow, and what more input changes.
use myworkflow.Base.{
  ℕ, zero, suc, ◌+◌, ◌-◌, ◌≤◌, ◌<◌, ◌≡◌, refl, List, [], ◌∷◌, ◌++◌, arith, length, length-append,
  length-take, ◌⊎◌, inl, inr,
}
use myworkflow.Http.Types.{http_header_value_max}
use myworkflow.Http.Lines.{
  ValueScan, value, short, bad, skip_blank, read_value, trim_end, after_cr, trimmed, end_line,
  value_line,
}

pub length-skip_blank : (s : List ℕ) → length (skip_blank s) ≤ length s
unfolding skip_blank
length-skip_blank [] = omega arith
length-skip_blank (c ∷ s) = ground (arith, length-skip_blank s)

pub trim_end-le : (v : List ℕ) (n : ℕ) → trim_end v n ≤ n
unfolding trim_end
trim_end-le v zero = omega arith
trim_end-le v (suc n) = ground (arith, trim_end-le v n)

-- Of `n` bytes at least `k` are read, at least one is left, and the value is shorter than `room`.
abbrev pub Reads : ℕ → ℕ → ℕ → ValueScan → Type 0
Reads k room n (value v t) = (length v < room) × (length t + k ≤ n) × (1 ≤ length t)
Reads k room n short = Unit
Reads k room n bad = Unit

-- At most `n` bytes are left.
abbrev pub Leaves : ℕ → ValueScan → Type 0
Leaves n (value v t) = length t ≤ n
Leaves n short = Unit
Leaves n bad = Unit

-- A scan of the input with `b` behind it.
abbrev pub Follows : List ℕ → ValueScan → ValueScan → Type 0
Follows b (value v t) y = y ≡ value v (t ++ b)
Follows b bad y = y ≡ bad
Follows b short (value v t) = length t ≤ length b
Follows b short short = Unit
Follows b short bad = Unit

pub read_value-Reads : (room : ℕ) (s : List ℕ) → Reads 1 room (length s) (read_value room s)
unfolding read_value
read_value-Reads zero [] = tt
read_value-Reads zero (c ∷ s) = tt
read_value-Reads (suc room) [] = tt
read_value-Reads (suc room) (c ∷ []) = tt
read_value-Reads (suc room) (c ∷ d ∷ s) = ground (arith, read_value-Reads room (d ∷ s))

pub read_value-Follows :
    (room : ℕ) (s b : List ℕ) → Follows b (read_value room s) (read_value room (s ++ b))
unfolding read_value
read_value-Follows zero [] [] = tt
read_value-Follows zero [] (c ∷ b) = tt
read_value-Follows zero (c ∷ s) b = refl
read_value-Follows (suc room) [] b = ground (arith, read_value-Reads (suc room) b)
read_value-Follows (suc room) (c ∷ []) [] = tt
read_value-Follows (suc room) (c ∷ []) (d ∷ b) = ground (arith, read_value-Reads room (d ∷ b))
read_value-Follows (suc room) (c ∷ d ∷ s) b = ground (arith, read_value-Follows room (d ∷ s) b)

after_cr-Reads : (s : List ℕ) → Reads 1 1 (length s) (after_cr s)
unfolding after_cr
after_cr-Reads [] = tt
after_cr-Reads (c ∷ []) = ground arith
after_cr-Reads (c ∷ d ∷ s) = ground arith

after_cr-Follows : (s b : List ℕ) → Follows b (after_cr s) (after_cr (s ++ b))
unfolding after_cr
after_cr-Follows [] [] = tt
after_cr-Follows [] (c ∷ []) = ground arith
after_cr-Follows [] (c ∷ d ∷ b) = ground arith
after_cr-Follows (c ∷ []) [] = ground arith
after_cr-Follows (c ∷ []) (d ∷ b) = ground arith
after_cr-Follows (c ∷ d ∷ s) b = ground arith

skip_blank-append :
    (s b : List ℕ)
    → (skip_blank s ≡ []) × (skip_blank (s ++ b) ≡ skip_blank b)
      ⊎ (skip_blank (s ++ b) ≡ skip_blank s ++ b)
unfolding skip_blank
skip_blank-append [] b = inl (refl, refl)
skip_blank-append (c ∷ s) b = ground (arith, skip_blank-append s b)

trimmed-Reads :
    (w : List ℕ) (r : ValueScan) (n : ℕ)
    → length w < http_header_value_max
    → Reads 1 1 n r
    → Reads 1 http_header_value_max n (trimmed w r)
unfolding trimmed
trimmed-Reads w (value _ u) n h v =
    omega (arith, length-take (trim_end w (length w)) w, trim_end-le w (length w))
trimmed-Reads w short n h v = tt
trimmed-Reads w bad n h v = tt

pub Reads-mono :
    (k j room m n : ℕ) (r : ValueScan) → m + j ≤ n + k → Reads k room m r → Reads j room n r
Reads-mono k j room m n (value w t) h v = omega arith
Reads-mono k j room m n short h v = tt
Reads-mono k j room m n bad h v = tt

end_line-Reads :
    (v : List ℕ) (r : ValueScan) (n : ℕ)
    → Reads 1 (http_header_value_max - length v) n r
    → Reads 2 http_header_value_max n (end_line v r)
unfolding end_line
end_line-Reads v (value w t) n h =
    Reads-mono 1 2 http_header_value_max (length t) n (trimmed (v ++ w) (after_cr t)) (omega arith)
      (trimmed-Reads (v ++ w) (after_cr t) (length t) (omega (arith, length-append v w))
        (after_cr-Reads t))
end_line-Reads v short n h = tt
end_line-Reads v bad n h = tt

pub value_line-Reads : (v s : List ℕ) → Reads 2 http_header_value_max (length s) (value_line v s)
unfolding value_line
value_line-Reads v s =
    end_line-Reads v (read_value (http_header_value_max - length v) (skip_blank s)) (length s) (
      Reads-mono 1 1 (http_header_value_max - length v) (length (skip_blank s)) (length s)
        (read_value (http_header_value_max - length v) (skip_blank s))
        (omega (arith, length-skip_blank s))
        (read_value-Reads (http_header_value_max - length v) (skip_blank s)))

-- What a scan reads less of than there is new input, it may find there.
pub Follows-short :
    (b : List ℕ) (r : ValueScan) (n : ℕ) → n ≤ length b → Leaves n r → Follows b short r
Follows-short b (value w t) n h v = omega arith
Follows-short b short n h v = tt
Follows-short b bad n h v = tt

pub Reads-Leaves : (k room n : ℕ) (r : ValueScan) → Reads k room n r → Leaves n r
Reads-Leaves k room n (value w t) v = omega arith
Reads-Leaves k room n short v = tt
Reads-Leaves k room n bad v = tt

trimmed-Reads-left : (w : List ℕ) (r : ValueScan) (n : ℕ) → Reads 1 1 n r → Leaves n (trimmed w r)
unfolding trimmed
trimmed-Reads-left w (value _ t) n v = omega arith
trimmed-Reads-left w short n v = tt
trimmed-Reads-left w bad n v = tt

trimmed-Follows :
    (w b : List ℕ) (r r' : ValueScan) → Follows b r r' → Follows b (trimmed w r) (trimmed w r')
unfolding trimmed
trimmed-Follows w b (value v t) r' h = rw h
trimmed-Follows w b short r' h = ground arith
trimmed-Follows w b bad r' h = rw h

end_line-Follows :
    (v b : List ℕ) (r r' : ValueScan) → Follows b r r' → Follows b (end_line v r) (end_line v r')
unfolding end_line
end_line-Follows v b (value w t) r' h = rw h (trimmed-Follows (v ++ w) b _ _ (after_cr-Follows t b))
end_line-Follows v b bad r' h = rw h
end_line-Follows v b short (value w t) h =
    Follows-short b (trimmed (v ++ w) (after_cr t)) (length t) h
      (trimmed-Reads-left (v ++ w) (after_cr t) (length t) (after_cr-Reads t))
end_line-Follows v b short short h = tt
end_line-Follows v b short bad h = tt

pub value_line-Follows : (v s b : List ℕ) → Follows b (value_line v s) (value_line v (s ++ b))
unfolding value_line
value_line-Follows v s b = elim (skip_blank-append s b) [
  | inl (e, e') ↦
      rw (e, e')
        (end_line-Follows v b short (read_value (http_header_value_max - length v) (skip_blank b)) (
          Follows-short b (read_value (http_header_value_max - length v) (skip_blank b))
            (length (skip_blank b)) (length-skip_blank b)
            (Reads-Leaves 1 (http_header_value_max - length v) (length (skip_blank b))
              (read_value (http_header_value_max - length v) (skip_blank b))
              (read_value-Reads (http_header_value_max - length v) (skip_blank b)))))
  | inr e ↦ rw e (
      end_line-Follows v b (read_value (http_header_value_max - length v) (skip_blank s))
        (read_value (http_header_value_max - length v) (skip_blank s ++ b))
        (read_value-Follows (http_header_value_max - length v) (skip_blank s) b))
]
