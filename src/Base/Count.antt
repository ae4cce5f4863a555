-- ===== src/Base/Count.antt =====
-- How often a number stands in a list.
use Prim.Native.Nat.{ℕ, suc, ◌+◌}
use mathlib.Core.Path.{◌≡◌}
use mathlib.Core.List.{List, [], ◌∷◌, ◌++◌}
use native.Mathlib.Omega.{arith}
use myworkflow.Base.Tests.{◌==◌, if◌then◌else◌}

abbrev pub count : ℕ → List ℕ → ℕ
count q [] = 0
count q (x ∷ xs) = if x == q then suc (count q xs) else count q xs

pub count-append : (q : ℕ) (xs ys : List ℕ) → count q (xs ++ ys) ≡ count q xs + count q ys
count-append q [] ys = omega arith
count-append q (x ∷ xs) ys = ground (arith, count-append q xs ys)

pub count-middle :
    (r q : ℕ) (xs ys : List ℕ) → count r (xs ++ (q ∷ ys)) ≡ count r (xs ++ ys) + count r (q ∷ [])
count-middle r q [] ys = ground arith
count-middle r q (x ∷ xs) ys = ground (arith, count-middle r q xs ys)
