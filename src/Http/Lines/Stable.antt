-- ===== src/Http/Lines/Stable.antt =====
-- The line and name scans of src/protocol/http_parser.c: how much they read, and what more input
-- behind the message changes.
use myworkflow.Base.{
  ℕ, zero, suc, ◌+◌, ◌≤◌, ◌<◌, ◌≡◌, refl, Bool, List, [], ◌∷◌, ◌++◌, arith, length,
}
use myworkflow.Http.Lines.{LineScan, line, short, bad, scan_line, scan_name}

-- A line that was found is shorter than the room, and stands in the input with `k` more bytes.
abbrev pub Fits : ℕ → ℕ → ℕ → LineScan → Type 0
Fits k room n (line l) = (length l < room) × (length l + k ≤ n)
Fits k room n short = Unit
Fits k room n bad = Unit

-- A scan `y` of longer input agrees with `x`, unless `x` waits: then it finds no line that ends in
-- the first `n` bytes.
abbrev pub Extends : ℕ → ℕ → LineScan → LineScan → Type 0
Extends k n (line l) y = y ≡ line l
Extends k n bad y = y ≡ bad
Extends k n short (line l) = n < length l + k
Extends k n short short = Unit
Extends k n short bad = Unit

module _ (refused : ℕ → Bool) where
  pub scan_line-Fits : (room : ℕ) (s : List ℕ) → Fits 2 room (length s) (scan_line refused room s)
  unfolding scan_line
  scan_line-Fits zero s = tt
  scan_line-Fits (suc room) [] = tt
  scan_line-Fits (suc room) (c ∷ []) = ground (arith, scan_line-Fits room [])
  scan_line-Fits (suc room) (c ∷ d ∷ s) = ground (arith, scan_line-Fits room (d ∷ s))

  pub scan_line-Extends :
      (room : ℕ) (s b : List ℕ)
      → Extends 2 (length s) (scan_line refused room s) (scan_line refused room (s ++ b))
  unfolding scan_line
  scan_line-Extends zero s b = refl
  scan_line-Extends (suc room) [] b = ground (arith, scan_line-Fits (suc room) b)
  scan_line-Extends (suc room) (c ∷ []) b = ground (arith, scan_line-Extends room [] b)
  scan_line-Extends (suc room) (c ∷ d ∷ s) b = ground (arith, scan_line-Extends room (d ∷ s) b)

pub scan_name-Fits : (room : ℕ) (s : List ℕ) → Fits 1 room (length s) (scan_name room s)
unfolding scan_name
scan_name-Fits zero s = tt
scan_name-Fits (suc room) [] = tt
scan_name-Fits (suc room) (c ∷ s) = ground (arith, scan_name-Fits room s)

pub scan_name-Extends :
    (room : ℕ) (s b : List ℕ) → Extends 1 (length s) (scan_name room s) (scan_name room (s ++ b))
unfolding scan_name
scan_name-Extends zero s b = refl
scan_name-Extends (suc room) [] b = ground (arith, scan_name-Fits (suc room) b)
scan_name-Extends (suc room) (c ∷ s) b = ground (arith, scan_name-Extends room s b)
