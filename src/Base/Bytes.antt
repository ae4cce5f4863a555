-- ===== src/Base/Bytes.antt =====
-- Facts about a byte are checked at all 256 values.
use Prim.Native.Nat.{ℕ, zero, suc, ◌<◌}
use mathlib.Core.Path.{◌≡◌}
use mathlib.Core.Bool.{Bool, true, ◌&&◌}
use native.Mathlib.Omega.{arith}

unfoldable holds_up_to : (ℕ → Bool) → ℕ → Bool
holds_up_to test zero = test 0
holds_up_to test (suc last) = holds_up_to test last && test (suc last)

unfoldable pub every_byte : (ℕ → Bool) → Bool
unfolding holds_up_to
every_byte test = holds_up_to test 255

holds_up_to-at :
    (test : ℕ → Bool) (last c : ℕ) → c < suc last → holds_up_to test last ≡ true → test c ≡ true
unfolding holds_up_to
holds_up_to-at test zero c small h = ground arith
holds_up_to-at test (suc last) c small h = ground (arith, holds_up_to-at test last c)

pub every_byte-at : (test : ℕ → Bool) (c : ℕ) → every_byte test ≡ true → c < 256 → test c ≡ true
unfolding every_byte
every_byte-at test c h small = holds_up_to-at test 255 c small h
