-- ===== src/Scheduler/Load.antt =====
-- The order of targets by `cur_load / max_load` (src/kernel/CommScheduler.cc, `target_cmp`).
use native.Mathlib.Nat.{mul-le-mul, mul-le-mul_right, le_of_mul-le-mul_right}
use myworkflow.Base.{ℕ, ◌+◌, ◌*◌, ◌%◌, ◌^◌, ◌≤◌, ◌<◌, ◌≡◌, ◌≢◌, true, false, ltb, arith}
use myworkflow.Scheduler.{update, word, less}

-- Loads that fit 32 bits, with some room for each target, and no target over its room.
pub record AreLoads (cur max : ℕ → ℕ) : Type 0 where
  pub positive : (t : ℕ) → 0 < max t
  pub small : (t : ℕ) → max t < 2 ^ 32
  pub bounded : (t : ℕ) → cur t ≤ max t

product-lt : (x y : ℕ) → x < 2 ^ 32 → y < 2 ^ 32 → x * y < word
product-lt x y p q =
    let e : x * y ≤ 4294967295 * 4294967295 =
      mul-le-mul {n₁ = x} {m₁ = y} {n₂ = 4294967295} {m₂ = 4294967295} (omega arith)
        (omega arith) in
    omega arith

module _ (cur max : ℕ → ℕ) (l : AreLoads cur max) where
  exact : (a b : ℕ) → (cur a * max b) % word ≡ cur a * max b
  exact a b =
      let p = product-lt (cur a) (max b) (omega (arith, l.bounded a, l.small a)) (l.small b) in
      omega arith

  pub less_exact : (a b : ℕ) → less cur max a b ≡ ltb (cur a * max b) (cur b * max a)
  unfolding less
  less_exact a b = rw (exact a b, exact b a)

  pub less_total : (a b : ℕ) → less cur max a b ≡ true → less cur max b a ≡ false
  less_total a b h = ground (arith, less_exact a b, less_exact b a)

  pub less_trans :
      (a b c : ℕ) → less cur max b a ≡ false → less cur max c b ≡ false → less cur max c a ≡ false
  less_trans a b c h k =
      let p : cur a * max b ≤ cur b * max a = ground (arith, less_exact b a) in
      let q : cur b * max c ≤ cur c * max b = ground (arith, less_exact c b) in
      let p' = mul-le-mul_right (max c) p in
      let q' = mul-le-mul_right (max a) q in
      let r : cur a * max c ≤ cur c * max a =
        le_of_mul-le-mul_right (omega (arith, p', q')) (l.positive b) in
      ground (arith, less_exact c a)

-- One more on `t` leaves it no less loaded than what it was not less loaded than.
pub less-raised :
    (cur max : ℕ → ℕ) (t a : ℕ)
    → AreLoads cur max
    → AreLoads (update cur t (cur t + 1)) max
    → a ≢ t
    → less cur max t a ≡ false
    → less (update cur t (cur t + 1)) max t a ≡ false
less-raised cur max t a l l' d h =
    let cur' = update cur t (cur t + 1) in
    let p : cur a * max t ≤ cur t * max a = ground (arith, less_exact cur max l t a) in
    let e : cur' t ≡ cur t + 1 = ground arith in
    let e' : cur' a ≡ cur a = ground arith in
    let q : cur' a * max t ≤ cur' t * max a = rw (e, e') (omega (arith, p)) in
    ground (arith, less_exact cur' max l' t a, q)

pub less-lowered :
    (cur max : ℕ → ℕ) (t a x : ℕ)
    → AreLoads cur max
    → AreLoads (update cur t x) max
    → x ≤ cur t
    → a ≢ t
    → less cur max a t ≡ false
    → less (update cur t x) max a t ≡ false
less-lowered cur max t a x l l' f d h =
    let cur' = update cur t x in
    let p : cur t * max a ≤ cur a * max t = ground (arith, less_exact cur max l a t) in
    let e : cur' t ≡ x = ground arith in
    let e' : cur' a ≡ cur a = ground arith in
    let q : cur' t * max a ≤ cur' a * max t =
      rw (e, e') (omega (arith, p, mul-le-mul_right (max a) f)) in
    ground (arith, less_exact cur' max l' a t, q)

pub AreLoads-update :
    (cur max : ℕ → ℕ) (t x : ℕ) → AreLoads cur max → x ≤ max t → AreLoads (update cur t x) max
AreLoads-update cur max t x l h = record {
  positive = l.positive;
  small = l.small;
  bounded = λ u. ground (arith, l.bounded u);
}

-- A change of one load leaves the order of the others.
pub less-others :
    (cur max : ℕ → ℕ) (t x a b : ℕ)
    → a ≢ t
    → b ≢ t
    → less (update cur t x) max a b ≡ less cur max a b
unfolding less
less-others cur max t x a b p q = ground arith
