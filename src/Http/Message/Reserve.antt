-- ===== src/Http/Message/Reserve.antt =====
-- The buffer of `http_parser_append_message` of src/protocol/http_parser.c.
use native.Mathlib.Nat.{mul_assoc, pow-succ'}
use myworkflow.Base.{
  ℕ, zero, suc, ◌+◌, ◌*◌, ◌%◌, ◌^◌, ◌≤◌, ◌<◌, ◌≡◌, refl, sym, ap, subst, ◌∙◌, ◌⊎◌, inl, inr, Bool,
  true, false, some, ltb, arith, ltb→lt, Bool-cases,
}
use myworkflow.Http.Types.{http_msgbuf_init_size, size_mod, Parser, msgsize, Ret, more, failed}
use myworkflow.Http.Message.{needed, grow, first_size, reserve}

-- With `n` more bytes and a NUL the message stays below 2 ^ 63 bytes.
abbrev pub IsShort : ℕ → Parser → Type 0
IsShort n p = msgsize p + n + 1 ≤ 2 ^ 63

grow-stops : (fuel need size : ℕ) → ltb size need ≡ false → grow (suc fuel) need size ≡ some size
unfolding grow
grow-stops fuel need size h = rw h

grow-doubles :
    (fuel need size : ℕ)
    → ltb size need ≡ true
    → need ≤ 2 ^ 63
    → grow (suc fuel) need size ≡ grow fuel need (size * 2)
unfolding grow
grow-doubles fuel need size h b =
    let less = ltb→lt size need h in
    let exact : size * 2 % size_mod ≡ size * 2 = omega arith in rw h (ap (grow fuel need) exact)

double : (size fuel : ℕ) → size * 2 ^ suc fuel ≡ size * 2 * 2 ^ fuel
double size fuel = ap (λ x. size * x) (pow-succ' 2 fuel) ∙ sym (mul_assoc size 2 (2 ^ fuel))

-- The doubling loop finds a size that is enough: a double that is still needed does not wrap.
grow_total :
    (fuel need size : ℕ)
    → need ≤ 2 ^ 63
    → need ≤ size * 2 ^ fuel
    → (new_size : ℕ) × (grow (suc fuel) need size ≡ some new_size) × (need ≤ new_size)
grow_total zero need size b e = elim (Bool-cases (ltb size need)) [
  | inr enough ↦ (size, grow-stops zero need size enough, ground arith)
  | inl small ↦ ground arith
]
grow_total (suc fuel) need size b e = elim (Bool-cases (ltb size need)) [
  | inr enough ↦ (size, grow-stops (suc fuel) need size enough, ground arith)
  | inl small ↦
      let (new_size, e', fits) =
        grow_total fuel need (size * 2) b (subst (λ x. need ≤ x) (double size fuel) e) in
      (new_size, grow-doubles (suc fuel) need size small b ∙ e', fits)
]

-- The buffer is too small, and an allocation that would be large enough is refused.
abbrev pub NoRoom : (ℕ → Bool) → ℕ → Parser → Type 0
NoRoom malloc_ok n p =
    (p.bufsize < msgsize p + n + 1)
    × ((size : ℕ) × (msgsize p + n + 1 ≤ size) × (malloc_ok size ≡ false))

-- The buffer `q` that has been reserved, the old one or one that was allocated.
abbrev pub Reserved : (ℕ → Bool) → ℕ → Parser → Ret × Parser → Type 0
Reserved malloc_ok n p (ret, q) =
    ((ret ≡ more)
      × (msgsize p + n + 1 ≤ q.bufsize)
      × (q ≡ record p { bufsize = q.bufsize })
      × ((q.bufsize ≡ p.bufsize) ⊎ (malloc_ok q.bufsize ≡ true)))
    ⊎ ((ret ≡ failed) × (q ≡ p) × NoRoom malloc_ok n p)

first_size-init : (p : Parser) → http_msgbuf_init_size ≤ first_size p
first_size-init p = ground arith

needed-exact : (n : ℕ) (p : Parser) → IsShort n p → needed n p ≡ msgsize p + n + 1
needed-exact n p b = omega arith

-- Where the message stays below 2 ^ 63 bytes, the buffer is given room for the bytes that come and
-- for a NUL: it has it, or it grows within 64 rounds, or the allocation fails and the parser is as
-- before.
pub reserve_total :
    (malloc_ok : ℕ → Bool) (n : ℕ) (p : Parser)
    → IsShort n p
    → (r : Ret × Parser) × (reserve malloc_ok n p ≡ some r) × Reserved malloc_ok n p r
unfolding reserve
reserve_total malloc_ok n p b =
    let exact = needed-exact n p b in
    let init = first_size-init p in
    elim (Bool-cases (ltb p.bufsize (needed n p))) [
      | inr room ↦ ((more, p), rw room, inl (refl, (let h = room in ground arith), refl, inl refl))
      | inl small ↦
          let (new_size, e, fits) =
            grow_total 63 (needed n p) (first_size p) (omega arith) (omega arith) in
          elim (Bool-cases (malloc_ok new_size)) [
            | inl given ↦ (
              (more, record p { bufsize = new_size }),
              rw small (rw e (rw given)),
              inl (refl, omega arith, refl, inr given),
            )
            | inr refused ↦ (
              (failed, p),
              rw small (rw e (rw refused)),
              inr (refl, refl, (ground arith, (new_size, omega arith, refused))),
            )
          ]
    ]
