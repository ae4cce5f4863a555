-- ===== src/EncodeStream/Memory.antt =====
-- What copying into a buffer leaves of the vectors (src/util/EncodeStream.cc).
use myworkflow.Base.{
  ℕ, zero, suc, ◌+◌, ◌≤◌, ◌<◌, ◌≡◌, ◌≢◌, ◌⊎◌, inl, inr, refl, sym, ap, ap₂, ◌∙◌, List, [], ◌∷◌,
  ◌++◌, append_assoc, arith, length, All, length-append,
}
use myworkflow.EncodeStream.{
  Memory, Base, outside, inside, put_byte, Iov, write, load, read, merge_loop,
}

-- No byte of the region is behind `off` in `buf`.
abbrev pub Before : ℕ → ℕ → ℕ → ℕ → Type 0
Before b end buf off = (b ≢ buf) ⊎ (end ≤ off)

write-Before :
    (mem : Memory) (buf off : ℕ) (cs : List ℕ) (b o : ℕ)
    → Before b (suc o) buf off
    → write mem buf off cs b o ≡ mem b o
unfolding write
write-Before mem buf off [] b o h = refl
write-Before mem buf off (c ∷ cs) b o (inl h) =
    ground (arith, write-Before (put_byte mem buf off c) buf (off + 1) cs b o (inl h))
write-Before mem buf off (c ∷ cs) b o (inr h) =
    ground (arith, write-Before (put_byte mem buf off c) buf (off + 1) cs b o (inr (omega arith)))

pub load-write-Before :
    (mem : Memory) (buf off : ℕ) (cs : List ℕ) (b o n : ℕ)
    → Before b (o + n) buf off
    → load (write mem buf off cs) b o n ≡ load mem b o n
unfolding load
load-write-Before mem buf off cs b o zero h = refl
load-write-Before mem buf off cs b o (suc n) (inl h) =
    ap₂ (λ x xs. x ∷ xs) (write-Before mem buf off cs b o (inl h))
      (load-write-Before mem buf off cs b (o + 1) n (inl h))
load-write-Before mem buf off cs b o (suc n) (inr h) =
    ap₂ (λ x xs. x ∷ xs) (write-Before mem buf off cs b o (inr (omega arith)))
      (load-write-Before mem buf off cs b (o + 1) n (inr (omega arith)))

pub load-write :
    (mem : Memory) (buf off : ℕ) (cs : List ℕ)
    → load (write mem buf off cs) buf off (length cs) ≡ cs
unfolding load write
load-write mem buf off [] = refl
load-write mem buf off (c ∷ cs) =
    ap₂ (λ x xs. x ∷ xs)
      (ground
        (arith, write-Before (put_byte mem buf off c) buf (off + 1) cs buf off (inr (omega arith))))
      (load-write (put_byte mem buf off c) buf (off + 1) cs)

pub load-append :
    (mem : Memory) (b o m n : ℕ) → load mem b o (m + n) ≡ load mem b o m ++ load mem b (o + m) n
unfolding load
load-append mem b o zero n = ground arith
load-append mem b o (suc m) n =
    let e : o + 1 + m ≡ o + suc m = omega arith in
    let e' : suc m + n ≡ suc (m + n) = omega arith in rw (e', sym e, load-append mem b (o + 1) m n)

abbrev pub bytes_of : Memory → List Iov → List ℕ
bytes_of mem [] = []
bytes_of mem (v ∷ vs) = read mem v.base v.len ++ bytes_of mem vs

pub bytes_of-append :
    (mem : Memory) (us vs : List Iov) → bytes_of mem (us ++ vs) ≡ bytes_of mem us ++ bytes_of mem vs
bytes_of-append mem [] vs = refl
bytes_of-append mem (u ∷ us) vs =
    ap (λ xs. read mem u.base u.len ++ xs) (bytes_of-append mem us vs)
    ∙ sym (append_assoc (read mem u.base u.len) (bytes_of mem us) (bytes_of mem vs))

-- The vector's bytes are in its buffer, before `pos` and inside the buffer.
abbrev pub IsPlaced : (ℕ → ℕ) → (ℕ → ℕ) → ℕ → Base → ℕ → Type 0
IsPlaced pos room next (outside d) n = n ≡ length d
IsPlaced pos room next (inside b o) n = (b < next) × (o + n ≤ pos b) × (o + n ≤ room b)

abbrev pub ArePlaced : (ℕ → ℕ) → (ℕ → ℕ) → ℕ → List Iov → Type 0
ArePlaced pos room next vs = All (λ v. IsPlaced pos room next v.base v.len) vs

-- A region of memory that no placed vector reads.
abbrev pub IsFree : (ℕ → ℕ) → ℕ → ℕ → ℕ → Type 0
IsFree pos next buf off = (b : ℕ) → b < next → (b ≢ buf) ⊎ (pos b ≤ off)

pub length-load : (mem : Memory) (b o n : ℕ) → length (load mem b o n) ≡ n
unfolding load
length-load mem b o zero = refl
length-load mem b o (suc n) = ap suc (length-load mem b (o + 1) n)

pub read-length :
    (mem : Memory) (pos room : ℕ → ℕ) (next : ℕ) (base : Base) (n : ℕ)
    → IsPlaced pos room next base n
    → length (read mem base n) ≡ n
unfolding read
read-length mem pos room next (outside d) n h = sym h
read-length mem pos room next (inside b o) n h = length-load mem b o n

pub read-write :
    (mem : Memory) (pos room : ℕ → ℕ) (next buf off : ℕ) (cs : List ℕ) (base : Base) (n : ℕ)
    → IsPlaced pos room next base n
    → IsFree pos next buf off
    → read (write mem buf off cs) base n ≡ read mem base n
unfolding read
read-write mem pos room next buf off cs (outside d) n h free = refl
read-write mem pos room next buf off cs (inside b o) n (low, held, small) free = elim (free b low) [
  | inl e ↦ load-write-Before mem buf off cs b o n (inl e)
  | inr e ↦ load-write-Before mem buf off cs b o n (inr (omega arith))
]

pub bytes_of-write :
    (mem : Memory) (pos room : ℕ → ℕ) (next buf off : ℕ) (cs : List ℕ) (vs : List Iov)
    → ArePlaced pos room next vs
    → IsFree pos next buf off
    → bytes_of (write mem buf off cs) vs ≡ bytes_of mem vs
bytes_of-write mem pos room next buf off cs [] h free = refl
bytes_of-write mem pos room next buf off cs (v ∷ vs) (h, hs) free =
    ap₂ (λ xs ys. xs ++ ys) (read-write mem pos room next buf off cs v.base v.len h free)
      (bytes_of-write mem pos room next buf off cs vs hs free)

abbrev pub total : List Iov → ℕ
total [] = 0
total (v ∷ vs) = v.len + total vs

pub length-bytes_of :
    (mem : Memory) (pos room : ℕ → ℕ) (next : ℕ) (vs : List Iov)
    → ArePlaced pos room next vs
    → length (bytes_of mem vs) ≡ total vs
length-bytes_of mem pos room next [] h = refl
length-bytes_of mem pos room next (v ∷ vs) (h, hs) = omega (
  arith,
  length-append (read mem v.base v.len) (bytes_of mem vs),
  read-length mem pos room next v.base v.len h,
  length-bytes_of mem pos room next vs hs,
)

merge_loop-Before :
    (mem : Memory) (buf off : ℕ) (vs : List Iov) (b o n : ℕ)
    → Before b (o + n) buf off
    → load (merge_loop mem buf off vs) b o n ≡ load mem b o n
unfolding merge_loop
merge_loop-Before mem buf off [] b o n h = refl
merge_loop-Before mem buf off (v ∷ vs) b o n (inl h) =
    merge_loop-Before (write mem buf off (read mem v.base v.len)) buf (off + v.len) vs b o n (inl h)
    ∙ load-write-Before mem buf off (read mem v.base v.len) b o n (inl h)
merge_loop-Before mem buf off (v ∷ vs) b o n (inr h) =
    merge_loop-Before (write mem buf off (read mem v.base v.len)) buf (off + v.len) vs b o n
      (inr (omega arith))
    ∙ load-write-Before mem buf off (read mem v.base v.len) b o n (inr h)

module _ (pos room : ℕ → ℕ) (next : ℕ) where
  -- `merge` writes to a buffer that no vector reads.
  pub merge_loop_keeps :
      (mem : Memory) (off : ℕ) (vs us : List Iov)
      → ArePlaced pos room next us
      → bytes_of (merge_loop mem next off vs) us ≡ bytes_of mem us
  unfolding merge_loop
  merge_loop_keeps mem off [] us h = refl
  merge_loop_keeps mem off (v ∷ vs) us h =
      merge_loop_keeps (write mem next off (read mem v.base v.len)) (off + v.len) vs us h
      ∙ bytes_of-write mem pos room next next off (read mem v.base v.len) us h
          (λ b low. inl (omega arith))

  pub load-merge_loop :
      (mem : Memory) (off : ℕ) (vs : List Iov)
      → ArePlaced pos room next vs
      → load (merge_loop mem next off vs) next off (total vs) ≡ bytes_of mem vs
  unfolding merge_loop
  load-merge_loop mem off [] h = refl
  load-merge_loop mem off (v ∷ vs) (h, hs) =
      let bs = read mem v.base v.len in
      let mem' = write mem next off bs in
      load-append (merge_loop mem' next (off + v.len) vs) next off v.len (total vs)
      ∙ ap₂ (λ xs ys. xs ++ ys)
          (merge_loop-Before mem' next (off + v.len) vs next off v.len (inr (omega arith))
            ∙ (ap (load mem' next off) (sym (read-length mem pos room next v.base v.len h))
                ∙ load-write mem next off bs))
          (load-merge_loop mem' (off + v.len) vs hs
            ∙ bytes_of-write mem pos room next next off bs vs hs (λ b low. inl (omega arith)))
