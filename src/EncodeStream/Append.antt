-- ===== src/EncodeStream/Append.antt =====
-- The two appends of src/util/EncodeStream.cc add their bytes, or find the array full.
use myworkflow.Base.{
  ℕ, zero, suc, ◌+◌, ◌≤◌, ◌<◌, ◌≡◌, ◌⊎◌, inl, inr, refl, sym, ap, ap₂, subst, ◌∙◌, Bool, true,
  false, some, List, [], ◌∷◌, ◌++◌, append-nil, arith, ltb, leb, ◌==◌, if◌then◌else◌, length, All,
  set, take, length-set, Bool-cases, ==_iff, Option-cases,
}
use myworkflow.EncodeStream.{
  Memory, Base, outside, inside, Iov, Stream, encode_buf_size, align, update, write, read, room_for,
  merge, make_room, push_vec, nocopy, append_nocopy, last_buf, without, new_buf, choose_buf,
  copy_into, copy, append_copy,
}
use myworkflow.EncodeStream.Memory.{
  bytes_of, bytes_of-append, IsPlaced, ArePlaced, IsFree, bytes_of-write, total, load-write,
}
use myworkflow.EncodeStream.Refine.{
  Holds, AreOwned, AreOwned-new, take-push, total-append, ArePlaced-append, ArePlaced-grown,
  new-IsGrown, merge-Holds, room_for-fits, room_for-least, align-le,
}

-- The vectors before the one that is written stay.
take-set_before : (vs : List Iov) (m n : ℕ) (v : Iov) → m ≤ n → take m (set vs n v) ≡ take m vs
take-set_before vs zero n v h = refl
take-set_before [] (suc m) n v h = refl
take-set_before (u ∷ vs) (suc m) zero v h = absurd (omega arith)
take-set_before (u ∷ vs) (suc m) (suc n) v h =
    ap (λ us. u ∷ us) (take-set_before vs m n v (omega arith))

push-Holds :
    (s : Stream) (bs d : List ℕ) (mem : Memory) (pos : ℕ → ℕ) (bufs : List ℕ) (base : Base)
    → Holds s bs
    → s.size < s.max
    → bytes_of mem (take s.size s.vec) ≡ bytes_of s.mem (take s.size s.vec)
    → ((b : ℕ) → b < s.next_buf → s.pos b ≤ pos b)
    → IsPlaced pos s.room s.next_buf base (length d)
    → read mem base (length d) ≡ d
    → AreOwned s.room s.next_buf bufs
    → Holds (record (push_vec base (length d) s) { mem = mem; pos = pos; bufs = bufs }) (bs ++ d)
push-Holds s bs d mem pos bufs base h lt same grown here reads own =
    let us = take s.size s.vec in
    let v : Iov = record { base = base; len = length d } in
    let taken = take-push s.vec s.size v (omega (arith, h.array)) in
    record {
      array = omega (arith, h.array, length-set s.vec s.size v);
      filled = omega arith;
      order = omega (arith, h.order);
      content =
          ap (bytes_of mem) taken
          ∙ (bytes_of-append mem us (v ∷ [])
              ∙ ap₂ (λ xs ys. xs ++ ys) (same ∙ h.content)
                  (append-nil (read mem base (length d)) ∙ reads));
      placed = subst (ArePlaced pos s.room s.next_buf) (sym taken) (
          ArePlaced-append pos s.room s.next_buf us (v ∷ [])
            (ArePlaced-grown s.pos s.room pos s.room s.next_buf s.next_buf us
              (omega arith, λ b low. (grown b low, refl)) h.placed)
            (here, tt));
      count = omega (arith, h.count, ap total taken, total-append us (v ∷ []));
      merged_count =
          h.merged_count ∙ ap total (sym (take-set_before s.vec s.merged_size s.size v h.order));
      owned = own;
    }

All-snoc {ℓ} : (P : ℕ → Type ℓ) (bs : List ℕ) (b : ℕ) → All P bs → P b → All P (bs ++ (b ∷ []))
All-snoc P [] b h p = (p, tt)
All-snoc P (c ∷ bs) b (h, hs) p = (h, All-snoc P bs b hs p)

All-kept {ℓ} :
    (P : ℕ → Type ℓ) (c : ℕ) (bs : List ℕ) (t : Bool)
    → P c
    → All P bs
    → All P (if t then bs else c ∷ bs)
All-kept P c bs true h hs = hs
All-kept P c bs false h hs = (h, hs)

All-without {ℓ} : (P : ℕ → Type ℓ) (b : ℕ) (bs : List ℕ) → All P bs → All P (without b bs)
unfolding without
All-without P b [] h = tt
All-without P b (c ∷ bs) (h, hs) = All-kept P c (without b bs) (c == b) h (All-without P b bs hs)

All-last_buf {ℓ} : (P : ℕ → Type ℓ) (bs : List ℕ) (b : ℕ) → last_buf bs ≡ some b → All P bs → P b
unfolding last_buf
All-last_buf P [] b e h = absurd (cc)
All-last_buf P (c ∷ []) b e (h, hs) = subst P (cc) h
All-last_buf P (c ∷ d ∷ bs) b e (h, hs) = All-last_buf P (d ∷ bs) b e hs

AreOwned-moved :
    (room : ℕ → ℕ) (next b : ℕ) (bs : List ℕ) (full : Bool)
    → AreOwned room next bs
    → b < next
    → encode_buf_size ≤ room b
    → AreOwned room next (if full then b ∷ without b bs else bs)
AreOwned-moved room next b bs true h low least =
    ((low, least), All-without (λ b. (b < next) × (encode_buf_size ≤ room b)) b bs h)
AreOwned-moved room next b bs false h low least = h

pos-IsFree : (pos : ℕ → ℕ) (next b : ℕ) → IsFree pos next b (pos b)
pos-IsFree pos next b c low = elim (Bool-cases (c == b)) [
  | inl e ↦ inr (let e' = (==_iff c b).0 e in rw e' (omega arith))
  | inr e ↦ inl (ground arith)
]

-- What the choice of a buffer gives: the stream is the same but for a new buffer, which has the room.
abbrev Chosen : ℕ → Stream → List ℕ → ℕ × Stream → Type 0
Chosen n s bs (b, t) =
    Holds t bs
    × (t.size ≡ s.size)
    × (t.max ≡ s.max)
    × (b < t.next_buf)
    × (t.pos b + n ≤ t.room b)
    × (encode_buf_size ≤ t.room b)

new_buf-Chosen : (n : ℕ) (s : Stream) (bs : List ℕ) → Holds s bs → Chosen n s bs (new_buf n s)
unfolding new_buf
new_buf-Chosen n s bs h =
    let k = s.next_buf in
    (
      record {
        array = h.array;
        filled = h.filled;
        order = h.order;
        content = h.content;
        placed =
            ArePlaced-grown s.pos s.room (update s.pos k 0) (update s.room k (room_for n)) k (k + 1)
              (take s.size s.vec) (new-IsGrown s.pos s.room k 0 (room_for n)) h.placed;
        count = h.count;
        merged_count = h.merged_count;
        owned =
            All-snoc (λ b. (b < k + 1) × (encode_buf_size ≤ update s.room k (room_for n) b)) s.bufs
              k (AreOwned-new s.room k (room_for n) s.bufs h.owned)
              (omega arith, ground (arith, room_for-least n));
      },
      refl,
      refl,
      omega arith,
      ground (arith, room_for-fits n),
      ground (arith, room_for-least n),
    )

choose_buf-Chosen : (n : ℕ) (s : Stream) (bs : List ℕ) → Holds s bs → Chosen n s bs (choose_buf n s)
unfolding choose_buf
choose_buf-Chosen n s bs h = elim (Option-cases (last_buf s.bufs)) [
  | inl e ↦ rw (e, choose_buf) (new_buf-Chosen n s bs h)
  | inr (b, e) ↦ elim (Bool-cases (ltb encode_buf_size (s.pos b + n))) [
    | inl f ↦ rw (e, f, choose_buf) (new_buf-Chosen n s bs h)
    | inr f ↦
        let (low, least) =
          All-last_buf (λ b. (b < s.next_buf) × (encode_buf_size ≤ s.room b)) s.bufs b e h.owned in
        rw (e, f, choose_buf) (h, refl, refl, low, ground (arith, f), least)
  ]
]

merge-room : (s : Stream) → s.merged_size + 1 < s.max → (merge s).size < (merge s).max
unfolding merge
merge-room s h = h

copy_into-Holds :
    (d : List ℕ) (s : Stream) (bs : List ℕ) (r : ℕ × Stream)
    → s.size < s.max
    → Chosen (length d) s bs r
    → Holds (copy_into d r) (bs ++ d)
unfolding copy_into read
copy_into-Holds d s bs (b, t) lt (h, size, max, low, fits, least) =
    let off = t.pos b in
    let end = off + align (length d) in
    push-Holds t bs d (write t.mem b off d) (update t.pos b end)
      (if leb encode_buf_size end then b ∷ without b t.bufs else t.bufs) (inside b off) h
      (omega arith)
      (bytes_of-write t.mem t.pos t.room t.next_buf b off d (take t.size t.vec) h.placed
        (pos-IsFree t.pos t.next_buf b))
      (λ c below. ground (arith, align-le (length d)))
      (low, ground (arith, align-le (length d)), fits) (load-write t.mem b off d)
      (AreOwned-moved t.room t.next_buf b t.bufs (leb encode_buf_size end) h.owned low least)

-- The array is full of merged vectors: `size_` tells of it.
abbrev pub Overflows : Stream → Type 0
Overflows s = (s.size ≡ s.max + 1) × (s.max ≤ s.merged_size + 1)

abbrev pub Appends : Stream → List ℕ → Type 0
Appends s bs = Holds s bs ⊎ Overflows s

-- The room that both appends make.
abbrev Roomy : List ℕ → Bool × Stream → Type 0
Roomy bs (true, t) = Holds t bs × (t.size < t.max)
Roomy bs (false, t) = Overflows t

make_room-Roomy : (s : Stream) (bs : List ℕ) → Holds s bs → Roomy bs (make_room s)
unfolding make_room
make_room-Roomy s bs h = elim (Bool-cases (leb s.max s.size)) [
  | inl e ↦ elim (Bool-cases (ltb (s.merged_size + 1) s.max)) [
    | inl f ↦ rw (e, f) (merge-Holds s bs h (ground arith), merge-room s (ground arith))
    | inr f ↦ rw (e, f) (refl, ground arith)
  ]
  | inr e ↦ rw e (h, ground arith)
]

copy-Appends : (d bs : List ℕ) (r : Bool × Stream) → Roomy bs r → Appends (copy d r) (bs ++ d)
unfolding copy
copy-Appends d bs (true, t) (h, lt) =
    inl (copy_into-Holds d t bs (choose_buf (length d) t) lt (choose_buf-Chosen (length d) t bs h))
copy-Appends d bs (false, t) h = inr h

nocopy-Appends : (d bs : List ℕ) (r : Bool × Stream) → Roomy bs r → Appends (nocopy d r) (bs ++ d)
unfolding read
nocopy-Appends d bs (true, t) (h, lt) = inl (
    push-Holds t bs d t.mem t.pos t.bufs (outside d) h lt refl (λ b low. omega arith) refl refl
      h.owned)
nocopy-Appends d bs (false, t) h = inr h

-- `append_copy` on a stream that stands for some bytes makes one that stands for these and the new ones
-- behind them, no write leaving its buffer or reaching another vector's bytes; or it overflows, which
-- is only when one vector at most is left that is not merged.
pub append_copy-Appends :
    (d bs : List ℕ) (s : Stream) → Holds s bs → Appends (append_copy d s) (bs ++ d)
unfolding append_copy
append_copy-Appends d bs s h = copy-Appends d bs (make_room s) (make_room-Roomy s bs h)

-- `append_nocopy` on a stream that stands for some bytes makes one that stands for these and the new
-- ones behind them; or it overflows, which is only when one vector at most is left that is not merged.
pub append_nocopy-Appends :
    (d bs : List ℕ) (s : Stream) → Holds s bs → Appends (append_nocopy d s) (bs ++ d)
unfolding append_nocopy
append_nocopy-Appends d bs s h = nocopy-Appends d bs (make_room s) (make_room-Roomy s bs h)

make_room-stuck : (s : Stream) → Overflows s → make_room s ≡ (false, s)
unfolding make_room
make_room-stuck s h =
    let full : leb s.max s.size ≡ true = ground (arith, h.0) in
    let merged : ltb (s.merged_size + 1) s.max ≡ false = ground (arith, h.1) in
    rw (full, merged) (ap (λ n. (false, record s { size = n })) (sym h.0))

-- A stream that has overflowed stays so: both appends leave it as it is.
append-Overflows :
    (d : List ℕ) (s : Stream) → Overflows s → (append_copy d s ≡ s) × (append_nocopy d s ≡ s)
unfolding append_copy append_nocopy
append-Overflows d s h = (rw (make_room-stuck s h), rw (make_room-stuck s h))
