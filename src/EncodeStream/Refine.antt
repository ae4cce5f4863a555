-- ===== src/EncodeStream/Refine.antt =====
-- A stream stands for the bytes that were appended to it (src/util/EncodeStream.cc).
use myworkflow.Base.{
  ℕ, zero, suc, ◌+◌, ◌-◌, ◌≤◌, ◌<◌, ◌≡◌, refl, sym, ap, ap₂, subst, ◌∙◌, List, [], ◌∷◌, ◌++◌,
  append-nil, arith, length, All, set, take, drop, length-set, take-append-drop,
}
use myworkflow.EncodeStream.{
  Base, outside, inside, Iov, Stream, encode_buf_size, align, update, load, read, room_for,
  merge_loop, merge, init_vec,
}
use myworkflow.EncodeStream.Memory.{
  bytes_of, bytes_of-append, IsPlaced, ArePlaced, total, merge_loop_keeps, load-merge_loop,
}

take-set :
    (vs : List Iov) (n : ℕ) (v : Iov)
    → n < length vs
    → take (suc n) (set vs n v) ≡ take n vs ++ (v ∷ [])
take-set [] n v h = absurd (omega arith)
take-set (u ∷ vs) zero v h = refl
take-set (u ∷ vs) (suc n) v h = ap (λ us. u ∷ us) (take-set vs n v (omega arith))

pub take-push :
    (vs : List Iov) (n : ℕ) (v : Iov)
    → n < length vs
    → take (n + 1) (set vs n v) ≡ take n vs ++ (v ∷ [])
take-push vs n v h = let e : n + 1 ≡ suc n = omega arith in rw e (take-set vs n v h)

pub take-take : (m n : ℕ) (vs : List Iov) → m ≤ n → take m (take n vs) ≡ take m vs
take-take zero n vs h = refl
take-take (suc m) zero vs h = absurd (omega arith)
take-take (suc m) (suc n) [] h = refl
take-take (suc m) (suc n) (v ∷ vs) h = ap (λ us. v ∷ us) (take-take m n vs (omega arith))

pub total-append : (us vs : List Iov) → total (us ++ vs) ≡ total us + total vs
total-append [] vs = omega arith
total-append (u ∷ us) vs = omega (arith, total-append us vs)

module _ (pos room : ℕ → ℕ) (next : ℕ) where
  pub ArePlaced-append :
      (us vs : List Iov)
      → ArePlaced pos room next us
      → ArePlaced pos room next vs
      → ArePlaced pos room next (us ++ vs)
  ArePlaced-append [] vs h k = k
  ArePlaced-append (u ∷ us) vs (h, hs) k = (h, ArePlaced-append us vs hs k)

  ArePlaced-split :
      (us vs : List Iov)
      → ArePlaced pos room next (us ++ vs)
      → ArePlaced pos room next us × ArePlaced pos room next vs
  ArePlaced-split [] vs h = (tt, h)
  ArePlaced-split (u ∷ us) vs (h, hs) = let (a, b) = ArePlaced-split us vs hs in ((h, a), b)

-- Buffers that are filled further, or new ones, leave the vectors placed.
abbrev pub IsGrown : (ℕ → ℕ) → (ℕ → ℕ) → ℕ → (ℕ → ℕ) → (ℕ → ℕ) → ℕ → Type 0
IsGrown pos room next pos' room' next' =
    (next ≤ next') × ((b : ℕ) → b < next → (pos b ≤ pos' b) × (room b ≡ room' b))

IsPlaced-grown :
    (pos room pos' room' : ℕ → ℕ) (next next' : ℕ) (b : Base) (n : ℕ)
    → IsGrown pos room next pos' room' next'
    → IsPlaced pos room next b n
    → IsPlaced pos' room' next' b n
IsPlaced-grown pos room pos' room' next next' (outside d) n g h = h
IsPlaced-grown pos room pos' room' next next' (inside b o) n g (low, held, small) =
    let (p, r) = g.1 b low in (omega (arith, g.0), omega (arith, p), omega (arith, r))

pub ArePlaced-grown :
    (pos room pos' room' : ℕ → ℕ) (next next' : ℕ) (vs : List Iov)
    → IsGrown pos room next pos' room' next'
    → ArePlaced pos room next vs
    → ArePlaced pos' room' next' vs
ArePlaced-grown pos room pos' room' next next' [] g h = tt
ArePlaced-grown pos room pos' room' next next' (v ∷ vs) g (h, hs) = (
  IsPlaced-grown pos room pos' room' next next' v.base v.len g h,
  ArePlaced-grown pos room pos' room' next next' vs g hs,
)

pub align-le : (n : ℕ) → n ≤ align n
unfolding align
align-le n = omega arith

pub room_for-fits : (n : ℕ) → n ≤ room_for n
room_for-fits n = ground (arith, align-le n)

pub room_for-least : (n : ℕ) → encode_buf_size ≤ room_for n
room_for-least n = ground (arith, align-le n)

-- The buffers are allocated, with the room that each has at least.
abbrev pub AreOwned : (ℕ → ℕ) → ℕ → List ℕ → Type 0
AreOwned room next bs = All (λ b. (b < next) × (encode_buf_size ≤ room b)) bs

-- The stream has not overflowed and stands for the bytes `bs`.
pub record Holds (s : Stream) (bs : List ℕ) : Type 0 where
  pub array : s.max ≤ length s.vec
  pub filled : s.size ≤ s.max
  pub order : s.merged_size ≤ s.size
  pub content : bytes_of s.mem (take s.size s.vec) ≡ bs
  pub placed : ArePlaced s.pos s.room s.next_buf (take s.size s.vec)
  pub count : s.bytes ≡ total (take s.size s.vec)
  pub merged_count : s.merged_bytes ≡ total (take s.merged_size s.vec)
  pub owned : AreOwned s.room s.next_buf s.bufs

init_vec-Holds :
    (vectors : List Iov) (max : ℕ) → max ≤ length vectors → Holds (init_vec vectors max) []
unfolding init_vec
init_vec-Holds vectors max h = record {
  array = h;
  filled = omega arith;
  order = omega arith;
  content = refl;
  placed = tt;
  count = refl;
  merged_count = refl;
  owned = tt;
}

pub AreOwned-new :
    (room : ℕ → ℕ) (n r : ℕ) (bs : List ℕ)
    → AreOwned room n bs
    → AreOwned (update room n r) (n + 1) bs
AreOwned-new room n r [] h = tt
AreOwned-new room n r (b ∷ bs) (h, hs) = (ground (arith, h.0, h.1), AreOwned-new room n r bs hs)

pub new-IsGrown :
    (pos room : ℕ → ℕ) (next p r : ℕ)
    → IsGrown pos room next (update pos next p) (update room next r) (next + 1)
new-IsGrown pos room next p r = (omega arith, λ b low. (ground arith, ground arith))

pub merge-Holds :
    (s : Stream) (bs : List ℕ) → Holds s bs → s.merged_size + 1 < s.max → Holds (merge s) bs
unfolding merge read
merge-Holds s bs h lt =
    let n = s.next_buf in
    let us = take s.size s.vec in
    let old = take s.merged_size s.vec in
    let new = drop s.merged_size us in
    let split : old ++ new ≡ us =
      ap (λ t. t ++ new) (sym (take-take s.merged_size s.size s.vec h.order))
      ∙ take-append-drop s.merged_size us in
    let (placed_old, placed_new) =
      ArePlaced-split s.pos s.room n old new
        (subst (ArePlaced s.pos s.room n) (sym split) h.placed) in
    let len : s.bytes - s.merged_bytes ≡ total new =
      omega (arith, h.count, h.merged_count, total-append old new, ap total split) in
    let v : Iov = record { base = inside n 0; len = s.bytes - s.merged_bytes } in
    let len_now = s.bytes - s.merged_bytes in
    let mem = merge_loop s.mem n 0 new in
    let taken = take-push s.vec s.merged_size v (omega (arith, h.array)) in
    let counted : s.bytes ≡ total (take (s.merged_size + 1) (set s.vec s.merged_size v)) = omega (
      arith,
      h.count,
      h.merged_count,
      ap total taken,
      total-append old (v ∷ []),
      ap total split,
      total-append old new,
    ) in
    record {
      array = omega (arith, h.array, length-set s.vec s.merged_size v);
      filled = omega arith;
      order = omega arith;
      content =
          ap (bytes_of mem) taken
          ∙ (bytes_of-append mem old (v ∷ [])
              ∙ (ap₂ (λ xs ys. xs ++ ys)
                    (merge_loop_keeps s.pos s.room n s.mem 0 new old placed_old)
                    (append-nil (load mem n 0 (s.bytes - s.merged_bytes))
                      ∙ (ap (load mem n 0) len
                          ∙ load-merge_loop s.pos s.room n s.mem 0 new placed_new))
                  ∙ (sym (bytes_of-append s.mem old new)
                      ∙ (ap (bytes_of s.mem) split ∙ h.content))));
      placed =
          subst
            (ArePlaced (update s.pos n (align len_now)) (update s.room n (room_for len_now))
              (n + 1))
            (sym taken)
            (ArePlaced-append (update s.pos n (align len_now)) (update s.room n (room_for len_now))
              (n + 1) old (v ∷ [])
              (ArePlaced-grown s.pos s.room (update s.pos n (align len_now))
                (update s.room n (room_for len_now)) n (n + 1) old
                (new-IsGrown s.pos s.room n (align len_now) (room_for len_now)) placed_old)
              (
                (
                  omega arith,
                  ground (arith, align-le len_now),
                  ground (arith, room_for-fits len_now),
                ),
                tt,
              ));
      count = counted;
      merged_count = counted;
      owned = (
        (omega arith, ground (arith, room_for-least len_now)),
        AreOwned-new s.room n (room_for len_now) s.bufs h.owned,
      );
    }
