-- ===== src/EncodeStream.antt =====
-- src/util/EncodeStream.cc and EncodeStream.h: pieces of a message gathered into an array of vectors.
-- A buffer is the address that `new` returned, which is `next_buf` and then no other buffer's.
pub mod Memory
pub mod Refine
pub mod Append
mod Tests
use myworkflow.Base.{
  ℕ, zero, suc, ◌+◌, ◌-◌, ◌*◌, ◌/◌, Bool, true, false, not, Option, none, some, List, [], ◌∷◌, ◌++◌,
  ltb, leb, ◌==◌, if◌then◌else◌, get_or, set, take, drop, length, ◌&&◌,
}

-- The bytes of the buffers: buffer, then offset in its `data`.
abbrev pub Memory : Type 0
Memory = ℕ → ℕ → ℕ

-- `iov_base`: bytes that the caller keeps, or a place in a buffer.
pub data Base : Type 0 where
  outside : List ℕ → Base
  inside : ℕ → ℕ → Base

pub record Iov : Type 0 where
  pub base : Base
  pub len : ℕ

-- `EncodeStream` and its `EncodeBuf`s: `room` is the size of a buffer's `data`.
pub record Stream : Type 0 where
  pub vec : List Iov
  pub max : ℕ
  pub size : ℕ
  pub bytes : ℕ
  pub merged_size : ℕ
  pub merged_bytes : ℕ
  pub bufs : List ℕ
  pub pos : ℕ → ℕ
  pub room : ℕ → ℕ
  pub mem : Memory
  pub next_buf : ℕ

abbrev pub encode_buf_size : ℕ
encode_buf_size = 1024

-- `ALIGN (x, 8)`.
unfoldable pub align : ℕ → ℕ
align x = (x + 7) / 8 * 8

abbrev pub update : (ℕ → ℕ) → ℕ → ℕ → ℕ → ℕ
update f k v x = if x == k then v else f x

abbrev pub put_byte : Memory → ℕ → ℕ → ℕ → Memory
put_byte mem buf off c b o = if b == buf && o == off then c else mem b o

-- `memcpy` into a buffer.
unfoldable pub write : Memory → ℕ → ℕ → List ℕ → Memory
write mem buf off [] = mem
write mem buf off (c ∷ cs) = write (put_byte mem buf off c) buf (off + 1) cs

unfoldable pub load : Memory → ℕ → ℕ → ℕ → List ℕ
load mem buf off zero = []
load mem buf off (suc n) = mem buf off ∷ load mem buf (off + 1) n

-- The bytes that a vector stands for.
unfoldable pub read : Memory → Base → ℕ → List ℕ
unfolding load
read mem (outside d) n = d
read mem (inside buf off) n = load mem buf off n

unfoldable pub init_vec : List Iov → ℕ → Stream
init_vec vectors max = record {
  vec = vectors;
  max = max;
  size = 0;
  bytes = 0;
  merged_size = 0;
  merged_bytes = 0;
  bufs = [];
  pos = λ b. 0;
  room = λ b. 0;
  mem = λ b o. 0;
  next_buf = 0;
}

-- The room of a new buffer.
abbrev pub room_for : ℕ → ℕ
room_for len = if ltb encode_buf_size len then align len else encode_buf_size

-- The loop of `merge`: the vectors' bytes go one behind the other.
unfoldable pub merge_loop : Memory → ℕ → ℕ → List Iov → Memory
unfolding write read
merge_loop mem buf off [] = mem
merge_loop mem buf off (v ∷ vs) =
    merge_loop (write mem buf off (read mem v.base v.len)) buf (off + v.len) vs

unfoldable pub merge : Stream → Stream
unfolding merge_loop align
merge s =
    let len = s.bytes - s.merged_bytes in
    record s {
      mem = merge_loop s.mem s.next_buf 0 (drop s.merged_size (take s.size s.vec));
      pos = update s.pos s.next_buf (align len);
      room = update s.room s.next_buf (room_for len);
      bufs = s.next_buf ∷ s.bufs;
      next_buf = s.next_buf + 1;
      vec = set s.vec s.merged_size (record { base = inside s.next_buf 0; len = len });
      merged_size = s.merged_size + 1;
      merged_bytes = s.bytes;
      size = s.merged_size + 1;
    }

-- What both `append`s begin with: whether there is room for a vector, and the stream.
unfoldable pub make_room : Stream → Bool × Stream
unfolding merge
make_room s =
    if leb s.max s.size
    then (if ltb (s.merged_size + 1) s.max
        then (true, merge s)
        else (false, record s { size = s.max + 1 }))
    else (true, s)

-- The vector at `size_`.
abbrev pub push_vec : Base → ℕ → Stream → Stream
push_vec base len s = record s {
  vec = set s.vec s.size (record { base = base; len = len });
  size = s.size + 1;
  bytes = s.bytes + len;
}

abbrev pub nocopy : List ℕ → Bool × Stream → Stream
nocopy d (true, s) = push_vec (outside d) (length d) s
nocopy d (false, s) = s

unfoldable pub append_nocopy : List ℕ → Stream → Stream
unfolding make_room
append_nocopy d s = nocopy d (make_room s)

-- `list.prev` of the list's head.
unfoldable pub last_buf : List ℕ → Option ℕ
last_buf [] = none
last_buf (b ∷ []) = some b
last_buf (b ∷ c ∷ bs) = last_buf (c ∷ bs)

unfoldable pub without : ℕ → List ℕ → List ℕ
without b [] = []
without b (c ∷ cs) = let rest = without b cs in if c == b then rest else c ∷ rest

unfoldable pub new_buf : ℕ → Stream → ℕ × Stream
unfolding align
new_buf len s = (
  s.next_buf,
  record s {
    pos = update s.pos s.next_buf 0;
    room = update s.room s.next_buf (room_for len);
    bufs = s.bufs ++ (s.next_buf ∷ []);
    next_buf = s.next_buf + 1;
  },
)

-- The last buffer, or a new one where that has not enough room.
unfoldable pub choose_buf : ℕ → Stream → ℕ × Stream
unfolding last_buf new_buf
choose_buf len s = elim (last_buf s.bufs) [
  | none ↦ new_buf len s
  | some b ↦ if ltb encode_buf_size (s.pos b + len) then new_buf len s else (b, s)
]

-- `memcpy`, the vector, and the buffer's new `pos`: a full buffer goes to the list's head.
unfoldable pub copy_into : List ℕ → ℕ × Stream → Stream
unfolding write align without
copy_into d (b, s) =
    let off = s.pos b in
    let t = push_vec (inside b off) (length d) (record s { mem = write s.mem b off d }) in
    let full = leb encode_buf_size (off + align (length d)) in
    record t {
      pos = update s.pos b (off + align (length d));
      bufs = if full then b ∷ without b s.bufs else s.bufs;
    }

abbrev pub copy : List ℕ → Bool × Stream → Stream
unfolding choose_buf copy_into
copy d (true, s) = copy_into d (choose_buf (length d) s)
copy d (false, s) = s

unfoldable pub append_copy : List ℕ → Stream → Stream
unfolding make_room choose_buf copy_into
append_copy d s = copy d (make_room s)
