-- ===== src/MsgQueue.antt =====
-- src/kernel/msgqueue.c: two chains of messages in one store of links. Each operation is one step
-- under the locks it takes; `none` is a thread that waits on its condition.
pub mod Chain
pub mod Refine
pub mod First
pub mod Get
mod Tests
use myworkflow.Base.{
  ℕ, zero, suc, ◌+◌, ◌-◌, Bool, true, false, not, ◌&&◌, Option, none, some, List, [], ◌∷◌, ltb,
  ◌==◌, if◌then◌else◌,
}

-- Where a link is stored: `head1`, `head2`, or a message at `linkoff`.
pub data Cell : Type 0 where
  head1 : Cell
  head2 : Cell
  link : ℕ → Cell

abbrev pub same_cell : Cell → Cell → Bool
same_cell head1 head1 = true
same_cell head1 head2 = false
same_cell head1 (link n) = false
same_cell head2 head1 = false
same_cell head2 head2 = true
same_cell head2 (link n) = false
same_cell (link m) head1 = false
same_cell (link m) head2 = false
same_cell (link m) (link n) = m == n

-- What each cell points to: `none` is NULL, `some m` the link of the message `m`.
abbrev pub Store : Type 0
Store = Cell → Option ℕ

abbrev pub write : Cell → Option ℕ → Store → Store
write c v store d = if same_cell c d then v else store d

-- `struct __msgqueue` with the links of its messages; the locks and conditions are not data.
pub record Queue : Type 0 where
  pub msg_max : ℕ
  pub msg_cnt : ℕ
  pub nonblock : Bool
  pub store : Store
  pub get_head : Cell
  pub put_head : Cell
  pub put_tail : Cell

-- The values of `size_t` are below it.
abbrev pub size_mod : ℕ
size_mod = 18446744073709551616

-- `msg_max - 1` in `size_t`: the greatest value when `msg_max` is 0.
abbrev pub msg_last : ℕ → ℕ
msg_last zero = 18446744073709551615
msg_last (suc n) = n

abbrev pub next_cnt : ℕ → ℕ
next_cnt n = if ltb (n + 1) size_mod then n + 1 else 0

-- The end of `msgqueue_create`, when nothing has failed.
unfoldable pub create : ℕ → Queue
create maxlen = record {
  msg_max = maxlen;
  msg_cnt = 0;
  nonblock = false;
  store = λ c. none;
  get_head = head1;
  put_head = head2;
  put_tail = head2;
}

unfoldable pub set_nonblock : Queue → Queue
set_nonblock q = record q { nonblock = true }

unfoldable pub set_block : Queue → Queue
set_block q = record q { nonblock = false }

-- The condition on which a producer waits.
abbrev pub put_waits : Queue → Bool
put_waits q = ltb (msg_last q.msg_max) q.msg_cnt && not q.nonblock

unfoldable pub put : ℕ → Queue → Option Queue
put msg q =
    let cleared = record q { store = write (link msg) none q.store } in
    if put_waits cleared
    then none
    else some (record cleared {
      store = write q.put_tail (some msg) cleared.store;
      put_tail = link msg;
      msg_cnt = next_cnt q.msg_cnt;
    })

-- `if (*link == NULL) put_tail = link`.
abbrev pub tail_after : Option ℕ → ℕ → Cell → Cell
tail_after none msg tail = link msg
tail_after (some m) msg tail = tail

-- Behind the loop of `msgqueue_put_head`: the message goes before the list that is put.
unfoldable pub put_first : ℕ → Queue → Option Queue
put_first msg q =
    let linked = write (link msg) (q.store q.put_head) q.store in
    if put_waits q
    then none
    else some (record q {
      store = write q.put_head (some msg) linked;
      put_tail = tail_after (q.store q.put_head) msg q.put_tail;
      msg_cnt = next_cnt q.msg_cnt;
    })

-- `msgqueue_put_head`, where no consumer holds `get_mutex`: the first `trylock` succeeds.
unfoldable pub put_head : ℕ → Queue → Option Queue
unfolding put_first
put_head msg q = elim (q.store q.get_head) [
  | none ↦ put_first msg q
  | some m ↦
      some (record q { store = write q.get_head (some msg) (write (link msg) (some m) q.store) })
]

-- `__msgqueue_swap`: the count that was put, and the queue with its lists exchanged.
unfoldable pub swap : Queue → Option (ℕ × Queue)
swap q =
    if q.msg_cnt == 0 && not q.nonblock
    then none
    else some (
      q.msg_cnt,
      record q { get_head = q.put_head; put_head = q.get_head; put_tail = q.get_head; msg_cnt = 0 },
    )

-- The head of the list that is got from leaves it.
unfoldable pub take_head : Queue → Option ℕ × Queue
take_head q = elim (q.store q.get_head) [
  | none ↦ (none, q)
  | some msg ↦ (some msg, record q { store = write q.get_head (q.store (link msg)) q.store })
]

abbrev pub after_swap : Option (ℕ × Queue) → Option (Option ℕ × Queue)
unfolding take_head
after_swap none = none
after_swap (some (cnt, q)) = if ltb 0 cnt then some (take_head q) else some (none, q)

unfoldable pub get : Queue → Option (Option ℕ × Queue)
unfolding swap take_head
get q = elim (q.store q.get_head) [ none ↦ after_swap (swap q) | some m ↦ some (take_head q) ]
