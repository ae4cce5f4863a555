-- ===== src/MsgQueue/First.antt =====
-- `msgqueue_put_head` of src/kernel/msgqueue.c puts a message before all others.
use myworkflow.Base.{ℕ, suc, ◌<◌, ◌≡◌, ◌∙◌, false, some, List, [], ◌∷◌, arith, length}
use myworkflow.MsgQueue.{
  link, write, Queue, size_mod, next_cnt, put_waits, tail_after, put_first, put_head,
}
use myworkflow.MsgQueue.Chain.{
  Fresh, same_cell_comm, write-Chain, head-Off, head-Simple, cons-Chain, Apart-cons,
}
use myworkflow.MsgQueue.Refine.{Lists, get_head-Off, put_head-Off}

-- What `msgqueue_put_head` makes of the two lists: the message is the first of them.
abbrev pub PutFirst : List ℕ → List ℕ → ℕ → Queue → Type 0
PutFirst [] ps m q = Lists q [] (m ∷ ps)
PutFirst (g ∷ gs) ps m q = Lists q (m ∷ g ∷ gs) ps

put_first-Lists :
    (q : Queue) (ps : List ℕ) (m : ℕ)
    → Lists q [] ps
    → Fresh m ps
    → put_waits q ≡ false
    → suc (length ps) < size_mod
    → (q' : Queue) × (put_first m q ≡ some q') × Lists q' [] (m ∷ ps)
unfolding put_first
put_first-Lists q ps m h f w room =
    let (a, b, c) = h.heads in
    let linked = write (link m) (q.store q.put_head) q.store in
    let off = put_head-Off q [] ps m h f in
    (
      record q {
        store = write q.put_head (some m) linked;
        put_tail = tail_after (q.store q.put_head) m q.put_tail;
        msg_cnt = next_cnt q.msg_cnt;
      },
      rw w,
      record {
        heads = h.heads;
        get_tail = h.get_tail;
        got =
            write-Chain linked q.put_head (some m) q.get_head [] h.get_tail
              (write-Chain q.store (link m) (q.store q.put_head) q.get_head [] h.get_tail h.got
                (get_head-Off q [] ps m h tt))
              (same_cell_comm q.put_head q.get_head ∙ a);
        putting =
            cons-Chain q.store q.put_head m ps q.put_tail h.putting off
              (head-Simple q.put_head ps c h.put_once) (c m);
        get_once = tt;
        put_once = (f, h.put_once);
        apart = (tt, h.apart);
        count = ground (arith, h.count);
        small = room;
      },
    )

put_get-Lists :
    (q : Queue) (g : ℕ) (gs ps : List ℕ) (m : ℕ)
    → Lists q (g ∷ gs) ps
    → Fresh m (g ∷ gs)
    → Fresh m ps
    → Lists
        (record q {
          store = write q.get_head (some m) (write (link m) (q.store q.get_head) q.store);
        })
        (m ∷ g ∷ gs)
        ps
put_get-Lists q g gs ps m h fg fp =
    let (a, b, c) = h.heads in
    let linked = write (link m) (q.store q.get_head) q.store in
    record {
      heads = h.heads;
      get_tail = tail_after (q.store q.get_head) m h.get_tail;
      got =
          cons-Chain q.store q.get_head m (g ∷ gs) h.get_tail h.got
            (get_head-Off q (g ∷ gs) ps m h fg) (head-Simple q.get_head (g ∷ gs) b h.get_once)
            (b m);
      putting =
          write-Chain linked q.get_head (some m) q.put_head ps q.put_tail
            (write-Chain q.store (link m) (q.store q.get_head) q.put_head ps q.put_tail h.putting
              (put_head-Off q (g ∷ gs) ps m h fp))
            (head-Off q.get_head q.put_head ps a b);
      get_once = (fg, h.get_once);
      put_once = h.put_once;
      apart = Apart-cons m (g ∷ gs) ps h.apart fp;
      count = h.count;
      small = h.small;
    }

-- `msgqueue_put_head` of a message that is in neither list, where the queue has room or does not block
-- and no consumer holds its lock, ends, and the message is the first that a consumer gets.
pub put_head-PutFirst :
    (q : Queue) (gs ps : List ℕ) (m : ℕ)
    → Lists q gs ps
    → Fresh m gs
    → Fresh m ps
    → put_waits q ≡ false
    → suc (length ps) < size_mod
    → (q' : Queue) × (put_head m q ≡ some q') × PutFirst gs ps m q'
unfolding put_head
put_head-PutFirst q [] ps m h fg fp w room =
    let (e, same) = h.got in
    let (q', r, l) = put_first-Lists q ps m h fp w room in (q', rw (e, put_head, r), l)
put_head-PutFirst q (g ∷ gs) ps m h fg fp w room =
    let (e, ch) = h.got in
    (
      record q { store = write q.get_head (some m) (write (link m) (q.store q.get_head) q.store) },
      rw (e, put_head),
      put_get-Lists q g gs ps m h fg fp,
    )
