-- ===== src/MsgQueue/Refine.antt =====
-- The queue of src/kernel/msgqueue.c is a queue of messages: the list that is got from, then the one
-- that is put.
use myworkflow.Base.{
  ℕ, suc, ◌<◌, ◌≡◌, refl, ◌∙◌, false, none, some, List, [], ◌∷◌, ◌++◌, arith, length, length-append,
}
use myworkflow.MsgQueue.{
  Cell, head1, link, same_cell, write, Queue, size_mod, next_cnt, create, put_waits, put,
}
use myworkflow.MsgQueue.Chain.{
  Chain, Off, Fresh, Nodup, Apart, same_cell_refl, same_cell_comm, write-Chain, Fresh-Off,
  Off-end_other, head-Off, head-Simple, snoc-Chain, Nodup-snoc, Apart-snoc,
}

-- The two heads are `head1` and `head2`, in some order.
abbrev pub IsHeads : Cell → Cell → Type 0
IsHeads g p =
    (same_cell g p ≡ false)
    × ((m : ℕ) → same_cell g (link m) ≡ false)
    × ((m : ℕ) → same_cell p (link m) ≡ false)

-- The queue holds the messages `gs` in the list that is got from, and `ps` in the one that is put.
pub record Lists (q : Queue) (gs ps : List ℕ) : Type 0 where
  pub heads : IsHeads q.get_head q.put_head
  pub get_tail : Cell
  pub got : Chain q.store q.get_head gs get_tail
  pub putting : Chain q.store q.put_head ps q.put_tail
  pub get_once : Nodup gs
  pub put_once : Nodup ps
  pub apart : Apart gs ps
  pub count : q.msg_cnt ≡ length ps
  pub small : length ps < size_mod

pub get_head-Off :
    (q : Queue) (gs ps : List ℕ) (m : ℕ) → Lists q gs ps → Fresh m gs → Off (link m) q.get_head gs
get_head-Off q gs ps m h f =
    let (a, b, c) = h.heads in
    Fresh-Off m q.get_head gs (same_cell_comm (link m) q.get_head ∙ b m) f

pub put_head-Off :
    (q : Queue) (gs ps : List ℕ) (m : ℕ) → Lists q gs ps → Fresh m ps → Off (link m) q.put_head ps
put_head-Off q gs ps m h f =
    let (a, b, c) = h.heads in
    Fresh-Off m q.put_head ps (same_cell_comm (link m) q.put_head ∙ c m) f

put_tail-Off : (q : Queue) (gs ps : List ℕ) → Lists q gs ps → Off q.put_tail q.get_head gs
put_tail-Off q gs ps h =
    let (a, b, c) = h.heads in
    Off-end_other q.store q.put_head ps q.put_tail q.get_head gs h.putting
      (head-Off q.put_head q.get_head gs (same_cell_comm q.put_head q.get_head ∙ a) c)
      (λ m. same_cell_comm (link m) q.get_head ∙ b m) h.apart

create-Lists : (maxlen : ℕ) → Lists (create maxlen) [] []
unfolding create
create-Lists maxlen = record {
  heads = (refl, λ m. refl, λ m. refl);
  get_tail = head1;
  got = (refl, refl);
  putting = (refl, refl);
  get_once = tt;
  put_once = tt;
  apart = tt;
  count = refl;
  small = omega arith;
}

-- `msgqueue_put` of a message that is in neither list, where the queue has room or does not block,
-- ends, and appends the message to the list that is put.
pub put-Lists :
    (q : Queue) (gs ps : List ℕ) (m : ℕ)
    → Lists q gs ps
    → Fresh m gs
    → Fresh m ps
    → put_waits q ≡ false
    → suc (length ps) < size_mod
    → (q' : Queue) × (put m q ≡ some q') × Lists q' gs (ps ++ (m ∷ []))
unfolding put
put-Lists q gs ps m h fg fp w room =
    let store = write (link m) none q.store in
    let (a, b, c) = h.heads in
    let off = put_head-Off q gs ps m h fp in
    let got =
      write-Chain q.store (link m) none q.get_head gs h.get_tail h.got
        (get_head-Off q gs ps m h fg) in
    let putting = write-Chain q.store (link m) none q.put_head ps q.put_tail h.putting off in
    (
      record q {
        store = write q.put_tail (some m) store;
        put_tail = link m;
        msg_cnt = next_cnt q.msg_cnt;
      },
      rw w,
      record {
        heads = h.heads;
        get_tail = h.get_tail;
        got =
            write-Chain store q.put_tail (some m) q.get_head gs h.get_tail got
              (put_tail-Off q gs ps h);
        putting =
            snoc-Chain store q.put_head ps q.put_tail m putting (rw (same_cell_refl (link m))) off
              (head-Simple q.put_head ps c h.put_once);
        get_once = h.get_once;
        put_once = Nodup-snoc m ps h.put_once fp;
        apart = Apart-snoc m gs ps h.apart fg;
        count = ground (arith, h.count, length-append ps (m ∷ []));
        small = ground (arith, length-append ps (m ∷ []));
      },
    )
