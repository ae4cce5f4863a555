-- ===== src/MsgQueue/Get.antt =====
-- `msgqueue_get` of src/kernel/msgqueue.c takes the first message, over the exchange of the lists.
use myworkflow.Base.{
  true, ltb, ℕ, ◌≡◌, refl, ◌∙◌, Bool, false, not, ◌&&◌, Option, none, some, List, [], ◌∷◌, ◌==◌,
  arith,
}
use myworkflow.MsgQueue.{link, write, Queue, swap, take_head, get}
use myworkflow.MsgQueue.Chain.{
  same_cell_comm, write-Chain, head-Off, head-Simple, tail-Chain, Apart-tail,
}
use myworkflow.MsgQueue.Refine.{Lists}

take_head-Lists :
    (q : Queue) (g : ℕ) (gs ps : List ℕ)
    → Lists q (g ∷ gs) ps
    → (q' : Queue) × (take_head q ≡ (some g, q')) × Lists q' gs ps
unfolding take_head
take_head-Lists q g gs ps h =
    let (a, b, c) = h.heads in
    let (e, ch) = h.got in
    let (f, n) = h.get_once in
    let (o, s) = head-Simple q.get_head (g ∷ gs) b h.get_once in
    let (t, got) = tail-Chain q.store q.get_head g gs h.get_tail h.got o in
    (
      record q { store = write q.get_head (q.store (link g)) q.store },
      rw (e, take_head),
      record {
        heads = h.heads;
        get_tail = t;
        got = got;
        putting =
            write-Chain q.store q.get_head (q.store (link g)) q.put_head ps q.put_tail h.putting
              (head-Off q.get_head q.put_head ps a b);
        get_once = n;
        put_once = h.put_once;
        apart = Apart-tail g gs ps h.apart;
        count = h.count;
        small = h.small;
      },
    )

abbrev swapped : Queue → Queue
swapped q = record q {
  get_head = q.put_head;
  put_head = q.get_head;
  put_tail = q.get_head;
  msg_cnt = 0;
}

swapped-Lists : (q : Queue) (ps : List ℕ) → Lists q [] ps → Lists (swapped q) ps []
swapped-Lists q ps h =
    let (a, b, c) = h.heads in
    let (e, same) = h.got in
    record {
      heads = (same_cell_comm q.put_head q.get_head ∙ a, c, b);
      get_tail = q.put_tail;
      got = h.putting;
      putting = (e, refl);
      get_once = h.put_once;
      put_once = tt;
      apart = tt;
      count = refl;
      small = omega arith;
    }

swap_lem :
    (q : Queue) → (q.msg_cnt == 0 && not q.nonblock) ≡ false → swap q ≡ some (q.msg_cnt, swapped q)
unfolding swap
swap_lem q w = rw w

get-swap :
    (q q' : Queue) (r : Option ℕ)
    → q.store q.get_head ≡ none
    → (q.msg_cnt == 0 && not q.nonblock) ≡ false
    → ltb 0 q.msg_cnt ≡ true
    → take_head (swapped q) ≡ (r, q')
    → get q ≡ some (r, q')
unfolding get
get-swap q q' r e w some_put t = rw (get, e, swap_lem q w, some_put, t)

-- What `msgqueue_get` makes of the two lists.
abbrev pub Got : List ℕ → List ℕ → Option ℕ → Queue → Type 0
Got (g ∷ gs) ps r q = (r ≡ some g) × Lists q gs ps
Got [] (p ∷ ps) r q = (r ≡ some p) × Lists q ps []
Got [] [] r q = (r ≡ none) × Lists q [] []

-- The condition on which a consumer waits: both lists are empty and the queue blocks.
abbrev pub get_waits : Queue → List ℕ → List ℕ → Bool
get_waits q [] [] = not q.nonblock
get_waits q gs ps = false

-- `msgqueue_get`, unless both lists are empty and the queue blocks, ends with the first message of the
-- list that is got from, or, when that is empty, of the list that is put, which is then the list that
-- is got from; it returns NULL when both are empty.
pub get-Got :
    (q : Queue) (gs ps : List ℕ)
    → Lists q gs ps
    → get_waits q gs ps ≡ false
    → (r : Option ℕ) × (q' : Queue) × (get q ≡ some (r, q')) × Got gs ps r q'
unfolding get
get-Got q (g ∷ gs) ps h w =
    let (e, ch) = h.got in
    let (q', r, l) = take_head-Lists q g gs ps h in (some g, q', rw (e, get, r), (refl, l))
get-Got q [] (p ∷ ps) h w =
    let (e, ch) = h.got in
    let (q', r, l) = take_head-Lists (swapped q) p ps [] (swapped-Lists q (p ∷ ps) h) in
    (
      some p,
      q',
      get-swap q q' (some p) e (ground (arith, h.count)) (ground (arith, h.count)) r,
      (refl, l),
    )
get-Got q [] [] h w =
    let (e, ch) = h.got in
    (
      none,
      swapped q,
      rw (e, get, swap_lem q (ground (arith, w)), h.count),
      (refl, swapped-Lists q [] h),
    )
