-- ===== src/MsgQueue/Tests.antt =====
-- The queue of src/kernel/msgqueue.c with a message in each list.
use myworkflow.Base.{ℕ, ◌≡◌, refl, false, Option, none, some, [], ◌∷◌, arith}
use myworkflow.MsgQueue.{head1, head2, link, Store, Queue, put, put_head, get}
use myworkflow.MsgQueue.Refine.{Lists, put-Lists}
use myworkflow.MsgQueue.First.{PutFirst, put_head-PutFirst}
use myworkflow.MsgQueue.Get.{Got, get-Got}

abbrev links : Store
links head1 = some 1
links head2 = some 2
links (link n) = none

abbrev two : Queue
two = record {
  msg_max = 2;
  msg_cnt = 1;
  nonblock = false;
  store = links;
  get_head = head1;
  put_head = head2;
  put_tail = link 2;
}

two-Lists : Lists two (1 ∷ []) (2 ∷ [])
two-Lists = record {
  heads = (refl, λ m. refl, λ m. refl);
  get_tail = link 1;
  got = (refl, (refl, refl));
  putting = (refl, (refl, refl));
  get_once = (tt, tt);
  put_once = (tt, tt);
  apart = ((refl, tt), tt);
  count = refl;
  small = omega arith;
}

put-Lists_example : (q : Queue) × (put 3 two ≡ some q) × Lists q (1 ∷ []) (2 ∷ 3 ∷ [])
put-Lists_example =
    put-Lists two (1 ∷ []) (2 ∷ []) 3 two-Lists (refl, tt) (refl, tt) refl (omega arith)

put_head-PutFirst_example : (q : Queue) × (put_head 3 two ≡ some q) × PutFirst (1 ∷ []) (2 ∷ []) 3 q
put_head-PutFirst_example =
    put_head-PutFirst two (1 ∷ []) (2 ∷ []) 3 two-Lists (refl, tt) (refl, tt) refl (omega arith)

get-Got_example : (r : Option ℕ) × (q : Queue) × (get two ≡ some (r, q)) × Got (1 ∷ []) (2 ∷ []) r q
get-Got_example = get-Got two (1 ∷ []) (2 ∷ []) two-Lists refl
