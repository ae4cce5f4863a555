-- ===== src/Scheduler/Acquire.antt =====
-- Acquiring and releasing targets of a group (src/kernel/CommScheduler.cc).
use myworkflow.Base.{ℕ, ◌+◌, ◌-◌, ◌%◌, ◌<◌, ◌≡◌, sym, subst, ◌∙◌, Bool, false, arith}
use myworkflow.Scheduler.{update, word, less, parent, heap_adjust, heapify}
use myworkflow.Scheduler.Order.{heapify-IsHeap}
use myworkflow.Scheduler.Rise.{heap_adjust-Settled, Settled-IsHeap}
use myworkflow.Scheduler.Links.{sum-same, heapify-Kept, heap_adjust-Kept}
use myworkflow.Scheduler.Load.{
  AreLoads-update, less_total, less_trans, less-raised, less-lowered, less-others,
}
use myworkflow.Scheduler.Group.{Group, before, in_group, decrement}
use myworkflow.Scheduler.Valid.{IsValid, changed-IsOpen, sum-changed, sum-le, distinct}

abbrev pub raised : Group → ℕ → Group
raised s t = record s {
  target_cur = update s.target_cur t (s.target_cur t + 1);
  cur_load = (s.cur_load + 1) % word;
}

abbrev pub sunk : Group → ℕ → Group
sunk s i =
    let u = raised s (s.heap.tg_heap i) in
    record u { heap = heapify (before u) s.heap_size i s.heap }

pub sunk-IsValid :
    (s : Group) (i : ℕ)
    → IsValid s
    → i < s.heap_size
    → s.target_cur (s.heap.tg_heap i) < s.target_max (s.heap.tg_heap i)
    → IsValid (sunk s i)
sunk-IsValid s i v p q =
    let t = s.heap.tg_heap i in
    let n = s.heap_size in
    let cur = update s.target_cur t (s.target_cur t + 1) in
    let l =
      AreLoads-update s.target_cur s.target_max t (s.target_cur t + 1) v.loads (omega arith) in
    let new = less cur s.target_max in
    let k = heapify-Kept (in_group s) n new i s.heap p v.indexed in
    let h = heapify new n i s.heap in
    let sums = λ (f : ℕ → ℕ). k.sums f ∙ sum-same f n s.heap.tg_heap i p in
    let changed =
      sum-changed s.target_cur n s.heap.tg_heap i (s.target_cur t + 1) p
        (distinct (in_group s) n s.heap i p v.indexed) in
    let le = sum-le cur s.target_max n s.heap.tg_heap l.bounded in
    let other = distinct (in_group s) n s.heap i p v.indexed in
    record {
      heap =
          heapify-IsHeap new (less_total cur s.target_max l) (less_trans cur s.target_max l) n i
            s.heap p
            (changed-IsOpen (before s) new (in_group s) n s.heap i
              (less_trans s.target_cur s.target_max v.loads)
              (less-others s.target_cur s.target_max t (s.target_cur t + 1)) p v.indexed v.heap)
            (λ r.
              less-raised s.target_cur s.target_max t (s.heap.tg_heap (parent i)) v.loads l
                (other (parent i) (omega arith) (omega arith)) (v.heap i r p));
      indexed = k.indexed;
      room = v.room;
      buffer = v.buffer;
      max_sum = v.max_sum ∙ sym (sums s.target_max);
      cur_sum = omega (arith, sums cur, changed, v.cur_sum, v.max_sum, le, v.small);
      small = v.small;
      loads = l;
    }

abbrev pub lowered : Group → ℕ → Group
lowered s t = record s {
  target_cur = update s.target_cur t (decrement (s.target_cur t));
  cur_load = decrement s.cur_load;
}

abbrev pub risen : Bool → Group → ℕ → Group
risen idle s i =
    let u = lowered s (s.heap.tg_heap i) in record u { heap = heap_adjust (before u) idle i s.heap }

pub risen-IsValid :
    (idle : Bool) (s : Group) (i : ℕ)
    → IsValid s
    → i < s.heap_size
    → 0 < s.target_cur (s.heap.tg_heap i)
    → IsValid (risen idle s i)
risen-IsValid idle s i v p q =
    let t = s.heap.tg_heap i in
    let n = s.heap_size in
    let one_less : decrement (s.target_cur t) ≡ s.target_cur t - 1 =
      omega (arith, v.loads.bounded t, v.loads.small t) in
    let x = decrement (s.target_cur t) in
    let cur = update s.target_cur t x in
    let l =
      AreLoads-update s.target_cur s.target_max t x v.loads (omega (arith, v.loads.bounded t)) in
    let new = less cur s.target_max in
    let k = heap_adjust-Kept (in_group s) n new idle i s.heap p v.indexed in
    let h = heap_adjust new idle i s.heap in
    let sums = λ (f : ℕ → ℕ). k.sums f ∙ sum-same f n s.heap.tg_heap i p in
    let other = distinct (in_group s) n s.heap i p v.indexed in
    let changed = sum-changed s.target_cur n s.heap.tg_heap i x p other in
    let le = sum-le s.target_cur s.target_max n s.heap.tg_heap v.loads.bounded in
    let settled =
      heap_adjust-Settled new (less_total cur s.target_max l) (less_trans cur s.target_max l) idle n
        i s.heap (Unit {0}) p
        (changed-IsOpen (before s) new (in_group s) n s.heap i
          (less_trans s.target_cur s.target_max v.loads) (less-others s.target_cur s.target_max t x)
          p v.indexed v.heap)
        (λ u c r r' e.
          less-lowered s.target_cur s.target_max t (s.heap.tg_heap c) x v.loads l (omega arith)
            (other c r' (omega arith))
            (subst (λ j. before s (s.heap.tg_heap c) (s.heap.tg_heap j) ≡ false) e
              (v.heap c r r'))) in
    record {
      heap =
          Settled-IsHeap new (less_total cur s.target_max l) (less_trans cur s.target_max l) n t h
            (Unit {0}) settled tt;
      indexed = k.indexed;
      room = v.room;
      buffer = v.buffer;
      max_sum = v.max_sum ∙ sym (sums s.target_max);
      cur_sum = omega (arith, sums cur, changed, v.cur_sum, v.max_sum, le, v.small, one_less);
      small = v.small;
      loads = l;
    }
