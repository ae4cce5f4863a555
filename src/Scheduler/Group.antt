-- ===== src/Scheduler/Group.antt =====
-- src/kernel/CommScheduler.cc and CommScheduler.h: the operations of a target and of a group. What
-- happens under the locks of a target and its group is one step.
use myworkflow.Base.{
  ℕ, ◌+◌, ◌-◌, ◌*◌, ◌%◌, Bool, true, false, not, ◌&&◌, Option, none, some, ltb, ◌==◌, if◌then◌else◌,
}
use myworkflow.Scheduler.{update, Heap, word, less, place, heap_adjust, heapify}

-- The `CommSchedGroup` that is `this`, with the fields of the targets. `target_group` is `some g` for the
-- group at `g`.
pub record Group : Type 0 where
  pub this : ℕ
  pub heap : Heap
  pub heap_size : ℕ
  pub heap_buf_size : ℕ
  pub max_load : ℕ
  pub cur_load : ℕ
  pub wait_cnt : ℕ
  pub target_max : ℕ → ℕ
  pub target_cur : ℕ → ℕ
  pub target_wait : ℕ → ℕ
  pub target_group : ℕ → Option ℕ

abbrev pub before : Group → ℕ → ℕ → Bool
before s = less s.target_cur s.target_max

-- `target->group == this`.
abbrev pub in_group : Group → ℕ → Bool
in_group s t = elim (s.target_group t) [ none ↦ false | some g ↦ g == s.this ]

abbrev pub is_free : Option ℕ → Bool
is_free none = true
is_free (some g) = false

abbrev pub set_group : (ℕ → Option ℕ) → ℕ → Option ℕ → ℕ → Option ℕ
set_group f t g x = if x == t then g else f x

-- `x--` on a `size_t`.
abbrev pub decrement : ℕ → ℕ
decrement x = (x + word - 1) % word

-- The end of `CommSchedGroup::init`, when nothing has failed.
unfoldable pub init : Group → Group
init s = record s { heap_buf_size = 4; heap_size = 0; max_load = 0; cur_load = 0; wait_cnt = 0 }

-- `CommSchedTarget::acquire` after the wait for room, if there was one: whether it got the target.
-- Without a wait `false` is `EAGAIN`.
unfoldable pub acquire_target : ℕ → Group → Bool × Group
unfolding heapify
acquire_target t s =
    if ltb (s.target_cur t) (s.target_max t)
    then (let u = record s { target_cur = update s.target_cur t (s.target_cur t + 1) } in
        if in_group s t
        then (
          true,
          record u {
            cur_load = (s.cur_load + 1) % word;
            heap = heapify (before u) s.heap_size (s.heap.index t) s.heap;
          },
        )
        else (true, u))
    else (false, s)

-- `CommSchedTarget::release`; the signals only wake those who wait. `idle` is `has_idle_conn ()`.
unfoldable pub release : Bool → ℕ → Group → Group
unfolding heap_adjust
release idle t s =
    let u = record s { target_cur = update s.target_cur t (decrement (s.target_cur t)) } in
    if in_group s t
    then record u {
      cur_load = decrement s.cur_load;
      heap = heap_adjust (before u) idle (s.heap.index t) s.heap;
    }
    else u

-- `CommSchedGroup::acquire` after the wait for room, if there was one: the target, or `EAGAIN`.
unfoldable pub acquire : Group → Option ℕ × Group
unfolding heapify
acquire s =
    if ltb s.cur_load s.max_load
    then (let t = s.heap.tg_heap 0 in
        let u = record s {
          target_cur = update s.target_cur t (s.target_cur t + 1);
          cur_load = (s.cur_load + 1) % word;
        } in
        (some t, record u { heap = heapify (before u) s.heap_size 0 s.heap }))
    else (none, s)

-- `heap_insert`, where the array has room.
unfoldable pub insert_at : ℕ → Group → Group
unfolding heap_adjust
insert_at t s = record s {
  heap = heap_adjust (before s) false s.heap_size (place s.heap_size t s.heap);
  heap_size = s.heap_size + 1;
}

-- A pointer has eight bytes.
unfoldable pub heap_insert : (ℕ → Bool) → ℕ → Group → Bool × Group
unfolding insert_at
heap_insert realloc_ok t s =
    if s.heap_size == s.heap_buf_size
    then (if realloc_ok (2 * s.heap_buf_size * 8)
        then (true, insert_at t (record s { heap_buf_size = 2 * s.heap_buf_size }))
        else (false, s))
    else (true, insert_at t s)

unfoldable pub heap_remove : ℕ → Group → Group
unfolding heap_adjust heapify
heap_remove index s =
    let last = s.heap_size - 1 in
    let t = s.heap.tg_heap last in
    let h = heap_adjust (before s) false index (place index t s.heap) in
    if index == last
    then record s { heap_size = last }
    else record s { heap_size = last; heap = heapify (before s) last (h.index t) h }

-- What `add` and `remove` return: 0, or -1 with `errno`.
pub data GroupRet : Type 0 where
  ok : GroupRet
  enomem : GroupRet
  eexist : GroupRet
  einval : GroupRet
  ebusy : GroupRet
  enoent : GroupRet

abbrev pub end_add : ℕ → Bool × Group → GroupRet × Group
end_add t (true, s) = (
  ok,
  record s {
    target_group = set_group s.target_group t (some s.this);
    max_load = (s.max_load + s.target_max t) % word;
    cur_load = (s.cur_load + s.target_cur t) % word;
  },
)
end_add t (false, s) = (enomem, s)

unfoldable pub add : (ℕ → Bool) → ℕ → Group → GroupRet × Group
unfolding heap_insert
add realloc_ok t s =
    if is_free (s.target_group t) && s.target_wait t == 0
    then end_add t (heap_insert realloc_ok t s)
    else if in_group s t
    then (eexist, s)
    else if not (is_free (s.target_group t))
    then (einval, s)
    else (ebusy, s)

unfoldable pub remove : ℕ → Group → GroupRet × Group
unfolding heap_remove
remove t s =
    if in_group s t && s.target_wait t == 0
    then (let r = heap_remove (s.heap.index t) s in
        (
          ok,
          record r {
            max_load = s.max_load - s.target_max t;
            cur_load = s.cur_load - s.target_cur t;
            target_group = set_group s.target_group t none;
          },
        ))
    else if not (in_group s t)
    then (enoent, s)
    else (ebusy, s)
