-- ===== src/Series.antt =====
-- src/factory/Workflow.cc and Workflow.h: the queue of a `SeriesWork`. A task is its address, which
-- is not NULL; the lock makes each operation one step.
pub mod Window
pub mod Refine
pub mod Pop
pub mod Delete
mod Tests
use myworkflow.Base.{
  ℕ, zero, suc, ◌+◌, ◌-◌, ◌*◌, Bool, true, false, not, Option, none, some, List, [], ◌∷◌, ◌++◌, ltb,
  ◌==◌, if◌then◌else◌, get_or, set, replicate,
}

-- `SubTask *`: `none` is NULL.
abbrev pub Slot : Type 0
Slot = Option ℕ

-- What the callback and the destructor do to the outside: in the order in which they happen.
pub data Event : Type 0 where
  task_deleted : ℕ → Event
  series_called_back : Event
  series_deleted : Event

-- `SeriesWork`: the queue, and what `pop_task` and `pop` read. `has_callback` and `in_parallel` tell
-- whether the pointers are set.
pub record Series : Type 0 where
  pub first : ℕ
  pub last : Slot
  pub queue : List Slot
  pub queue_size : ℕ
  pub front : ℕ
  pub back : ℕ
  pub canceled : Bool
  pub finished : Bool
  pub has_callback : Bool
  pub in_parallel : Bool
  pub events : List Event

-- The constructor: the four slots of `buf` hold no task yet.
unfoldable pub create : ℕ → Bool → Series
create first has_callback = record {
  first = first;
  last = none;
  queue = replicate 4 none;
  queue_size = 4;
  front = 0;
  back = 0;
  canceled = false;
  finished = false;
  has_callback = has_callback;
  in_parallel = false;
  events = [];
}

-- `if (++i == size) i = 0`.
abbrev pub next_index : ℕ → ℕ → ℕ
next_index size i = if i + 1 == size then 0 else i + 1

-- `if (--i == -1) i = size - 1`.
abbrev pub prev_index : ℕ → ℕ → ℕ
prev_index size i = if i == 0 then size - 1 else i - 1

-- The loop of `expand_queue`, on fuel: `to` is the new array, `i` and `j` the two indices.
unfoldable pub copy_loop : ℕ → List Slot → ℕ → ℕ → List Slot → ℕ → ℕ → Option (List Slot × ℕ)
copy_loop zero from size back to i j = none
copy_loop (suc fuel) from size back to i j =
    let to' = set to i (get_or from j none) in
    let j' = next_index size j in
    let rest = copy_loop fuel from size back to' (i + 1) j' in
    if j' == back then some (to', i + 1) else rest

-- `expand_queue`: it is called on a full queue.
unfoldable pub expand_queue : Series → Option Series
unfolding copy_loop
expand_queue s =
    let size = 2 * s.queue_size in
    elim (copy_loop s.queue_size s.queue s.queue_size s.back (replicate size none) 0 s.front) [
      | none ↦ none
      | some (queue, i) ↦ some (record s { queue = queue; queue_size = size; front = 0; back = i })
    ]

-- `if (front == back) expand_queue ()`.
abbrev pub if_full : Series → Option Series
if_full s = if s.front == s.back then expand_queue s else some s

unfoldable pub push_front : Series → ℕ → Option Series
unfolding expand_queue
push_front s task =
    let i = prev_index s.queue_size s.front in
    if_full (record s { front = i; queue = set s.queue i (some task) })

unfoldable pub push_back : Series → ℕ → Option Series
unfolding expand_queue
push_back s task =
    if_full
      (record s { queue = set s.queue s.back (some task); back = next_index s.queue_size s.back })

-- The part of `pop_task` under the lock: the task, and the series without it.
unfoldable pub take_task : Series → Slot × Series
take_task s =
    if not (s.front == s.back)
    then (get_or s.queue s.front none, record s { front = next_index s.queue_size s.front })
    else (s.last, record s { last = none })

-- No task is left: the series is finished, calls back, and deletes itself unless it is in parallel.
unfoldable pub finish : Series → Series
finish s =
    let called = if s.has_callback then series_called_back ∷ [] else [] in
    let deleted = if s.in_parallel then [] else series_deleted ∷ [] in
    record s { finished = true; events = s.events ++ (called ++ deleted) }

abbrev pub end_pop : Slot × Series → Slot × Series
end_pop (some task, s) = (some task, s)
end_pop (none, s) = (none, finish s)

unfoldable pub pop_task : Series → Slot × Series
unfolding take_task finish
pop_task s = end_pop (take_task s)

-- `while (task) { delete task; task = pop_task (); }`, on fuel.
unfoldable pub delete_loop : ℕ → Slot × Series → Option Series
unfolding pop_task
delete_loop zero (task, s) = none
delete_loop (suc fuel) (none, s) = some s
delete_loop (suc fuel) (some task, s) =
    delete_loop fuel (pop_task (record s { events = s.events ++ (task_deleted task ∷ []) }))

abbrev pub null_after : Option Series → Option (Slot × Series)
null_after none = none
null_after (some s) = some (none, s)

-- `pop`: a canceled series deletes its tasks.
unfoldable pub pop : ℕ → Series → Option (Slot × Series)
unfolding delete_loop
pop fuel s =
    if not s.canceled then some (pop_task s) else null_after (delete_loop fuel (pop_task s))

unfoldable pub cancel : Series → Series
cancel s = record s { canceled = true }

unfoldable pub set_last_task : Series → ℕ → Series
set_last_task s last = record s { last = some last }

unfoldable pub unset_last_task : Series → Series
unset_last_task s = record s { last = none }

-- `dismiss_recursive`: the callback is dropped, then the tasks are deleted from `first` on. The loop
-- deletes before it pops.
unfoldable pub dismiss_recursive : ℕ → Series → Option Series
unfolding delete_loop
dismiss_recursive fuel s = delete_loop fuel (some s.first, record s { has_callback = false })
