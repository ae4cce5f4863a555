-- ===== src/Executor.antt =====
-- src/kernel/Executor.cc: queues of sessions that the threads of a pool execute. A queue and a session
-- are their addresses. What happens under a queue's lock is one step, and so is what a thread does
-- with the pool's message queue (src/kernel/thrdpool.c), which is not bounded.
pub mod Queues
pub mod Order
mod Tests
use myworkflow.Base.{
  ℕ, zero, suc, ◌+◌, Bool, true, false, Option, none, some, List, [], ◌∷◌, ◌++◌, ◌≡◌, ◌==◌,
  if◌then◌else◌,
}

-- `pool` holds the contexts of the tasks that the pool has not begun, and `running` of those that a
-- thread has begun, before it locks the queue. Of each queue, `accepted` are the sessions that were
-- requested with success, `taken` those that a thread has gone on to execute, `canceled` the others.
pub record Exec : Type 0 where
  pub session_list : ℕ → List ℕ
  pub pool : List ℕ
  pub running : List ℕ
  pub accepted : ℕ → List ℕ
  pub taken : ℕ → List ℕ
  pub canceled : ℕ → List ℕ

abbrev pub set_queue : (ℕ → List ℕ) → ℕ → List ℕ → ℕ → List ℕ
set_queue f q l x = if x == q then l else f x

-- The end of `ExecQueue::init` and `Executor::init`.
abbrev pub idle : Exec
idle = record {
  session_list = λ q. [];
  pool = [];
  running = [];
  accepted = λ q. [];
  taken = λ q. [];
  canceled = λ q. [];
}

-- `thrdpool_schedule`: 0 or -1; `malloc_ok` is of its buffer.
unfoldable pub thrdpool_schedule : Bool → ℕ → Exec → Bool × Exec
thrdpool_schedule malloc_ok q s =
    if malloc_ok then (true, record s { pool = s.pool ++ (q ∷ []) }) else (false, s)

abbrev pub accept : ℕ → ℕ → Exec → Exec
accept q session s = record s {
  session_list = set_queue s.session_list q (s.session_list q ++ (session ∷ []));
  accepted = set_queue s.accepted q (s.accepted q ++ (session ∷ []));
}

-- The entry stays in the list if a task for the queue was scheduled.
abbrev pub end_request : ℕ → ℕ → Exec → Bool × Exec → Bool × Exec
end_request q session s (true, t) = (true, accept q session t)
end_request q session s (false, t) = (false, s)

-- `Executor::request`: the two allocations are of the entry, and of the task's buffer.
unfoldable pub request : Bool → Bool → ℕ → ℕ → Exec → Bool × Exec
unfolding thrdpool_schedule
request entry_ok task_ok session q s =
    if entry_ok
    then elim (s.session_list q) [
      | [] ↦ end_request q session s (thrdpool_schedule task_ok q s)
      | x ∷ xs ↦ (true, accept q session s)
    ]
    else (false, s)

-- `msgqueue_get` in `__thrdpool_routine`.
unfoldable pub begin_task : Exec → Exec
begin_task s = elim (s.pool) [ [] ↦ s | q ∷ qs ↦ record s { pool = qs; running = q ∷ s.running } ]

-- The rest of the list, with the queue's task scheduled again if it is not empty.
abbrev pub after_del : ℕ → List ℕ → Exec → Exec
after_del q [] s = s
after_del q (x ∷ xs) s = record s { pool = s.pool ++ (q ∷ []) }

-- `executor_thread_routine` of the queue `q`; `rest` are the other tasks that run. `none` is the read
-- of an entry that is not there.
unfoldable pub executor_thread_routine : ℕ → List ℕ → Exec → Option Exec
executor_thread_routine q rest s = elim (s.session_list q) [
  | [] ↦ none
  | session ∷ sessions ↦ some (
      after_del q sessions (record s {
        session_list = set_queue s.session_list q sessions;
        running = rest;
        taken = set_queue s.taken q (s.taken q ++ (session ∷ []));
      }))
]

-- `executor_cancel`: every session of the queue is handled as canceled.
unfoldable pub executor_cancel : ℕ → Exec → Exec
executor_cancel q s = record s {
  session_list = set_queue s.session_list q [];
  canceled = set_queue s.canceled q (s.canceled q ++ s.session_list q);
}

-- The loop of `thrdpool_destroy` over the tasks that were not begun, with `executor_cancel`.
unfoldable pub cancel_loop : List ℕ → Exec → Exec
unfolding executor_cancel
cancel_loop [] s = s
cancel_loop (q ∷ qs) s = cancel_loop qs (executor_cancel q s)

-- `Executor::deinit`, after the pool's threads have ended.
unfoldable pub deinit : Exec → Exec
unfolding cancel_loop
deinit s = let t = cancel_loop s.pool s in record t { pool = [] }
