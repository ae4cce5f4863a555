-- ===== src/Executor/Tests.antt =====
-- Two sessions for one queue of src/kernel/Executor.cc.
use myworkflow.Base.{ℕ, ◌≡◌, refl, true, some, List, [], ◌∷◌, ◌++◌}
use myworkflow.Executor.{
  Exec, idle, thrdpool_schedule, request, begin_task, executor_thread_routine, executor_cancel,
  cancel_loop, deinit,
}
use myworkflow.Executor.Queues.{IsValid, requested, begun}
use myworkflow.Executor.Order.{
  Reach, here, next, Reach-IsValid, executor_thread_routine-taken, deinit-canceled,
}

abbrev twice : Exec
twice = (request true true 11 1 (request true true 10 1 idle).1).1

abbrev started : Exec
started = begin_task twice

twice-Reach : Reach idle twice
twice-Reach = next (next here (requested true true 10 1)) (requested true true 11 1)

started-Reach : Reach idle started
started-Reach = next twice-Reach begun

Reach-IsValid_example : IsValid started
Reach-IsValid_example = Reach-IsValid started started-Reach

started-running : started.running ≡ 1 ∷ []
unfolding begin_task request thrdpool_schedule
started-running = refl

executor_thread_routine-taken_example :
    (x : ℕ) × (l : List ℕ) × (t : Exec) × (started.session_list 1 ≡ x ∷ l)
    × (executor_thread_routine 1 [] started ≡ some t)
    × (t.session_list 1 ≡ l)
    × (t.taken 1 ≡ started.taken 1 ++ (x ∷ []))
executor_thread_routine-taken_example =
    executor_thread_routine-taken started 1 [] [] started-Reach started-running

twice-running : twice.running ≡ []
unfolding request thrdpool_schedule
twice-running = refl

deinit-canceled_example :
    ((deinit twice).session_list 1 ≡ [])
    × ((deinit twice).taken 1 ++ (deinit twice).canceled 1 ≡ twice.accepted 1)
deinit-canceled_example = deinit-canceled twice 1 twice-Reach twice-running

-- The second session is canceled behind the first.
both_canceled : (deinit twice).canceled 1 ≡ 10 ∷ 11 ∷ []
unfolding deinit cancel_loop executor_cancel request thrdpool_schedule
both_canceled = refl
