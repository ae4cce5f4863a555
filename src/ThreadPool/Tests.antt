-- ===== src/ThreadPool/Tests.antt =====
-- A pool of src/kernel/thrdpool.c with one thread, which exits before the pool is destroyed.
use myworkflow.Base.{◌≡◌, refl, none, some, [], ◌∷◌}
use myworkflow.ThreadPool.{
  Pool, create, create_thread, exit_begin, exit_end, terminate_begin, terminate_end,
}
use myworkflow.ThreadPool.Reach.{
  created, exits, ends, terminates, Reach, start, step, terminate_end-joined,
}

running : Pool
unfolding create_thread
running = create_thread 1 create

leaving : Pool
unfolding running exit_begin
leaving = exit_begin 1 [] running

left : Pool
unfolding leaving
left = record leaving { exiting = []; ended = 1 ∷ [] }

destroyed : Pool
unfolding left terminate_begin
destroyed = terminate_begin left

gone : Pool
unfolding destroyed
gone = record destroyed { ended = []; joined = 1 ∷ [] }

destroyed-Reach : Reach destroyed
unfolding running leaving left destroyed exit_end
destroyed-Reach =
    step left destroyed
      (step leaving left
        (step running leaving (step create running start (created 1 refl refl))
          (exits 1 [] [] refl))
        (ends 1 none [] [] left refl refl))
      (terminates refl)

destroyed-gone : terminate_end destroyed ≡ some gone
unfolding gone destroyed terminate_end
destroyed-gone = refl

terminate_end-joined_example :
    (gone.running ≡ []) × (gone.exiting ≡ []) × (gone.ended ≡ []) × (gone.joined ≡ gone.exited)
terminate_end-joined_example = terminate_end-joined destroyed gone destroyed-Reach destroyed-gone
