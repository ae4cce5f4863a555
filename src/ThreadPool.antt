-- ===== src/ThreadPool.antt =====
-- src/kernel/thrdpool.c: how the threads of a pool exit, and how the pool is destroyed. A region under the
-- pool's lock is one step, and so is a `pthread_join` that returns.
pub mod Chain
pub mod Reach
mod Tests
use myworkflow.Base.{
  ℕ, zero, suc, ◌+◌, ◌-◌, Bool, true, false, not, ◌&&◌, ◌||◌, Option, none, some, List, [], ◌∷◌,
  ◌++◌, ltb, ◌==◌, if◌then◌else◌,
}

-- `thrdpool_t` with its threads, by their `pthread_t`. `running` are in `__thrdpool_routine`, `exiting` in
-- `__thrdpool_exit_routine` behind its lock, each with the thread that it joins, and `ended` have called
-- `pthread_exit` and are not joined yet. `exited` are the values that `tid` has had, in order.
pub record Pool : Type 0 where
  pub nthreads : ℕ
  pub tid : Option ℕ
  pub terminate : Bool
  pub waiting : Bool
  pub signaled : Bool
  pub running : List ℕ
  pub exiting : List (ℕ × Option ℕ)
  pub ended : List ℕ
  pub joined : List ℕ
  pub detached : List ℕ
  pub exited : List ℕ

-- `thrdpool_create` before its threads.
abbrev pub create : Pool
create = record {
  nthreads = 0;
  tid = none;
  terminate = false;
  waiting = false;
  signaled = false;
  running = [];
  exiting = [];
  ended = [];
  joined = [];
  detached = [];
  exited = [];
}

-- A `pthread_create` that succeeds, of `__thrdpool_create_threads` or of `thrdpool_increase`.
unfoldable pub create_thread : ℕ → Pool → Pool
create_thread t p = record p { nthreads = p.nthreads + 1; running = p.running ++ (t ∷ []) }

-- The region of `__thrdpool_exit_routine` in the thread `t`, where `rest` are the other threads that
-- run. The count is not 0, as `t` counts.
unfoldable pub exit_begin : ℕ → List ℕ → Pool → Pool
exit_begin t rest p =
    let n = p.nthreads - 1 in
    record p {
      nthreads = n;
      tid = some t;
      signaled = p.signaled || (n == 0 && p.terminate);
      running = rest;
      exiting = p.exiting ++ ((t, p.tid) ∷ []);
      exited = p.exited ++ (t ∷ []);
    }

unfoldable pub is_in : ℕ → List ℕ → Bool
is_in t [] = false
is_in t (u ∷ us) = let rest = is_in t us in u == t || rest

unfoldable pub without : ℕ → List ℕ → List ℕ
without t [] = []
without t (u ∷ us) = let rest = without t us in if u == t then rest else u ∷ rest

-- `pthread_join` of `u`, which waits until that has ended.
unfoldable pub join : ℕ → Pool → Option Pool
unfolding is_in without
join u p =
    if is_in u p.ended
    then some (record p { ended = without u p.ended; joined = p.joined ++ (u ∷ []) })
    else none

abbrev pub end_thread : ℕ → Pool → Pool
end_thread t p = record p { ended = p.ended ++ (t ∷ []) }

-- What follows the region, in the thread `t` that joins `o`; `rest` are the other threads that exit.
unfoldable pub exit_end : ℕ → Option ℕ → List (ℕ × Option ℕ) → Pool → Option Pool
unfolding join
exit_end t o rest p =
    let q = record p { exiting = rest } in
    elim o [
      | none ↦ some (end_thread t q)
      | some u ↦ elim (join u q) [ none ↦ none | some r ↦ some (end_thread t r) ]
    ]

abbrev pub waits : Pool → Pool
waits p = record p { waiting = not (p.nthreads == 0) }

-- The region of `__thrdpool_terminate` up to its wait, out of the pool.
unfoldable pub terminate_begin : Pool → Pool
terminate_begin p = waits (record p { terminate = true })

-- The same in the thread `t` of the pool, where `rest` are the other threads that run.
unfoldable pub terminate_begin_in_pool : ℕ → List ℕ → Pool → Pool
terminate_begin_in_pool t rest p = waits (record p {
  terminate = true;
  detached = p.detached ++ (t ∷ []);
  nthreads = p.nthreads - 1;
  running = rest;
})

-- What follows the wait.
unfoldable pub terminate_end : Pool → Option Pool
unfolding join
terminate_end p = if p.nthreads == 0 then elim p.tid [ none ↦ some p | some u ↦ join u p ] else none
