-- ===== src/Parallel/Tests.antt =====
-- Small parallel works of src/factory/Workflow.cc and tasks of src/kernel/SubTask.cc.
use myworkflow.Base.{
  ℕ, ◌+◌, ◌≡◌, ◌⊎◌, refl, Option, none, some, [], ◌∷◌, arith, ◌==◌, if◌then◌else◌,
}
use myworkflow.Parallel.{Parallel, add_series, Tasks}
use myworkflow.Parallel.Buffer.{Holds, AddsTo, add_series-Holds}

-- A full work of one series.
abbrev one : Parallel
one = record {
  this = 50;
  buf = λ i. if i == 0 then 11 else 1;
  buf_size = 1;
  subtasks_nr = 1;
  first = λ s. s + 10;
  in_parallel = λ s. if s == 1 then some 50 else none;
  deleted = [];
}

one-Holds : Holds one (1 ∷ [])
one-Holds = record {
  number = refl;
  room = omega arith;
  some_room = omega arith;
  subtasks = (refl, tt);
  all_series = (refl, tt);
}

add_series-Holds_example :
    ((one.in_parallel 2 ≡ none) × AddsTo 2 one (1 ∷ []) (add_series (λ i. 0) 2 one))
    ⊎ ((o : ℕ) × (one.in_parallel 2 ≡ some o) × (add_series (λ i. 0) 2 one ≡ none))
add_series-Holds_example = add_series-Holds (λ i. 0) 2 one (1 ∷ []) one-Holds

-- Tasks 1 and 2 of the parallel task 3, which goes on to 4.
abbrev start : Tasks
start = record { parent = λ t. none; nleft = λ t. 0; dispatched = []; finished = [] }

abbrev goes_on : ℕ → Option ℕ
goes_on t = if t == 3 then some 4 else none
