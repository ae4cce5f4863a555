-- ===== src/Series/Tests.antt =====
-- The queue of src/factory/Workflow.cc at concrete series.
use myworkflow.Base.{◌≡◌, refl, true, false, none, some, [], ◌∷◌, arith}
use myworkflow.Series.{Series, push_front, push_back, pop_task, pop, dismiss_recursive}
use myworkflow.Series.Refine.{Holds, push_back-Holds, push_front-Holds}
use myworkflow.Series.Pop.{Pops, pop_task-Pops, Deleted}
use myworkflow.Series.Delete.{pop-canceled, dismiss_recursive-Deleted}

-- Three tasks round the end of the four slots: the next push grows the queue.
abbrev three : Series
three = record {
  first = 1;
  last = some 9;
  queue = some 4 ∷ none ∷ some 2 ∷ some 3 ∷ [];
  queue_size = 4;
  front = 2;
  back = 1;
  canceled = true;
  finished = false;
  has_callback = true;
  in_parallel = false;
  events = [];
}

three-Holds : Holds three (2 ∷ 3 ∷ 4 ∷ [])
three-Holds = record {
  storage = refl;
  front_in = omega arith;
  room = omega arith;
  ends = refl;
  held = refl;
}

push_back-Holds_example :
    (s' : Series) × (push_back three 5 ≡ some s') × Holds s' (2 ∷ 3 ∷ 4 ∷ 5 ∷ [])
push_back-Holds_example = push_back-Holds three (2 ∷ 3 ∷ 4 ∷ []) 5 three-Holds

push_front-Holds_example :
    (s' : Series) × (push_front three 5 ≡ some s') × Holds s' (5 ∷ 2 ∷ 3 ∷ 4 ∷ [])
push_front-Holds_example = push_front-Holds three (2 ∷ 3 ∷ 4 ∷ []) 5 three-Holds

pop_task-Pops_example : Pops three (2 ∷ 3 ∷ 4 ∷ []) (pop_task three)
pop_task-Pops_example = pop_task-Pops three (2 ∷ 3 ∷ 4 ∷ []) three-Holds

pop-canceled_example :
    (t : Series) × (pop 5 three ≡ some (none, t)) × Deleted three (2 ∷ 3 ∷ 4 ∷ 9 ∷ []) t
pop-canceled_example = pop-canceled 5 three (2 ∷ 3 ∷ 4 ∷ []) three-Holds refl (omega arith)

dismiss_recursive-Deleted_example :
    (t : Series) × (dismiss_recursive 6 three ≡ some t)
    × Deleted (record three { has_callback = false }) (1 ∷ 2 ∷ 3 ∷ 4 ∷ 9 ∷ []) t
dismiss_recursive-Deleted_example =
    dismiss_recursive-Deleted 6 three (2 ∷ 3 ∷ 4 ∷ []) three-Holds (omega arith)
