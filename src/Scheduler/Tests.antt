-- ===== src/Scheduler/Tests.antt =====
-- A group of two targets of src/kernel/CommScheduler.cc, of which one has room.
use myworkflow.Base.{◌+◌, ◌-◌, ◌≡◌, refl, true, ◌||◌, none, some, ◌==◌, if◌then◌else◌, arith}
use myworkflow.Scheduler.{less}
use myworkflow.Scheduler.Group.{Group, acquire, release, add, remove}
use myworkflow.Scheduler.Valid.{IsValid}
use myworkflow.Scheduler.Spread.{Acquires, acquire-Acquires}
use myworkflow.Scheduler.Target.{release-IsValid}
use myworkflow.Scheduler.Add.{Adds, add-Adds}
use myworkflow.Scheduler.Remove.{Removes, remove-Removes}

abbrev two : Group
two = record {
  this = 7;
  heap = record { tg_heap = λ i. i + 1; index = λ t. t - 1 };
  heap_size = 2;
  heap_buf_size = 2;
  max_load = 8;
  cur_load = 5;
  wait_cnt = 0;
  target_max = λ t. 4;
  target_cur = λ t. if t == 1 then 1 else 4;
  target_wait = λ t. 0;
  target_group = λ t. if t == 1 || t == 2 then some 7 else none;
}

two-IsValid : IsValid two
unfolding less
two-IsValid = record {
  heap = λ c p q. let e : c ≡ 1 = omega arith in rw e refl;
  indexed = record {
    at_index = λ i p. omega arith;
    members = λ i p. ground arith;
    found = λ x m. ground arith;
  };
  room = omega arith;
  buffer = omega arith;
  max_sum = refl;
  cur_sum = refl;
  small = omega arith;
  loads = record {
    positive = λ t. omega arith;
    small = λ t. omega arith;
    bounded = λ t. ground arith;
  };
}

acquire-Acquires_example : Acquires two (acquire two)
acquire-Acquires_example = acquire-Acquires two two-IsValid

release-IsValid_example : IsValid (release true 2 two) × ((release true 2 two).target_cur 2 + 1 ≡ 4)
release-IsValid_example = release-IsValid true 2 two two-IsValid (omega arith)

add-Adds_example : Adds (λ n. true) 3 two (add (λ n. true) 3 two)
add-Adds_example = add-Adds (λ n. true) 3 two two-IsValid (omega arith)

remove-Removes_example : Removes 1 two (remove 1 two)
remove-Removes_example = remove-Removes 1 two two-IsValid

-- The target with room is the one that is got.
acquired : (acquire two).0 ≡ some 1
unfolding acquire
acquired = refl
