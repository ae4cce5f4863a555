-- ===== src/Series/Pop.antt =====
-- `pop_task`, `pop` and `dismiss_recursive` of a `SeriesWork` (src/factory/Workflow.cc): which tasks
-- they return and delete, in which order.
use myworkflow.Base.{
  ℕ, suc, ◌+◌, ◌<◌, ◌≡◌, refl, sym, ap, subst, ◌∙◌, true, false, none, some, List, [], ◌∷◌, ◌++◌,
  map, arith, ◌==◌, if◌then◌else◌, length,
}
use myworkflow.Series.{
  Slot, Event, task_deleted, series_called_back, series_deleted, Series, next_index, take_task,
  finish, end_pop, pop_task,
}
use myworkflow.Series.Window.{wrap, wrap-next, next_index-lt}
use myworkflow.Series.Refine.{Holds}

not_empty :
    (size front back n : ℕ)
    → front < size
    → suc n < size
    → back ≡ wrap size (front + suc n)
    → (front == back) ≡ false
not_empty size front back n h k e = ground arith

empty : (size front back : ℕ) → front < size → back ≡ wrap size (front + 0) → (front == back) ≡ true
empty size front back h e = ground arith

some_head : {x y : Slot} {xs ys : List Slot} → x ∷ xs ≡ y ∷ ys → (x ≡ y) × (xs ≡ ys)
some_head e = (cc, cc)

-- The series without its first task.
abbrev pub without_front : Series → Series
without_front s = record s { front = next_index s.queue_size s.front }

abbrev pub without_last : Series → Series
without_last s = record s { last = none }

take_task-cons :
    (s : Series) (t : ℕ) (ts : List ℕ)
    → Holds s (t ∷ ts)
    → (take_task s ≡ (some t, without_front s)) × Holds (without_front s) ts
unfolding take_task
take_task-cons s t ts v = (
  rw (not_empty s.queue_size s.front s.back (length ts) v.front_in v.room v.ends)
      (ap (λ x. (x, without_front s)) (some_head v.held).0),
  record {
    storage = v.storage;
    front_in = next_index-lt s.queue_size s.front v.front_in;
    room = omega (arith, v.room);
    ends =
        v.ends
        ∙ sym (wrap-next s.queue_size s.front (length ts) v.front_in (omega (arith, v.room)));
    held = (some_head v.held).1;
  },
)

take_task-nil : (s : Series) → Holds s [] → take_task s ≡ (s.last, without_last s)
unfolding take_task
take_task-nil s v = rw (empty s.queue_size s.front s.back v.front_in v.ends)

-- What finishing a series does to the outside.
abbrev pub ending : Series → List Event
ending s =
    (if s.has_callback then series_called_back ∷ [] else [])
    ++ (if s.in_parallel then [] else series_deleted ∷ [])

-- The series that has ended.
abbrev pub ended : Series → Series
ended s = record (without_last s) { finished = true; events = s.events ++ ending s }

finish-ending : (s : Series) → finish (without_last s) ≡ ended s
unfolding finish
finish-ending s = refl

-- `pop_task` returns the tasks of the queue from its front, then the last task once, and then NULL,
-- where it finishes the series, calls its callback if it has one, and deletes it unless it is in a
-- parallel work. It takes away what it returns and nothing else.
pub record Pops (s : Series) (ts : List ℕ) (r : Slot × Series) : Type 0 where
  pub from_queue :
      (t : ℕ) (rest : List ℕ)
      → ts ≡ t ∷ rest
      → (r ≡ (some t, without_front s)) × Holds (without_front s) rest
  pub from_last : (t : ℕ) → ts ≡ [] → s.last ≡ some t → r ≡ (some t, without_last s)
  pub finished : ts ≡ [] → s.last ≡ none → r ≡ (none, ended s)

pub pop_task-Pops : (s : Series) (ts : List ℕ) → Holds s ts → Pops s ts (pop_task s)
unfolding pop_task
pop_task-Pops s ts v = record {
  from_queue =
      λ t rest e. let (e', w) = take_task-cons s t rest (subst (Holds s) e v) in (ap end_pop e', w);
  from_last =
      λ t e l. ap end_pop (take_task-nil s (subst (Holds s) e v) ∙ ap (λ x. (x, without_last s)) l);
  finished = λ e l.
      ap end_pop (take_task-nil s (subst (Holds s) e v) ∙ ap (λ x. (x, without_last s)) l)
      ∙ ap (λ u. (none, u)) (finish-ending s);
}

-- The tasks that are left, the last one included.
abbrev pub with_last : List ℕ → Slot → List ℕ
with_last ts none = ts
with_last ts (some t) = ts ++ (t ∷ [])

-- The loop's end: the tasks have been deleted, one after another, and then the series has ended.
abbrev pub Deleted : Series → List ℕ → Series → Type 0
Deleted s ts t = (t.finished ≡ true) × (t.events ≡ s.events ++ (map task_deleted ts ++ ending s))
