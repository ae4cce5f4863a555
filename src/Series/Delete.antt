-- ===== src/Series/Delete.antt =====
-- A canceled or dismissed `SeriesWork` (src/factory/Workflow.cc) deletes its tasks.
use myworkflow.Base.{
  ℕ, zero, suc, ◌+◌, ◌<◌, ◌≡◌, refl, sym, ap, subst, ◌∙◌, not, true, false, none, some, List, [],
  ◌∷◌, ◌++◌, map, append_assoc, arith, if◌then◌else◌, length,
}
use myworkflow.Series.{
  Slot, task_deleted, Series, pop_task, delete_loop, null_after, pop, dismiss_recursive,
}
use myworkflow.Series.Refine.{Holds}
use myworkflow.Series.Pop.{
  ended, without_front, without_last, pop_task-Pops, with_last, ending, Deleted,
}

-- A deleted task is written down.
abbrev deleting : ℕ → Series → Series
deleting x s = record s { events = s.events ++ (task_deleted x ∷ []) }

deleting-Holds : (x : ℕ) (s : Series) (ts : List ℕ) → Holds s ts → Holds (deleting x s) ts
deleting-Holds x s ts v = record {
  storage = v.storage;
  front_in = v.front_in;
  room = v.room;
  ends = v.ends;
  held = v.held;
}

without_last-Holds : (s : Series) (ts : List ℕ) → Holds s ts → Holds (without_last s) ts
without_last-Holds s ts v = record {
  storage = v.storage;
  front_in = v.front_in;
  room = v.room;
  ends = v.ends;
  held = v.held;
}

with_last-cons : (x : ℕ) (ts : List ℕ) (l : Slot) → with_last (x ∷ ts) l ≡ x ∷ with_last ts l
with_last-cons x ts none = refl
with_last-cons x ts (some t) = refl

-- One round deletes `x`, and the others the rest.
Deleted-cons :
    (x : ℕ) (s u t : Series) (xs : List ℕ)
    → u.events ≡ s.events
    → ending u ≡ ending s
    → Deleted (deleting x u) xs t
    → Deleted s (x ∷ xs) t
Deleted-cons x s u t xs e e' d = (
  d.0,
  d.1
      ∙ append_assoc u.events (task_deleted x ∷ []) (map task_deleted xs ++ ending u)
      ∙ ap (λ l. l ++ (task_deleted x ∷ (map task_deleted xs ++ ending u))) e
      ∙ ap (λ l. s.events ++ (task_deleted x ∷ (map task_deleted xs ++ l))) e',
)

delete_loop-finish :
    (s : Series) (fuel : ℕ)
    → (t : Series) × (delete_loop (suc fuel) (none, ended s) ≡ some t) × Deleted s [] t
unfolding delete_loop
delete_loop-finish s fuel = (ended s, refl, (refl, refl))

delete_loop-step :
    (x : ℕ) (s : Series) (fuel : ℕ)
    → delete_loop (suc fuel) (some x, s) ≡ delete_loop fuel (pop_task (deleting x s))
unfolding delete_loop
delete_loop-step x s fuel = refl

-- The loop ends, has deleted every task in the order of the queue, and has then ended the series.
delete_loop-Deleted :
    (fuel : ℕ) (s : Series) (ts : List ℕ) (l : Slot)
    → Holds s ts
    → s.last ≡ l
    → length (with_last ts l) < fuel
    → (t : Series) × (delete_loop fuel (pop_task s) ≡ some t) × Deleted s (with_last ts l) t
delete_loop-Deleted zero s ts l v e h = absurd (omega arith)
delete_loop-Deleted (suc fuel) s [] none v e h =
    rw ((pop_task-Pops s [] v).finished refl e) (delete_loop-finish s fuel)
delete_loop-Deleted (suc fuel) s [] (some x) v e h =
    let (t, run, d) =
      delete_loop-Deleted fuel (deleting x (without_last s)) [] none
        (deleting-Holds x (without_last s) [] (without_last-Holds s [] v)) refl (omega arith) in
    (
      t,
      ap (delete_loop (suc fuel)) ((pop_task-Pops s [] v).from_last x refl e)
          ∙ delete_loop-step x (without_last s) fuel
          ∙ run,
      Deleted-cons x s (without_last s) t [] refl refl d,
    )
delete_loop-Deleted (suc fuel) s (x ∷ ts) l v e h =
    let (popped, w) = (pop_task-Pops s (x ∷ ts) v).from_queue x ts refl in
    let (t, run, d) =
      delete_loop-Deleted fuel (deleting x (without_front s)) ts l
        (deleting-Holds x (without_front s) ts w) e
        (omega (arith, ap length (with_last-cons x ts l))) in
    (
      t,
      ap (delete_loop (suc fuel)) popped ∙ delete_loop-step x (without_front s) fuel ∙ run,
      subst (λ xs. Deleted s xs t) (sym (with_last-cons x ts l))
          (Deleted-cons x s (without_front s) t (with_last ts l) refl refl d),
    )

-- `pop` on a canceled series returns NULL and ends: it has deleted all of its tasks, in the order in
-- which they would have run, has then called back if there is a callback, and has deleted itself
-- unless it is in parallel. Fuel for one round more than there are tasks is enough.
pub pop-canceled :
    (fuel : ℕ) (s : Series) (ts : List ℕ)
    → Holds s ts
    → s.canceled ≡ true
    → length (with_last ts s.last) < fuel
    → (t : Series) × (pop fuel s ≡ some (none, t)) × Deleted s (with_last ts s.last) t
unfolding pop
pop-canceled fuel s ts v c h =
    let (t, run, d) = delete_loop-Deleted fuel s ts s.last v refl h in
    (
      t,
      ap (λ b. if not b then some (pop_task s) else null_after (delete_loop fuel (pop_task s))) c
          ∙ ap null_after run,
      d,
    )

-- `dismiss_recursive` ends: it has deleted the first task and then all others in order, and does not
-- call back.
pub dismiss_recursive-Deleted :
    (fuel : ℕ) (s : Series) (ts : List ℕ)
    → Holds s ts
    → length (with_last ts s.last) + 1 < fuel
    → (t : Series) × (dismiss_recursive fuel s ≡ some t)
      × Deleted (record s { has_callback = false }) (s.first ∷ with_last ts s.last) t
unfolding dismiss_recursive
dismiss_recursive-Deleted zero s ts v h = absurd (omega arith)
dismiss_recursive-Deleted (suc fuel) s ts v h =
    let u : Series = record s { has_callback = false } in
    let w : Holds u ts = record {
      storage = v.storage;
      front_in = v.front_in;
      room = v.room;
      ends = v.ends;
      held = v.held;
    } in
    let (t, run, d) =
      delete_loop-Deleted fuel (deleting s.first u) ts s.last (deleting-Holds s.first u ts w) refl
        (omega arith) in
    (
      t,
      delete_loop-step s.first u fuel ∙ run,
      Deleted-cons s.first u u t (with_last ts s.last) refl refl d,
    )
