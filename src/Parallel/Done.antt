-- ===== src/Parallel/Done.antt =====
-- A parallel task goes on once, when the last of its subtasks is done (src/kernel/SubTask.cc).
use myworkflow.Base.{
  ℕ, zero, suc, ◌<◌, ◌≡◌, Option, none, some, List, [], ◌∷◌, ◌++◌, ◌==◌, arith, Bool-cases,
  Option-cases, inl, inr,
}
use myworkflow.Parallel.{update, Tasks, count_down, subtask_done}

-- Enough fuel is the number of tasks above this one: `rank` bounds it.
pub subtask_done-ends :
    (next : ℕ → Option ℕ) (rank : ℕ → ℕ) (fuel cur : ℕ) (s : Tasks)
    → ((t p : ℕ) → s.parent t ≡ some p → rank p < rank t)
    → rank cur < fuel
    → (u : Tasks) × (subtask_done next fuel cur s ≡ some u)
unfolding subtask_done count_down
subtask_done-ends next rank zero cur s up h = absurd (omega arith)
subtask_done-ends next rank (suc fuel) cur s up h =
    let t = record s { finished = s.finished ++ (cur ∷ []) } in
    elim (Option-cases (next cur)) [
      | inr (c, e) ↦ (
        record t {
          parent = update t.parent c (s.parent cur);
          dispatched = t.dispatched ++ (c ∷ []);
        },
        rw (subtask_done, e),
      )
      | inl e ↦ elim (Option-cases (s.parent cur)) [
        | inl f ↦ (t, rw (subtask_done, e, f))
        | inr (p, f) ↦
            let u = count_down p t in
            let (v, r) = subtask_done-ends next rank fuel p u up (omega (arith, up cur p f)) in
            elim (Bool-cases (u.nleft p == 0)) [
              | inl g ↦ (v, rw (subtask_done, e, f, g, r))
              | inr g ↦ (u, rw (subtask_done, e, f, g))
            ]
      ]
    ]

-- The subtasks of `p` whose `done` gives no other task.
abbrev pub IsLast : (ℕ → Option ℕ) → ℕ → Tasks → ℕ → Type 0
IsLast next p s t = (next t ≡ none) × (s.parent t ≡ some p)

-- The subtasks are done one after the other, in the order of the list.
unfoldable pub all_done : (ℕ → Option ℕ) → ℕ → List ℕ → Tasks → Option Tasks
all_done next fuel [] s = some s
all_done next fuel (t ∷ ts) s = elim (subtask_done next fuel t s) [
  | none ↦ none
  | some u ↦ all_done next fuel ts u
]

-- What is left of `p` when some of its subtasks are done: nobody went on yet.
abbrev Waiting : ℕ → ℕ → List ℕ → Tasks → Tasks → Type 0
Waiting p m ts s u =
    (u.nleft p ≡ m)
    × (u.finished ≡ s.finished ++ ts)
    × (u.dispatched ≡ s.dispatched)
    × (u.parent ≡ s.parent)

abbrev marked : ℕ → Tasks → Tasks
marked t s = record s { finished = s.finished ++ (t ∷ []) }
