-- ===== src/Executor/Queues.antt =====
-- A queue of src/kernel/Executor.cc has one task in the pool while it has sessions, and else none.
use myworkflow.Base.{
  count, count-append, count-middle, ℕ, ◌+◌, ◌≡◌, refl, ap, ◌∙◌, Bool, true, false, some, List, [],
  ◌∷◌, ◌++◌, append_assoc, arith, Bool-cases, ◌⊎◌, inl, inr,
}
use myworkflow.Executor.{
  Exec, set_queue, idle, thrdpool_schedule, request, begin_task, executor_thread_routine,
}

-- One task for a queue that has sessions.
abbrev pub due : List ℕ → ℕ
due [] = 0
due (x ∷ xs) = 1

-- No task is missing or there twice, and no session is lost or out of order.
pub record IsValid (s : Exec) : Type 0 where
  pub tasks : (q : ℕ) → count q s.pool + count q s.running ≡ due (s.session_list q)
  pub order : (q : ℕ) → s.taken q ++ s.session_list q ≡ s.accepted q
  pub none_canceled : (q : ℕ) → s.canceled q ≡ []

pub idle-IsValid : IsValid idle
idle-IsValid = record { tasks = λ q. refl; order = λ q. refl; none_canceled = λ q. refl }

-- The steps of the callers and of the pool's threads, in any interleaving.
pub data Step (s : Exec) : Exec → Type 0 where
  requested :
      (entry_ok task_ok : Bool) (session q : ℕ) → Step s (request entry_ok task_ok session q s).1
  begun : Step s (begin_task s)
  executed :
      (q : ℕ) (xs ys : List ℕ) (t : Exec)
      → s.running ≡ xs ++ (q ∷ ys)
      → executor_thread_routine q (xs ++ ys) s ≡ some t
      → Step s t

pub list_cases : (l : List ℕ) → (l ≡ []) ⊎ ((x : ℕ) × (xs : List ℕ) × (l ≡ x ∷ xs))
list_cases [] = inl refl
list_cases (x ∷ xs) = inr (x, xs, refl)

due-snoc : (xs : List ℕ) (x : ℕ) → due (xs ++ (x ∷ [])) ≡ 1
due-snoc [] x = refl
due-snoc (y ∷ xs) x = refl

accept-order :
    (q session : ℕ) (s : Exec) (r : ℕ)
    → IsValid s
    → s.taken r ++ set_queue s.session_list q (s.session_list q ++ (session ∷ [])) r
      ≡ set_queue s.accepted q (s.accepted q ++ (session ∷ [])) r
accept-order q session s r v =
    ground (arith, v.order r, v.order q, append_assoc (s.taken q) (s.session_list q) (session ∷ []))

pub request-IsValid :
    (entry_ok task_ok : Bool) (session q : ℕ) (s : Exec)
    → IsValid s
    → IsValid (request entry_ok task_ok session q s).1
unfolding request thrdpool_schedule
request-IsValid false task_ok session q s v = v
request-IsValid true task_ok session q s v = elim (list_cases (s.session_list q)) [
  | inr (x, xs, e) ↦
      rw (request, e)
        (record {
          tasks = λ r.
              ground (arith, v.tasks r, v.tasks q, due-snoc (s.session_list q) session, ap due e);
          order = λ r. accept-order q session s r v;
          none_canceled = v.none_canceled;
        })
  | inl e ↦ elim (Bool-cases task_ok) [
    | inl f ↦
        rw (request, e, f)
          (record {
            tasks = λ r. ground (
              arith,
              v.tasks r,
              v.tasks q,
              due-snoc (s.session_list q) session,
              ap due e,
              count-append r s.pool (q ∷ []),
            );
            order = λ r. accept-order q session s r v;
            none_canceled = v.none_canceled;
          })
    | inr f ↦ rw (request, e, f) v
  ]
]

pub begin_task-IsValid : (s : Exec) → IsValid s → IsValid (begin_task s)
unfolding begin_task
begin_task-IsValid s v = elim (list_cases s.pool) [
  | inl e ↦ rw (begin_task, e) v
  | inr (q, qs, e) ↦
      rw (begin_task, e)
        (record {
          tasks = λ r. let c = ap (count r) e in ground (arith, v.tasks r, c);
          order = v.order;
          none_canceled = v.none_canceled;
        })
]

-- A task that runs finds a session.
pub running-due :
    (s : Exec) (q : ℕ) (xs ys : List ℕ)
    → IsValid s
    → s.running ≡ xs ++ (q ∷ ys)
    → (x : ℕ) × (l : List ℕ) × (s.session_list q ≡ x ∷ l)
running-due s q xs ys v e = elim (list_cases (s.session_list q)) [
  | inr p ↦ p
  | inl f ↦
      let c : count q s.running ≡ count q (xs ++ ys) + 1 =
        ap (count q) e ∙ (count-middle q q xs ys ∙ ground arith) in
      let d : due (s.session_list q) ≡ 0 = ap due f in absurd (omega (arith, v.tasks q, c, d))
]
