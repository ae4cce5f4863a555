-- ===== src/Executor/Order.antt =====
-- Every interleaving of callers and threads of src/kernel/Executor.cc executes the sessions of a queue in
-- the order of their requests, and forgets none.
use myworkflow.Base.{
  count, count-append, count-middle, ℕ, ◌+◌, ◌<◌, ◌≡◌, refl, sym, ap, subst, ◌∙◌, some, List, [],
  ◌∷◌, ◌++◌, append_assoc, append-nil, ◌==◌, if◌then◌else◌, arith, Bool-cases, inl, inr,
}
use myworkflow.Executor.{
  Exec, set_queue, idle, after_del, executor_thread_routine, executor_cancel, cancel_loop, deinit,
}
use myworkflow.Executor.Queues.{
  due, IsValid, idle-IsValid, Step, requested, begun, executed, request-IsValid, begin_task-IsValid,
  running-due, list_cases,
}

after_del-tasks :
    (q : ℕ) (l : List ℕ) (s : Exec) (r : ℕ)
    → count r (after_del q l s).pool + count r (after_del q l s).running
      ≡ count r s.pool + count r s.running + (if r == q then due l else 0)
after_del-tasks q [] s r = ground arith
after_del-tasks q (x ∷ xs) s r = ground (arith, count-append r s.pool (q ∷ []))

after_del-lists :
    (q : ℕ) (l : List ℕ) (s : Exec)
    → ((after_del q l s).session_list ≡ s.session_list)
      × ((after_del q l s).taken ≡ s.taken)
      × ((after_del q l s).accepted ≡ s.accepted)
      × ((after_del q l s).canceled ≡ s.canceled)
after_del-lists q [] s = (refl, refl, refl, refl)
after_del-lists q (x ∷ xs) s = (refl, refl, refl, refl)

after_del-IsValid :
    (q x : ℕ) (l : List ℕ) (s : Exec) (xs ys : List ℕ)
    → IsValid s
    → s.running ≡ xs ++ (q ∷ ys)
    → s.session_list q ≡ x ∷ l
    → IsValid (
        after_del q l (record s {
          session_list = set_queue s.session_list q l;
          running = xs ++ ys;
          taken = set_queue s.taken q (s.taken q ++ (x ∷ []));
        }))
after_del-IsValid q x l s xs ys v e f =
    let u = record s {
      session_list = set_queue s.session_list q l;
      running = xs ++ ys;
      taken = set_queue s.taken q (s.taken q ++ (x ∷ []));
    } in
    let (a, b, c, d) = after_del-lists q l u in
    record {
      tasks = λ r.
          after_del-tasks q l u r
          ∙ (let k = ap (count r) e ∙ count-middle r q xs ys in
              let d : due (s.session_list q) ≡ 1 = ap due f in
              let g = ap (λ m. due (m r)) a in ground (arith, v.tasks r, k, d, g));
      order = λ r.
          let g = ap (λ m. m r) a in
          let g' = ap (λ m. m r) b in
          let g'' = ap (λ m. m r) c in
          ground (
            arith,
            g,
            g',
            g'',
            v.order r,
            v.order q,
            ap (λ m. s.taken q ++ m) f,
            append_assoc (s.taken q) (x ∷ []) l,
          );
      none_canceled = λ r. ap (λ m. m r) d ∙ v.none_canceled r;
    }

-- The steps that lead from one state to another.
pub data Reach (s : Exec) : Exec → Type 0 where
  here : Reach s s
  next : {t u : Exec} → Reach s t → Step t u → Reach s u

some_inj {ℓ} : {A : Type ℓ} (x y : A) → some x ≡ some y → x ≡ y
some_inj x y e = cc

executed-IsValid :
    (s t : Exec) (q : ℕ) (xs ys : List ℕ)
    → IsValid s
    → s.running ≡ xs ++ (q ∷ ys)
    → executor_thread_routine q (xs ++ ys) s ≡ some t
    → IsValid t
unfolding executor_thread_routine
executed-IsValid s t q xs ys v e r =
    let (x, l, f) = running-due s q xs ys v e in
    let g : executor_thread_routine q (xs ++ ys) s
        ≡ some (
            after_del q l (record s {
              session_list = set_queue s.session_list q l;
              running = xs ++ ys;
              taken = set_queue s.taken q (s.taken q ++ (x ∷ []));
            })) =
      rw (executor_thread_routine, f) in
    subst IsValid (some_inj _ _ (sym g ∙ r)) (after_del-IsValid q x l s xs ys v e f)

Step-IsValid : {s t : Exec} → Step s t → IsValid s → IsValid t
Step-IsValid {s} (requested entry_ok task_ok session q) v =
    request-IsValid entry_ok task_ok session q s v
Step-IsValid {s} begun v = begin_task-IsValid s v
Step-IsValid {s} (executed q xs ys t e r) v = executed-IsValid s t q xs ys v e r

Reach-from : {s t : Exec} → IsValid s → Reach s t → IsValid t
Reach-from v here = v
Reach-from v (next r st) = Step-IsValid st (Reach-from v r)

-- Whatever callers and threads do after the start, in any interleaving: a queue has exactly one task
-- that waits or runs while it has sessions, and none else; and the sessions that were taken for
-- execution, with those that wait behind them, are those that were accepted, in that order.
pub Reach-IsValid : (s : Exec) → Reach idle s → IsValid s
Reach-IsValid s r = Reach-from idle-IsValid r

-- Whatever callers and threads did before, a thread that runs a queue's task finds a session, and takes
-- it: the task never reads an entry that is not there.
pub executor_thread_routine-taken :
    (s : Exec) (q : ℕ) (xs ys : List ℕ)
    → Reach idle s
    → s.running ≡ xs ++ (q ∷ ys)
    → (x : ℕ) × (l : List ℕ) × (t : Exec) × (s.session_list q ≡ x ∷ l)
      × (executor_thread_routine q (xs ++ ys) s ≡ some t)
      × (t.session_list q ≡ l)
      × (t.taken q ≡ s.taken q ++ (x ∷ []))
unfolding executor_thread_routine
executor_thread_routine-taken s q xs ys r e =
    let v = Reach-IsValid s r in
    let (x, l, f) = running-due s q xs ys v e in
    let u = record s {
      session_list = set_queue s.session_list q l;
      running = xs ++ ys;
      taken = set_queue s.taken q (s.taken q ++ (x ∷ []));
    } in
    let (a, b, c, d) = after_del-lists q l u in
    (
      x,
      l,
      after_del q l u,
      f,
      rw (executor_thread_routine, f),
      ap (λ m. m q) a ∙ ground arith,
      ap (λ m. m q) b ∙ ground arith,
    )

-- What the loop leaves of a queue.
cancel_loop-queue :
    (q : ℕ) (qs : List ℕ) (s : Exec)
    → ((cancel_loop qs s).taken q ≡ s.taken q)
      × ((cancel_loop qs s).canceled q ++ (cancel_loop qs s).session_list q
          ≡ s.canceled q ++ s.session_list q)
      × (s.session_list q ≡ [] → (cancel_loop qs s).session_list q ≡ [])
      × (0 < count q qs → (cancel_loop qs s).session_list q ≡ [])
unfolding cancel_loop executor_cancel
cancel_loop-queue q [] s = (refl, refl, λ e. e, λ p. absurd (omega arith))
cancel_loop-queue q (x ∷ qs) s =
    let t = executor_cancel x s in
    let (a, b, c, d) = cancel_loop-queue q qs t in
    (
      a,
      b ∙ ground (arith, append-nil (s.canceled q ++ s.session_list q)),
      λ e. c (ground (arith, e)),
      λ p. elim (Bool-cases (x == q)) [
        | inl f ↦ c (ground (arith, f))
        | inr f ↦ d (ground (arith, f))
      ],
    )

-- `Executor::deinit`, once the threads have ended, whatever happened before: no queue has a session
-- left, and the accepted sessions are those that were taken and then those that are canceled.
pub deinit-canceled :
    (s : Exec) (q : ℕ)
    → Reach idle s
    → s.running ≡ []
    → ((deinit s).session_list q ≡ [])
      × ((deinit s).taken q ++ (deinit s).canceled q ≡ s.accepted q)
unfolding deinit
deinit-canceled s q r e =
    let v = Reach-IsValid s r in
    let t = cancel_loop s.pool s in
    let (a, b, c, d) = cancel_loop-queue q s.pool s in
    let k : count q s.pool ≡ due (s.session_list q) = ground (arith, v.tasks q, ap (count q) e) in
    let gone : t.session_list q ≡ [] = elim (list_cases (s.session_list q)) [
      | inl f ↦ c f
      | inr (x, l, f) ↦ d (let g : due (s.session_list q) ≡ 1 = ap due f in omega (arith, k, g))
    ] in
    (gone, ground (arith, a, b, gone, v.order q, v.none_canceled q, append-nil (t.canceled q)))
