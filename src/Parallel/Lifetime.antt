-- ===== src/Parallel/Lifetime.antt =====
-- A `ParallelWork` of src/factory/Workflow.cc from its construction with series to its end.
use myworkflow.Base.{
  ℕ, zero, suc, ◌+◌, ◌≤◌, ◌<◌, ◌≡◌, refl, sym, ap, subst, ◌∙◌, Option, none, some, List, [], ◌∷◌,
  ◌++◌, append_assoc, append-nil, ltb, if◌then◌else◌, arith, length, get_elem?, Bool-cases, inl,
  inr,
}
use myworkflow.Parallel.{Parallel, create_with, series_at, delete_series, done}
use myworkflow.Parallel.Buffer.{Stores, Holds, AllFree, put_all-Holds}

-- The constructor with series that are not in parallel makes a work that holds them, in order.
pub create_with-Holds :
    (this : ℕ) (buf first : ℕ → ℕ) (in_parallel : ℕ → Option ℕ) (xs : List ℕ)
    → AllFree this in_parallel xs
    → (p : Parallel) × (create_with this buf first in_parallel xs ≡ some p) × Holds p xs
unfolding create_with
create_with-Holds this buf first in_parallel xs free =
    let n = length xs in
    let size = if ltb 4 n then n else 4 in
    let p : Parallel = record {
      this = this;
      buf = buf;
      buf_size = size;
      subtasks_nr = n;
      first = first;
      in_parallel = in_parallel;
      deleted = [];
    } in
    let fits : n ≤ size = ground arith in
    let some_room : 0 < size = ground arith in
    let start : Holds (record p { subtasks_nr = 0 }) [] = record {
      number = refl;
      room = omega arith;
      some_room = some_room;
      subtasks = tt;
      all_series = tt;
    } in
    let (q, run, holds, same) = put_all-Holds xs [] 0 p free start (omega (arith, fits)) in
    let e : 0 + n ≡ q.subtasks_nr = (omega arith) ∙ sym same in
    (q, run, subst (λ k. Holds (record q { subtasks_nr = k }) xs) e holds)

Stores-get :
    (a : ℕ → ℕ) (i k : ℕ) (xs : List ℕ)
    → Stores a i xs
    → k < length xs
    → get_elem? xs k ≡ some (a (i + k))
Stores-get a i k [] h p = absurd (omega arith)
Stores-get a i zero (x ∷ xs) (e, h) p = ap some (sym e ∙ ap a (omega arith))
Stores-get a i (suc k) (x ∷ xs) (e, h) p =
    Stores-get a (i + 1) k xs h (omega arith) ∙ ap (λ j. some (a j)) (omega arith)

get_elem?-out : (xs : List ℕ) (k : ℕ) → length xs ≤ k → get_elem? xs k ≡ none
get_elem?-out [] k p = refl
get_elem?-out (x ∷ xs) zero p = absurd (omega arith)
get_elem?-out (x ∷ xs) (suc k) p = get_elem?-out xs k (omega arith)

delete_series-deleted :
    (xs : List ℕ) (i : ℕ) (p : Parallel)
    → Stores p.buf (p.buf_size + i) xs
    → (delete_series (length xs) i p).deleted ≡ p.deleted ++ xs
unfolding delete_series
delete_series-deleted [] i p h = sym (append-nil p.deleted)
delete_series-deleted (x ∷ xs) i p (e, h) =
    let y = p.buf (p.buf_size + i) in
    let q = record p { deleted = p.deleted ++ (y ∷ []) } in
    let k : p.buf_size + i + 1 ≡ p.buf_size + (i + 1) = omega arith in
    delete_series-deleted xs (i + 1) q (subst (λ j. Stores p.buf j xs) k h)
    ∙ (append_assoc p.deleted (y ∷ []) xs ∙ ap (λ z. p.deleted ++ (z ∷ xs)) e)

-- A work that holds some series gives each at its index and none behind them, and its `done` deletes each
-- once, in order, and leaves none.
pub Holds-series :
    (p : Parallel) (xs : List ℕ)
    → Holds p xs
    → ((i : ℕ) → series_at p i ≡ get_elem? xs i)
      × ((done p).deleted ≡ p.deleted ++ xs)
      × ((done p).subtasks_nr ≡ 0)
unfolding series_at done
Holds-series p xs h = (
  λ i. elim (Bool-cases (ltb i p.subtasks_nr)) [
    | inl e ↦
        rw e (sym (Stores-get p.buf p.buf_size i xs h.all_series (ground (arith, e, h.number))))
    | inr e ↦ rw e (sym (get_elem?-out xs i (ground (arith, e, h.number))))
  ],
  ap (λ n. (delete_series n 0 p).deleted) h.number
      ∙ delete_series-deleted xs 0 p (subst (λ j. Stores p.buf j xs) (omega arith) h.all_series),
  refl,
)
