-- ===== src/Parallel.antt =====
-- src/factory/Workflow.cc: the buffer of a `ParallelWork`, of which the first half holds the subtasks and
-- the second the series. src/kernel/SubTask.cc: how a task that is done goes on to the next, or counts
-- its parallel task down.
pub mod Buffer
pub mod Lifetime
pub mod Done
mod Tests
use myworkflow.Base.{
  ℕ, zero, suc, ◌+◌, ◌-◌, ◌*◌, Bool, true, false, Option, none, some, List, [], ◌∷◌, ◌++◌, ltb,
  ◌==◌, if◌then◌else◌, length,
}

abbrev pub update {ℓ} : {A : Type ℓ} → (ℕ → A) → ℕ → A → ℕ → A
update f k v x = if x == k then v else f x

-- `ParallelWork`, with the fields of the series that it uses, by their address. `buf` is the array of
-- `2 * buf_size` pointers: `subtasks` begins at 0 and `all_series` at `buf_size`.
pub record Parallel : Type 0 where
  pub this : ℕ
  pub buf : ℕ → ℕ
  pub buf_size : ℕ
  pub subtasks_nr : ℕ
  pub first : ℕ → ℕ
  pub in_parallel : ℕ → Option ℕ
  pub deleted : List ℕ

-- `memcpy` of `n` pointers, from `src` of an array to `dst` of another.
unfoldable pub copy : (ℕ → ℕ) → (ℕ → ℕ) → ℕ → ℕ → ℕ → ℕ → ℕ
copy to from dst src zero = to
copy to from dst src (suc n) = copy (update to dst (from src)) from (dst + 1) (src + 1) n

-- The constructor with no series: the array that `new` gives holds anything.
unfoldable pub create : ℕ → (ℕ → ℕ) → (ℕ → ℕ) → (ℕ → Option ℕ) → Parallel
create this buf first in_parallel = record {
  this = this;
  buf = buf;
  buf_size = 4;
  subtasks_nr = 0;
  first = first;
  in_parallel = in_parallel;
  deleted = [];
}

-- The writes for one series, at the index `i`.
abbrev pub written : ℕ → ℕ → Parallel → Parallel
written series i p = record p {
  in_parallel = update p.in_parallel series (some p.this);
  buf = update (update p.buf (p.buf_size + i) series) i (p.first series);
}

-- The assertion and the writes; `none` is a series that is in parallel already.
unfoldable pub put_series : ℕ → ℕ → Parallel → Option Parallel
put_series series i p = elim (p.in_parallel series) [
  | none ↦ some (written series i p)
  | some other ↦ none
]

-- The loop of the constructor with series.
unfoldable pub put_all : List ℕ → ℕ → Parallel → Option Parallel
unfolding put_series
put_all [] i p = some p
put_all (series ∷ rest) i p = elim (put_series series i p) [
  | none ↦ none
  | some q ↦ put_all rest (i + 1) q
]

-- The constructor with `n` series.
unfoldable pub create_with : ℕ → (ℕ → ℕ) → (ℕ → ℕ) → (ℕ → Option ℕ) → List ℕ → Option Parallel
unfolding put_all
create_with this buf first in_parallel all_series =
    let n = length all_series in
    put_all all_series 0 (record {
      this = this;
      buf = buf;
      buf_size = if ltb 4 n then n else 4;
      subtasks_nr = n;
      first = first;
      in_parallel = in_parallel;
      deleted = [];
    })

-- `new_buf` is the array that `new` gives.
unfoldable pub expand_buf : (ℕ → ℕ) → Parallel → Parallel
unfolding copy
expand_buf new_buf p =
    let subtasks = copy new_buf p.buf 0 0 p.subtasks_nr in
    record p {
      buf_size = p.buf_size * 2;
      buf = copy subtasks p.buf (p.buf_size * 2) p.buf_size p.subtasks_nr;
    }

abbrev pub push_series : ℕ → Parallel → Option Parallel
unfolding put_series
push_series series p = elim (put_series series p.subtasks_nr p) [
  | none ↦ none
  | some q ↦ some (record q { subtasks_nr = q.subtasks_nr + 1 })
]

unfoldable pub add_series : (ℕ → ℕ) → ℕ → Parallel → Option Parallel
unfolding expand_buf put_series
add_series new_buf series p =
    push_series series (if p.subtasks_nr == p.buf_size then expand_buf new_buf p else p)

unfoldable pub series_at : Parallel → ℕ → Option ℕ
series_at p index = if ltb index p.subtasks_nr then some (p.buf (p.buf_size + index)) else none

-- The loop of `done`: the `n` series from `i` on are deleted.
unfoldable pub delete_series : ℕ → ℕ → Parallel → Parallel
delete_series zero i p = p
delete_series (suc n) i p =
    delete_series n (i + 1) (record p { deleted = p.deleted ++ (p.buf (p.buf_size + i) ∷ []) })

-- `ParallelWork::done` before it goes on with the series that it stands in.
unfoldable pub done : Parallel → Parallel
unfolding delete_series
done p = let q = delete_series p.subtasks_nr 0 p in record q { subtasks_nr = 0 }

-- The tasks of src/kernel/SubTask.cc, by their address. `next` is what the virtual `done` of each
-- returns, `dispatched` the tasks whose virtual `dispatch` was called, in order, and `finished` those
-- whose `done` was.
pub record Tasks : Type 0 where
  pub parent : ℕ → Option ℕ
  pub nleft : ℕ → ℕ
  pub dispatched : List ℕ
  pub finished : List ℕ

-- `__sync_sub_and_fetch (&parent->nleft, 1)`; a count of 0 would wrap.
unfoldable pub count_down : ℕ → Tasks → Tasks
count_down p s = record s { nleft = update s.nleft p (s.nleft p - 1) }

-- The loop of `subtask_done`, on fuel.
unfoldable pub subtask_done : (ℕ → Option ℕ) → ℕ → ℕ → Tasks → Option Tasks
unfolding count_down
subtask_done next zero cur s = none
subtask_done next (suc fuel) cur s =
    let t = record s { finished = s.finished ++ (cur ∷ []) } in
    elim (next cur) [
      | some c ↦ some (record t {
        parent = update t.parent c (s.parent cur);
        dispatched = t.dispatched ++ (c ∷ []);
      })
      | none ↦ elim (s.parent cur) [
        | none ↦ some t
        | some p ↦
            let u = count_down p t in
            elim (u.nleft p == 0) [ true ↦ subtask_done next fuel p u | false ↦ some u ]
      ]
    ]

-- The loop of `ParallelTask::dispatch`.
unfoldable pub dispatch_all : ℕ → List ℕ → Tasks → Tasks
dispatch_all p [] s = s
dispatch_all p (t ∷ ts) s =
    dispatch_all p ts
      (record s { parent = update s.parent t (some p); dispatched = s.dispatched ++ (t ∷ []) })

-- `ParallelTask::dispatch`, where the subtasks are not done before the loop ends.
unfoldable pub dispatch : (ℕ → Option ℕ) → ℕ → ℕ → List ℕ → Tasks → Option Tasks
unfolding dispatch_all subtask_done
dispatch next fuel p subtasks s =
    let t = record s { nleft = update s.nleft p (length subtasks) } in
    if length subtasks == 0 then subtask_done next fuel p t else some (dispatch_all p subtasks t)
