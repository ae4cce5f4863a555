-- ===== src/Parallel/Buffer.antt =====
-- The buffer of a `ParallelWork` (src/factory/Workflow.cc) is a list of series, each with its first task.
use myworkflow.Base.{
  ℕ, zero, suc, ◌+◌, ◌*◌, ◌≤◌, ◌<◌, ◌≡◌, ◌≢◌, refl, sym, ap, subst, length-map, ◌∙◌, Option, none,
  some, List, [], ◌∷◌, ◌++◌, append_assoc, append-nil, map, ◌==◌, arith, length, length-append,
  Bool-cases, Option-cases, ◌⊎◌, inl, inr,
}
use myworkflow.Parallel.{
  update, Parallel, copy, written, put_series, put_all, expand_buf, push_series, add_series,
}

-- The array holds the list from the index `i` on.
abbrev pub Stores : (ℕ → ℕ) → ℕ → List ℕ → Type 0
Stores a i [] = Unit
Stores a i (x ∷ xs) = (a i ≡ x) × Stores a (i + 1) xs

Stores-update :
    (a : ℕ → ℕ) (i k v : ℕ) (xs : List ℕ)
    → ((j : ℕ) → i ≤ j → j < i + length xs → j ≢ k)
    → Stores a i xs
    → Stores (update a k v) i xs
Stores-update a i k v [] out h = tt
Stores-update a i k v (x ∷ xs) out (e, h) = (
  ground (arith, out i, e),
  Stores-update a (i + 1) k v xs (λ j p q. out j (omega arith) (omega arith)) h,
)

Stores-snoc :
    (a : ℕ → ℕ) (i x : ℕ) (xs : List ℕ)
    → Stores a i xs
    → a (i + length xs) ≡ x
    → Stores a i (xs ++ (x ∷ []))
Stores-snoc a i x [] h e = (ap a (omega arith) ∙ e, tt)
Stores-snoc a i x (y ∷ xs) (f, h) e = (f, Stores-snoc a (i + 1) x xs h (ap a (omega arith) ∙ e))

copy-outside : (to from : ℕ → ℕ) (dst src n j : ℕ) → j < dst → copy to from dst src n j ≡ to j
unfolding copy
copy-outside to from dst src zero j h = refl
copy-outside to from dst src (suc n) j h =
    copy-outside (update to dst (from src)) from (dst + 1) (src + 1) n j (omega arith)
    ∙ ground arith

copy-Stores :
    (to from : ℕ → ℕ) (dst src : ℕ) (xs : List ℕ)
    → Stores from src xs
    → Stores (copy to from dst src (length xs)) dst xs
unfolding copy
copy-Stores to from dst src [] h = tt
copy-Stores to from dst src (x ∷ xs) (e, h) =
    let to' = update to dst (from src) in
    (
      copy-outside to' from (dst + 1) (src + 1) (length xs) dst (omega arith) ∙ ground (arith, e),
      copy-Stores to' from (dst + 1) (src + 1) xs h,
    )

Stores-copied :
    (to from : ℕ → ℕ) (dst src n i : ℕ) (xs : List ℕ)
    → i + length xs ≤ dst
    → Stores to i xs
    → Stores (copy to from dst src n) i xs
Stores-copied to from dst src n i [] p h = tt
Stores-copied to from dst src n i (x ∷ xs) p (e, h) = (
  copy-outside to from dst src n i (omega arith) ∙ e,
  Stores-copied to from dst src n (i + 1) xs (omega arith) h,
)

-- The work holds the series, of which each has its first task among the subtasks.
pub record Holds (p : Parallel) (xs : List ℕ) : Type 0 where
  pub number : p.subtasks_nr ≡ length xs
  pub room : length xs ≤ p.buf_size
  pub some_room : 0 < p.buf_size
  pub subtasks : Stores p.buf 0 (map p.first xs)
  pub all_series : Stores p.buf p.buf_size xs

expand_buf-Holds :
    (new_buf : ℕ → ℕ) (p : Parallel) (xs : List ℕ) → Holds p xs → Holds (expand_buf new_buf p) xs
unfolding expand_buf
expand_buf-Holds new_buf p xs h =
    let len = length-map xs p.first in
    let sub = copy new_buf p.buf 0 0 p.subtasks_nr in
    let n : p.subtasks_nr ≡ length (map p.first xs) = h.number ∙ sym len in
    record {
      number = h.number;
      room = omega (arith, h.room);
      some_room = omega (arith, h.some_room);
      subtasks =
          Stores-copied sub p.buf (p.buf_size * 2) p.buf_size p.subtasks_nr 0 (map p.first xs)
            (omega (arith, len, h.room))
            (subst (λ k. Stores (copy new_buf p.buf 0 0 k) 0 (map p.first xs)) (sym n)
              (copy-Stores new_buf p.buf 0 0 (map p.first xs) h.subtasks));
      all_series =
          subst (λ k. Stores (copy sub p.buf (p.buf_size * 2) p.buf_size k) (p.buf_size * 2) xs)
            (sym h.number) (copy-Stores sub p.buf (p.buf_size * 2) p.buf_size xs h.all_series);
    }

map-snoc : (f : ℕ → ℕ) (xs : List ℕ) (x : ℕ) → map f (xs ++ (x ∷ [])) ≡ map f xs ++ (f x ∷ [])
map-snoc f [] x = refl
map-snoc f (y ∷ xs) x = ap (λ ys. f y ∷ ys) (map-snoc f xs x)

-- The work with one series more.
abbrev pushed : ℕ → Parallel → Parallel
pushed series p = record (written series p.subtasks_nr p) { subtasks_nr = p.subtasks_nr + 1 }

pushed-Holds :
    (series : ℕ) (p : Parallel) (xs : List ℕ)
    → Holds p xs
    → p.subtasks_nr < p.buf_size
    → Holds (pushed series p) (xs ++ (series ∷ []))
pushed-Holds series p xs h lt =
    let n = p.subtasks_nr in
    let x = p.first series in
    let k = p.buf_size + n in
    let a = update p.buf k series in
    let len = length-map xs p.first in
    record {
      number = ap (λ m. m + 1) h.number ∙ sym (length-append xs (series ∷ []));
      room = omega (arith, length-append xs (series ∷ []), h.number);
      some_room = h.some_room;
      subtasks = subst (Stores (update a n x) 0) (sym (map-snoc p.first xs series)) (
          Stores-snoc (update a n x) 0 x (map p.first xs)
            (Stores-update a 0 n x (map p.first xs) (λ j q r. omega (arith, len, h.number))
              (Stores-update p.buf 0 k series (map p.first xs)
                (λ j q r. omega (arith, len, h.number, h.room)) h.subtasks))
            (ground (arith, len, h.number)));
      all_series =
          Stores-snoc (update a n x) p.buf_size series xs
            (Stores-update a p.buf_size n x xs (λ j q r. omega arith)
              (Stores-update p.buf p.buf_size k series xs (λ j q r. omega (arith, h.number))
                h.all_series))
            (ground (arith, h.number));
    }

expand_buf-room :
    (new_buf : ℕ → ℕ) (p : Parallel)
    → p.subtasks_nr ≤ p.buf_size
    → 0 < p.buf_size
    → (expand_buf new_buf p).subtasks_nr < (expand_buf new_buf p).buf_size
unfolding expand_buf
expand_buf-room new_buf p h k = omega arith

expand_buf-kept :
    (new_buf : ℕ → ℕ) (p : Parallel)
    → ((expand_buf new_buf p).this ≡ p.this) × ((expand_buf new_buf p).in_parallel ≡ p.in_parallel)
unfolding expand_buf
expand_buf-kept new_buf p = (refl, refl)

-- The work `o` that has been added to.
abbrev pub AddsTo : ℕ → Parallel → List ℕ → Option Parallel → Type 0
AddsTo series p xs o =
    (q : Parallel) × (o ≡ some q)
    × Holds q (xs ++ (series ∷ []))
    × (q.in_parallel series ≡ some p.this)

put_series-free :
    (series i : ℕ) (p : Parallel)
    → p.in_parallel series ≡ none
    → put_series series i p ≡ some (written series i p)
unfolding put_series
put_series-free series i p h =
    ap (λ o. elim o [ none ↦ some (written series i p) | some other ↦ none ]) h

push_series-AddsTo :
    (series : ℕ) (p : Parallel) (xs : List ℕ)
    → Holds p xs
    → p.in_parallel series ≡ none
    → p.subtasks_nr < p.buf_size
    → AddsTo series p xs (push_series series p)
unfolding push_series
push_series-AddsTo series p xs h free lt =
    let go : Option Parallel → Option Parallel =
      λ o. elim o [ none ↦ none | some q ↦ some (record q { subtasks_nr = q.subtasks_nr + 1 }) ] in
    (
      pushed series p,
      ap go (put_series-free series p.subtasks_nr p free),
      pushed-Holds series p xs h lt,
      ground arith,
    )

add_series-AddsTo :
    (new_buf : ℕ → ℕ) (series : ℕ) (p : Parallel) (xs : List ℕ)
    → Holds p xs
    → p.in_parallel series ≡ none
    → AddsTo series p xs (add_series new_buf series p)
unfolding add_series push_series
add_series-AddsTo new_buf series p xs h free = elim (Bool-cases (p.subtasks_nr == p.buf_size)) [
  | inl e ↦
      let q = expand_buf new_buf p in
      let (this, flags) = expand_buf-kept new_buf p in
      let (r, run, holds, member) =
        push_series-AddsTo series q xs (expand_buf-Holds new_buf p xs h)
          (ap (λ f. f series) flags ∙ free)
          (expand_buf-room new_buf p (ground (arith, e)) h.some_room) in
      rw e (r, run, holds, member ∙ ap some this)
  | inr e ↦ rw e (push_series-AddsTo series p xs h free (ground (arith, e, h.room, h.number)))
]

push_series-refused :
    (series o : ℕ) (p : Parallel) → p.in_parallel series ≡ some o → push_series series p ≡ none
unfolding push_series put_series
push_series-refused series o p taken =
    let q = written series p.subtasks_nr p in
    let go : Option Parallel → Option Parallel =
      λ o. elim o [ none ↦ none | some z ↦ some (record z { subtasks_nr = z.subtasks_nr + 1 }) ] in
    let put : Option ℕ → Option Parallel = λ i. elim i [ none ↦ some q | some other ↦ none ] in
    ap (λ i. go (put i)) taken

add_series-refused :
    (new_buf : ℕ → ℕ) (series o : ℕ) (p : Parallel)
    → p.in_parallel series ≡ some o
    → add_series new_buf series p ≡ none
unfolding add_series push_series
add_series-refused new_buf series o p taken = elim (Bool-cases (p.subtasks_nr == p.buf_size)) [
  | inl e ↦
      let flags = (expand_buf-kept new_buf p).1 in
      rw e (push_series-refused series o (expand_buf new_buf p) (ap (λ f. f series) flags ∙ taken))
  | inr e ↦ rw e (push_series-refused series o p taken)
]

-- `add_series` on a work that holds some series: a series that is in parallel already fails the
-- assertion; else, the buffer grown if it is full, the work holds the series that it held and the new
-- one behind them, which is then in parallel in this work.
pub add_series-Holds :
    (new_buf : ℕ → ℕ) (series : ℕ) (p : Parallel) (xs : List ℕ)
    → Holds p xs
    → ((p.in_parallel series ≡ none) × AddsTo series p xs (add_series new_buf series p))
      ⊎ ((o : ℕ) × (p.in_parallel series ≡ some o) × (add_series new_buf series p ≡ none))
add_series-Holds new_buf series p xs h = elim (Option-cases (p.in_parallel series)) [
  | inl free ↦ inl (free, add_series-AddsTo new_buf series p xs h free)
  | inr (o, taken) ↦ inr (o, taken, add_series-refused new_buf series o p taken)
]

-- No series of the list is in parallel, and none stands in it twice.
abbrev pub AllFree : ℕ → (ℕ → Option ℕ) → List ℕ → Type 0
AllFree this f [] = Unit
AllFree this f (x ∷ xs) = (f x ≡ none) × AllFree this (update f x (some this)) xs

pub put_all-Holds :
    (rest ys : List ℕ) (i : ℕ) (p : Parallel)
    → AllFree p.this p.in_parallel rest
    → Holds (record p { subtasks_nr = i }) ys
    → length ys + length rest ≤ p.buf_size
    → (q : Parallel) × (put_all rest i p ≡ some q)
      × Holds (record q { subtasks_nr = i + length rest }) (ys ++ rest)
      × (q.subtasks_nr ≡ p.subtasks_nr)
unfolding put_all
put_all-Holds [] ys i p f h r =
    let e : i + 0 ≡ i = omega arith in (p, refl, rw (e, append-nil ys) h, refl)
put_all-Holds (x ∷ rest) ys i p (f, fs) h r =
    let w = written x i p in
    let g = pushed-Holds x (record p { subtasks_nr = i }) ys h (omega (arith, h.number)) in
    let e : i + 1 + length rest ≡ i + suc (length rest) = omega arith in
    let (q, run, holds, same) =
      put_all-Holds rest (ys ++ (x ∷ [])) (i + 1) w fs g
        (omega (arith, length-append ys (x ∷ []))) in
    let go : Option Parallel → Option Parallel =
      λ o. elim o [ none ↦ none | some z ↦ put_all rest (i + 1) z ] in
    (
      q,
      ap go (put_series-free x i p f) ∙ run,
      subst (λ zs. Holds (record q { subtasks_nr = i + suc (length rest) }) zs)
          (append_assoc ys (x ∷ []) rest)
          (subst (λ m. Holds (record q { subtasks_nr = m }) (ys ++ (x ∷ []) ++ rest)) e holds),
      same,
    )
