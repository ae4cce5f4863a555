-- ===== src/Series/Refine.antt =====
-- The queue of a `SeriesWork` (src/factory/Workflow.cc) is a double-ended queue of tasks: growing it
-- and going round its end lose no task and keep the order.
use myworkflow.Base.{
  ℕ, zero, suc, ◌+◌, ◌-◌, ◌*◌, ◌<◌, ◌≡◌, refl, sym, ap, ap₂, ◌∙◌, inl, inr, true, false, none, some,
  List, [], ◌∷◌, ◌++◌, map, arith, ◌==◌, length, get_or, set, replicate, length-set, length-append,
  length-replicate, length-map, get_or-set_self, Bool-cases,
}
use myworkflow.Series.{
  Slot, Series, next_index, prev_index, copy_loop, expand_queue, if_full, push_front, push_back,
}
use myworkflow.Series.Window.{
  wrap, wrap-lt, window, wrap-next, next_index-lt, window-set_ne, window-snoc, fill, length-fill,
  window-fill, back-next, back-room, back-full, prev_index-lt, prev_index-next, prev_index-wrap,
  prev_index-ends, front-room, front-full,
}

meets_back :
    (size back j : ℕ) → j < size → back ≡ wrap size (j + 1) → (next_index size j == back) ≡ true
meets_back size back j h e = ground arith

before_back :
    (size back j n : ℕ)
    → j < size
    → suc n < size
    → back ≡ wrap size (j + suc (suc n))
    → (next_index size j == back) ≡ false
before_back size back j n h k e = ground arith

-- The loop of `expand_queue` ends, and has copied the `n` slots from `j` on to those from `i` on.
copy_loop-fill :
    (fuel n : ℕ) (from : List Slot) (size back : ℕ) (to : List Slot) (i j : ℕ)
    → n < fuel
    → n < size
    → j < size
    → back ≡ wrap size (j + suc n)
    → copy_loop fuel from size back to i j
      ≡ some (fill to i (window from size j (suc n)), i + suc n)
unfolding copy_loop
copy_loop-fill zero n from size back to i j h k l e = absurd (omega arith)
copy_loop-fill (suc fuel) zero from size back to i j h k l e = rw (meets_back size back j l e)
copy_loop-fill (suc fuel) (suc n) from size back to i j h k l e =
    rw (before_back size back j n l k e) (
      copy_loop-fill fuel n from size back (set to i (get_or from j none)) (i + 1)
        (next_index size j) (omega arith) (omega arith) (next_index-lt size j l)
        (e ∙ sym (wrap-next size j (suc n) l (omega arith)))
      ∙ ap (λ k. some (fill to i (window from size j (suc (suc n))), k)) (omega arith))

-- The queue of `s` holds the tasks `ts`, oldest first, and has room for one more.
pub record Holds (s : Series) (ts : List ℕ) : Type 0 where
  pub storage : length s.queue ≡ s.queue_size
  pub front_in : s.front < s.queue_size
  pub room : length ts < s.queue_size
  pub ends : s.back ≡ wrap s.queue_size (s.front + length ts)
  pub held : window s.queue s.queue_size s.front (length ts) ≡ map some ts

-- The same with every slot in use.
record Full (s : Series) (ts : List ℕ) : Type 0 where
  storage : length s.queue ≡ s.queue_size
  front_in : s.front < s.queue_size
  full : length ts ≡ s.queue_size
  meet : s.back ≡ s.front
  held : window s.queue s.queue_size s.front (length ts) ≡ map some ts

expanded : Series → List ℕ → Series
expanded s ts = record s {
  queue = fill (replicate (2 * s.queue_size) none) 0 (map some ts);
  queue_size = 2 * s.queue_size;
  front = 0;
  back = s.queue_size;
}

full-wrap : (size front : ℕ) → front < size → front ≡ wrap size (front + suc (size - 1))
full-wrap size front h = ground arith

copy_loop-Full :
    (s : Series) (ts : List ℕ)
    → Full s ts
    → copy_loop s.queue_size s.queue s.queue_size s.back
        (replicate (2 * s.queue_size) none)
        0
        s.front
      ≡ some (fill (replicate (2 * s.queue_size) none) 0 (map some ts), s.queue_size)
copy_loop-Full s ts v =
    let to : List Slot = replicate (2 * s.queue_size) none in
    let room : s.queue_size - 1 < s.queue_size = omega (arith, v.front_in) in
    let size : suc (s.queue_size - 1) ≡ length ts = omega (arith, v.front_in, v.full) in
    copy_loop-fill s.queue_size (s.queue_size - 1) s.queue s.queue_size s.back to 0 s.front room
      room v.front_in (v.meet ∙ full-wrap s.queue_size s.front v.front_in)
    ∙ ap (λ k. some (fill to 0 (window s.queue s.queue_size s.front k), 0 + k)) size
    ∙ ap₂ (λ w k. some (fill to 0 w, k)) v.held (omega (arith, v.full))

expand_queue-expanded :
    (s : Series) (ts : List ℕ) → Full s ts → expand_queue s ≡ some (expanded s ts)
unfolding expand_queue expanded
expand_queue-expanded s ts v = rw (copy_loop-Full s ts v, expand_queue)

wrap-front : (size n : ℕ) → 0 < size → n ≡ size → size ≡ wrap (2 * size) (0 + n)
wrap-front size n h e = ground arith

expanded-Holds : (s : Series) (ts : List ℕ) → Full s ts → Holds (expanded s ts) ts
unfolding expanded
expanded-Holds s ts v =
    let nothing : Slot = none in
    record {
      storage =
          length-fill (replicate (2 * s.queue_size) none) (map some ts) 0
          ∙ length-replicate (2 * s.queue_size) none;
      front_in = omega (arith, v.front_in);
      room = omega (arith, v.front_in, v.full);
      ends = wrap-front s.queue_size (length ts) (omega (arith, v.front_in)) v.full;
      held =
          ap
            (λ k.
              window (fill (replicate (2 * s.queue_size) none) 0 (map some ts)) (2 * s.queue_size) 0
                k)
            (sym (length-map ts some))
          ∙ window-fill (2 * s.queue_size) (replicate (2 * s.queue_size) none) (map some ts) 0
              (omega
                (arith, length-map ts some, length-replicate (2 * s.queue_size) nothing, v.full))
              (omega (arith, length-map ts some, v.full, v.front_in));
    }

-- A push that uses the last slot.
push-kept :
    (s : Series) (ts : List ℕ)
    → (s.front == s.back) ≡ false
    → Holds s ts
    → (t : Series) × (if_full s ≡ some t) × Holds t ts
push-kept s ts e v = (s, rw e, v)

push-grown :
    (s : Series) (ts : List ℕ)
    → (s.front == s.back) ≡ true
    → Full s ts
    → (t : Series) × (if_full s ≡ some t) × Holds t ts
push-grown s ts e v = (expanded s ts, rw e (expand_queue-expanded s ts v), expanded-Holds s ts v)

map-snoc : (ts : List ℕ) (t : ℕ) → map (λ x. some x) ts ++ (some t ∷ []) ≡ map some (ts ++ (t ∷ []))
map-snoc [] t = refl
map-snoc (x ∷ ts) t = ap (λ l. some x ∷ l) (map-snoc ts t)

-- The slots with the new task behind the others.
back_held :
    (s : Series) (ts : List ℕ) (t : ℕ)
    → Holds s ts
    → window (set s.queue s.back (some t)) s.queue_size s.front (length (ts ++ (t ∷ [])))
      ≡ map some (ts ++ (t ∷ []))
back_held s ts t v =
    let q : List Slot = set s.queue s.back (some t) in
    let size : length (ts ++ (t ∷ [])) ≡ suc (length ts) =
      omega (arith, length-append ts (t ∷ [])) in
    let back_in : s.back < length s.queue =
      omega
        (arith, v.storage, v.ends, wrap-lt s.queue_size s.front (length ts) v.front_in v.room) in
    ap (λ k. window q s.queue_size s.front k) size
    ∙ window-snoc s.queue_size q s.front (length ts) v.front_in v.room
    ∙ ap₂ (λ l x. l ++ (x ∷ []))
        (ap (λ p. window (set s.queue p (some t)) s.queue_size s.front (length ts)) v.ends
          ∙ window-set_ne s.queue_size s.queue s.front (length ts) (length ts) (some t) v.front_in
              (omega arith) v.room
          ∙ v.held)
        (ap (λ p. get_or q p none) (sym v.ends)
          ∙ get_or-set_self s.queue s.back (some t) none back_in)
    ∙ map-snoc ts t

-- `push_back` succeeds and puts the task behind the others, growing the queue where it is full.
pub push_back-Holds :
    (s : Series) (ts : List ℕ) (t : ℕ)
    → Holds s ts
    → (s' : Series) × (push_back s t ≡ some s') × Holds s' (ts ++ (t ∷ []))
unfolding push_back
push_back-Holds s ts t v = elim (Bool-cases (s.front == next_index s.queue_size s.back)) [
  | inr e ↦ push-kept s₁ (ts ++ (t ∷ [])) e (record {
    storage = length-set s.queue s.back (some t) ∙ v.storage;
    front_in = v.front_in;
    room =
        omega (
          arith,
          size,
          back-room s.queue_size s.front s.back (length ts) v.front_in v.room v.ends e,
        );
    ends =
        back-next s.queue_size s.front s.back (length ts) v.front_in v.room v.ends
        ∙ ap (λ k. wrap s.queue_size (s.front + k)) (sym size);
    held = back_held s ts t v;
  })
  | inl e ↦ push-grown s₁ (ts ++ (t ∷ [])) e (record {
    storage = length-set s.queue s.back (some t) ∙ v.storage;
    front_in = v.front_in;
    full = size ∙ (back-full s.queue_size s.front s.back (length ts) v.front_in v.room v.ends e).0;
    meet = (back-full s.queue_size s.front s.back (length ts) v.front_in v.room v.ends e).1;
    held = back_held s ts t v;
  })
]
  where
    s₁ : Series
    s₁ = record s { queue = set s.queue s.back (some t); back = next_index s.queue_size s.back }

    size : length (ts ++ (t ∷ [])) ≡ suc (length ts)
    size = omega (arith, length-append ts (t ∷ []))

-- The slots with the new task before the others.
front_held :
    (s : Series) (ts : List ℕ) (t : ℕ)
    → Holds s ts
    → window
        (set s.queue (prev_index s.queue_size s.front) (some t))
        s.queue_size
        (prev_index s.queue_size s.front)
        (suc (length ts))
      ≡ map some (t ∷ ts)
front_held s ts t v =
    let i : ℕ = prev_index s.queue_size s.front in
    let i_in : i < s.queue_size =
      prev_index-lt s.queue_size s.front s.back (length ts) v.front_in v.room v.ends in
    ap₂ ◌∷◌ (get_or-set_self s.queue i (some t) none (omega (arith, v.storage, i_in))) (
      ap (λ j. window (set s.queue i (some t)) s.queue_size j (length ts))
        (prev_index-next s.queue_size s.front s.back (length ts) v.front_in v.room v.ends)
      ∙ ap (λ p. window (set s.queue p (some t)) s.queue_size s.front (length ts))
          (prev_index-wrap s.queue_size s.front s.back (length ts) v.front_in v.room v.ends)
      ∙ window-set_ne s.queue_size s.queue s.front (length ts) (s.queue_size - 1) (some t)
          v.front_in (omega (arith, v.room)) (omega (arith, v.front_in))
      ∙ v.held)

-- `push_front` succeeds and puts the task before the others, growing the queue where it is full.
pub push_front-Holds :
    (s : Series) (ts : List ℕ) (t : ℕ)
    → Holds s ts
    → (s' : Series) × (push_front s t ≡ some s') × Holds s' (t ∷ ts)
unfolding push_front
push_front-Holds s ts t v = elim (Bool-cases (prev_index s.queue_size s.front == s.back)) [
  | inr e ↦ push-kept s₁ (t ∷ ts) e (record {
    storage = length-set s.queue i (some t) ∙ v.storage;
    front_in = prev_index-lt s.queue_size s.front s.back (length ts) v.front_in v.room v.ends;
    room = front-room s.queue_size s.front s.back (length ts) v.front_in v.room v.ends e;
    ends = prev_index-ends s.queue_size s.front s.back (length ts) v.front_in v.room v.ends;
    held = front_held s ts t v;
  })
  | inl e ↦ push-grown s₁ (t ∷ ts) e (record {
    storage = length-set s.queue i (some t) ∙ v.storage;
    front_in = prev_index-lt s.queue_size s.front s.back (length ts) v.front_in v.room v.ends;
    full = (front-full s.queue_size s.front s.back (length ts) v.front_in v.room v.ends e).0;
    meet = (front-full s.queue_size s.front s.back (length ts) v.front_in v.room v.ends e).1;
    held = front_held s ts t v;
  })
]
  where
    i : ℕ
    i = prev_index s.queue_size s.front

    s₁ : Series
    s₁ = record s { front = i; queue = set s.queue i (some t) }
