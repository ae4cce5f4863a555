-- ===== src/Scheduler.antt =====
-- src/kernel/CommScheduler.cc: the heap of a group's targets, by relative load.
-- A target is its address, and a field of the targets is a function of it.
pub mod Order
pub mod Rise
pub mod Links
pub mod Group
pub mod Load
pub mod Valid
pub mod Acquire
pub mod Spread
pub mod Target
pub mod Add
pub mod Fill
pub mod Remove
mod Tests
use myworkflow.Base.{
  ℕ, zero, suc, ◌+◌, ◌-◌, ◌*◌, ◌/◌, ◌%◌, ◌^◌, Bool, true, false, not, ◌&&◌, ◌||◌, Option, none,
  some, ltb, leb, ◌==◌, if◌then◌else◌,
}

abbrev pub update : (ℕ → ℕ) → ℕ → ℕ → ℕ → ℕ
update f k v x = if x == k then v else f x

-- `tg_heap`, and the `index` of each target.
pub record Heap : Type 0 where
  pub tg_heap : ℕ → ℕ
  pub index : ℕ → ℕ

abbrev pub word : ℕ
word = 2 ^ 64

-- `target_cmp (a, b) < 0`: the products are of `size_t`.
unfoldable pub less : (ℕ → ℕ) → (ℕ → ℕ) → ℕ → ℕ → Bool
less cur max a b = ltb ((cur a * max b) % word) ((cur b * max a) % word)

-- `tg_heap[i] = t; t->index = i`.
abbrev pub place : ℕ → ℕ → Heap → Heap
place i t h = record { tg_heap = update h.tg_heap i t; index = update h.index t i }

abbrev pub parent : ℕ → ℕ
parent i = (i - 1) / 2

-- `target_cmp (a, b) < swap_on_equal`, where that is 0 or 1.
abbrev pub rises : (ℕ → ℕ → Bool) → Bool → ℕ → ℕ → Bool
rises before swap_on_equal a b = if swap_on_equal then not (before b a) else before a b

-- The loop of `heap_adjust`: the first number bounds the index, which has sunk to 0 where it is 0.
unfoldable pub adjust_loop : (ℕ → ℕ → Bool) → Bool → ℕ → ℕ → ℕ → Heap → Heap
adjust_loop before swap_on_equal zero target index h = place index target h
adjust_loop before swap_on_equal (suc n) target index h =
    let up = h.tg_heap (parent index) in
    let rest = adjust_loop before swap_on_equal n target (parent index) (place index up h) in
    if ltb 0 index && rises before swap_on_equal target up then rest else place index target h

unfoldable pub heap_adjust : (ℕ → ℕ → Bool) → Bool → ℕ → Heap → Heap
unfolding adjust_loop
heap_adjust before swap_on_equal index h =
    adjust_loop before swap_on_equal index (h.tg_heap index) index h

-- Which of the children at `i` and `i + 1` goes up in the place of the target.
unfoldable pub child : (ℕ → ℕ → Bool) → ℕ → ℕ → (ℕ → ℕ) → Option ℕ
child before target i heap =
    if before (heap i) target
    then (if before (heap (i + 1)) (heap i) then some (i + 1) else some i)
    else if before (heap (i + 1)) target
    then some (i + 1)
    else none

-- The end of `heapify`, when there are not two children.
unfoldable pub last_child : (ℕ → ℕ → Bool) → ℕ → ℕ → ℕ → Heap → Heap
last_child before last target top h =
    let i = 2 * top + 1 in
    if i == last && before (h.tg_heap i) target
    then place i target (place top (h.tg_heap i) h)
    else place top target h

-- The loop of `heapify`: the first number bounds how far `top` can sink.
unfoldable pub heapify_loop : (ℕ → ℕ → Bool) → ℕ → ℕ → ℕ → ℕ → Heap → Heap
unfolding child last_child
heapify_loop before last zero target top h = last_child before last target top h
heapify_loop before last (suc n) target top h = elim (ltb (2 * top + 1) last) [
  | false ↦ last_child before last target top h
  | true ↦ elim (child before target (2 * top + 1) h.tg_heap) [
    | none ↦ place top target h
    | some i ↦ heapify_loop before last n target i (place top (h.tg_heap i) h)
  ]
]

unfoldable pub heapify : (ℕ → ℕ → Bool) → ℕ → ℕ → Heap → Heap
unfolding heapify_loop
heapify before heap_size top h = heapify_loop before (heap_size - 1) heap_size (h.tg_heap top) top h
