-- ===== src/LruCache/Tests.antt =====
-- A cache of src/util/LRUCache.h that holds one value, and trees that have no left children.
use myworkflow.Base.{
  count, ℕ, ◌+◌, ◌≤◌, ◌<◌, ◌≡◌, refl, ap, ◌∙◌, ◌⊎◌, inl, inr, false, Option, none, some, List, [],
  ◌∷◌, ◌++◌, ◌==◌, ltb, if◌then◌else◌, arith, ==_iff, Bool-cases,
}
use myworkflow.LruCache.{
  Tree, leaf, node, without, RbTree, Cache, empty, set_max_size, put, release, destroy,
}
use myworkflow.LruCache.Counts.{take_one, add_one, count-without}
use myworkflow.LruCache.Erase.{inorder, RbLaws, IsValid}
use myworkflow.LruCache.Destroy.{destroy-deleted}
use myworkflow.LruCache.Reach.{
  Reach, start, call, Call, limited, stored, released, Call-Counted, put-limited,
}

abbrev right_tree : List ℕ → Tree
right_tree [] = leaf
right_tree (x ∷ xs) = node leaf x (right_tree xs)

abbrev replaced : ℕ → ℕ → List ℕ → List ℕ
replaced b e [] = []
replaced b e (x ∷ xs) = let rest = replaced b e xs in if x == b then e ∷ rest else x ∷ rest

abbrev right_trees : RbTree
unfolding without
right_trees = record {
  rb_erase = λ e t. right_tree (without e (inorder t));
  rb_replace_node = λ b e t. right_tree (replaced b e (inorder t));
  rb_insert_color = λ e t. t;
}

inorder-right_tree : (l : List ℕ) → inorder (right_tree l) ≡ l
inorder-right_tree [] = refl
inorder-right_tree (x ∷ xs) = ap (λ z. x ∷ z) (inorder-right_tree xs)

count-replaced :
    (q b e : ℕ) (l : List ℕ)
    → (b == e) ≡ false
    → count q (replaced b e l)
      ≡ (if q == b then 0 else if q == e then count e l + count b l else count q l)
count-replaced q b e [] h = ground arith
count-replaced q b e (x ∷ l) h = ground (arith, count-replaced q b e l h)

right_trees-RbLaws : RbLaws right_trees
unfolding without
right_trees-RbLaws = record {
  erase = λ q e t h.
      ap (count q) (inorder-right_tree (without e (inorder t))) ∙ count-without q e (inorder t);
  replace = λ q b e t h k.
      ap (count q) (inorder-right_tree (replaced b e (inorder t))) ∙ elim (Bool-cases (b == e)) [
        | inl same ↦ absurd (
            let z : count b (inorder t) ≡ count e (inorder t) =
              ap (λ y. count y (inorder t)) ((==_iff b e).0 same) in
            omega (arith, h, k, z))
        | inr other ↦ (let z = count-replaced q b e (inorder t) other in ground (arith, z, h, k))
      ];
  insert = λ q e t. refl;
}

limit_one : Cache ℕ ℕ
limit_one = set_max_size 1 (empty (λ e. 0) (λ e. 0))

one_held : ℕ → ℕ
one_held = add_one 7 (λ e. 0)

with_default : Option (Cache ℕ ℕ) → Cache ℕ ℕ
unfolding limit_one
with_default o = elim o [ none ↦ limit_one | some c ↦ c ]

one_in_use : Cache ℕ ℕ
unfolding put limit_one with_default
one_in_use = with_default (put ltb right_trees 7 5 50 limit_one)

one_idle : Cache ℕ ℕ
unfolding one_in_use release with_default
one_idle = with_default (release 7 one_in_use)

one_idle-Reach : Reach ltb right_trees right_trees-RbLaws one_idle (take_one 7 one_held)
unfolding limit_one one_in_use one_idle put release one_held with_default
one_idle-Reach =
    call one_in_use one_idle one_held (take_one 7 one_held)
      (call limit_one one_in_use (λ e. 0) one_held
        (call (empty (λ e. 0) (λ e. 0)) limit_one (λ e. 0) (λ e. 0) (start (λ e. 0) (λ e. 0))
          (limited 1))
        (stored 7 5 50 refl))
      (released 7 (omega arith))

other_stored :
    Call ltb right_trees right_trees-RbLaws one_idle
      (take_one 7 one_held)
      (put ltb right_trees 8 6 60 one_idle)
      (add_one 8 (take_one 7 one_held))
unfolding limit_one one_in_use one_idle put release one_held with_default
other_stored = stored 8 6 60 refl

Call-Counted_example :
    (d : Cache ℕ ℕ) × (put ltb right_trees 8 6 60 one_idle ≡ some d)
    × IsValid d (add_one 8 (take_one 7 one_held))
Call-Counted_example =
    Call-Counted ltb right_trees right_trees-RbLaws one_idle (take_one 7 one_held)
      (add_one 8 (take_one 7 one_held)) (put ltb right_trees 8 6 60 one_idle) one_idle-Reach
      other_stored

new_address : one_idle.ref 8 ≡ 0
unfolding one_idle one_in_use limit_one put release with_default
new_address = refl

put-limited_example :
    (d : Cache ℕ ℕ) × (put ltb right_trees 8 6 60 one_idle ≡ some d)
    × (0 < d.max_size → (d.size ≤ d.max_size) ⊎ (d.not_use ≡ []))
put-limited_example =
    put-limited ltb right_trees right_trees-RbLaws one_idle (take_one 7 one_held) 8 6 60
      one_idle-Reach new_address

none_held : (q : ℕ) → take_one 7 one_held q ≡ 0
unfolding one_held
none_held q = ground arith

destroy-deleted_example :
    (d : Cache ℕ ℕ) × (destroy one_idle ≡ some d)
    × (d.deleted ≡ one_idle.deleted ++ one_idle.not_use)
    × ((q : ℕ) → 0 < one_idle.ref q → 0 < count q one_idle.not_use)
destroy-deleted_example =
    destroy-deleted ltb right_trees right_trees-RbLaws one_idle (take_one 7 one_held) one_idle-Reach
      none_held
