-- ===== src/Avl/Examples.antt =====
-- Runs of avl.go on small trees, and the theorems at them.
use go_is_is.Common.{
  ℕ, ◌+◌, ◌*◌, ◌/◌, ◌^◌, ◌≤◌, ◌≡◌, refl, true, false, some, none, Returns, ok, arith, if◌then◌else◌,
  ◌==◌, List, [], ◌∷◌,
}
use go_is_is.Assoc
use go_is_is.Assoc.{merged, key_list}
use go_is_is.Assoc.Without.{remove_key}
use go_is_is.Avl.{
  Avl, nil, node, insert, delete, search, get_height, max_int, rotate_left_right, get_all,
}
use go_is_is.Avl.Entries.{entries}
use go_is_is.Avl.Shift.{is_inner}
use go_is_is.Avl.Contract.{IsAvl, insert-IsAvl, search-insert, delete-IsAvl}
use go_is_is.Avl.Deleted.{Shifted, search-delete, search-delete_inner}
use go_is_is.Avl.Traverse.{nodes, get_all-nodes}
use go_is_is.Avl.Depth.{Op, put, remove, apply_all, puts, depth, apply_all-depth}

abbrev leaf : ℕ → Avl ℕ
leaf k = node nil k (k * 10) 1 nil

-- The tree of the keys 1, 2, 3, 4 and 5.
abbrev five : Avl ℕ
five = node (node (leaf 1) 2 20 2 nil) 3 30 3 (node nil 4 40 2 (leaf 5))

five-IsAvl : IsAvl five
unfolding entries get_height
five-IsAvl = record { balanced = omega arith; ordered = omega arith }

-- `TestAvlLeftRight`: 10, 5 and 9 need a double rotation.
insert_left_right :
    insert (node (leaf 5) 10 100 2 nil) 9 90 false ≡ ok (node (leaf 5) 9 90 2 (leaf 10))
unfolding insert get_height max_int rotate_left_right
insert_left_right = refl

delete_root : delete five 3 ≡ ok (node (node (leaf 1) 2 20 2 nil) 4 30 3 (leaf 5))
unfolding delete get_height max_int
delete_root = refl

insert-IsAvl_example :
    Returns
      (insert five 6 60 false)
      λ t'. IsAvl t' × (entries t' ≡ Assoc.insert (entries five) 6 60 false)
insert-IsAvl_example = insert-IsAvl five 6 60 false five-IsAvl

search-insert_example : Returns (insert five 4 44 true) λ t'.
    (p : ℕ)
    → search t' p ≡ (if 4 == p then some (merged (search five 4) 44 true) else search five p)
search-insert_example = search-insert five 4 44 true five-IsAvl

delete-IsAvl_example :
    Returns
      (delete five 3)
      λ t'. IsAvl t' × (key_list (entries t') ≡ remove_key (key_list (entries five)) 3)
delete-IsAvl_example = delete-IsAvl five 3 five-IsAvl

search-delete_example :
    Returns (delete five 1) λ t'. (p : ℕ) → search t' p ≡ (if 1 == p then none else search five p)
unfolding is_inner
search-delete_example = search-delete five 1 five-IsAvl refl

search-delete_inner_example : Returns (delete five 3) (Shifted five 3)
unfolding is_inner
search-delete_inner_example = search-delete_inner five 3 five-IsAvl refl

abbrev ops : List (Op ℕ)
ops = put 1 10 false ∷ put 2 20 false ∷ put 3 30 false ∷ remove 1 ∷ put 2 21 true ∷ []

apply_all-depth_example :
    Returns (apply_all ops nil) λ t. IsAvl t × (2 ^ (depth t / 2) ≤ puts ops + 1)
apply_all-depth_example = apply_all-depth ops

get_all-nodes_example : get_all five ≡ some (nodes five)
get_all-nodes_example = get_all-nodes five
