-- ===== src/Avl/Traverse.antt =====
-- `AvlGetAll`: the loop with its own stack visits the nodes in order.
use go_is_is.Common.{
  ℕ, zero, suc, ◌+◌, ◌<◌, ◌≡◌, refl, ap, ◌∙◌, List, [], ◌∷◌, ◌++◌, map, append_assoc, append-nil,
  some, arith,
}
use mathlib.Core.List.{map-append}
use mathlib.Core.Path.{ap₂}
use go_is_is.Avl.{Avl, AvlNode, nil, node, size, get_all_loop, get_all}
use go_is_is.Avl.Entries.{entries}

module _ {ℓ} {V : Type ℓ} where
  -- The nodes in order.
  unfoldable pub nodes : Avl V → List (AvlNode V)
  nodes nil = []
  nodes (node l k d h r) =
      nodes l ++ record { left = l; key = k; payload = d; height = h; right = r } ∷ nodes r

  -- What is left to visit below the stack.
  stacked : List (AvlNode V) → List (AvlNode V)
  stacked [] = []
  stacked (top ∷ stack) = top ∷ nodes top.right ++ stacked stack

  work : List (AvlNode V) → ℕ
  work [] = 0
  work (top ∷ stack) = suc (size top.right + size top.right + work stack)

  get_all_loop_lem :
      (fuel : ℕ) (current : Avl V) (stack done : List (AvlNode V))
      → size current + size current + work stack < fuel
      → get_all_loop fuel current stack done ≡ some (done ++ nodes current ++ stacked stack)
  unfolding get_all_loop size nodes stacked work
  get_all_loop_lem zero current stack done h = elim h [ ]
  get_all_loop_lem (suc fuel) (node l k d x r) stack done h =
      get_all_loop_lem fuel l _ done (omega arith) ∙ simp append_assoc
  get_all_loop_lem (suc fuel) nil [] done h = simp append-nil
  get_all_loop_lem (suc fuel) nil (top ∷ stack) done h =
      get_all_loop_lem fuel top.right stack (done ++ top ∷ []) (omega arith) ∙ simp append_assoc

  -- `AvlGetAll` ends, and returns the nodes of the tree in order.
  pub get_all-nodes : (t : Avl V) → get_all t ≡ some (nodes t)
  unfolding get_all stacked work
  get_all-nodes t =
      get_all_loop_lem (size t + size t + 1) t [] [] (omega arith) ∙ ap some (append-nil (nodes t))

  pub map-nodes : (t : Avl V) → map (λ n. (n.key, n.payload)) (nodes t) ≡ entries t
  unfolding nodes entries
  map-nodes nil = refl
  map-nodes (node l k d h r) =
      map-append (λ (n : AvlNode V). (n.key, n.payload)) (nodes l) _
      ∙ ap₂ (λ (xs ys : List (ℕ × V)). xs ++ (k, d) ∷ ys) (map-nodes l) (map-nodes r)
