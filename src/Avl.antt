-- ===== src/Avl.antt =====
-- avl.go: the AVL tree that holds the LSP database and the topology.
--
-- A tree owns its nodes: no node is reached by two pointers, so the in-place updates of the code
-- are modelled by the tree that they leave. `nil` is the nil pointer; following it is `panic`.
-- Keys are `uint64`, only ever compared. The stored heights are Go's `int`: a height is at most
-- the number of nodes, so it cannot overflow. `AvlData` is any type `V`; search answers `none`
-- where the code returns a nil interface for a key that is not there.
pub mod Entries
pub mod Balance
pub mod Insert
pub mod Refine
pub mod Shrink
pub mod Remove
pub mod Shift
pub mod Contract
pub mod Deleted
pub mod Traverse
pub mod Depth
mod Examples
use go_is_is.Common.{
  ℕ, zero, suc, ◌+◌, Bool, true, false, Option, none, some, List, [], ◌∷◌, ◌++◌, Go, ok, panic,
  out_of_fuel, ◌>>=◌, not, ◌&&◌, ltb, ◌==◌, if◌then◌else◌,
}
use go_is_is.Common.Int.{ℤ, pos, negsuc, sub_ℕ, ltb_ℤ}

-- `*AvlNode`: left, key, data, height, right.
pub data Avl {ℓ} (V : Type ℓ) : Type ℓ where
  nil : Avl V
  node : Avl V → ℕ → V → ℕ → Avl V → Avl V

-- What a pointer that is not nil points to.
pub record AvlNode {ℓ} (V : Type ℓ) : Type ℓ where
  pub left : Avl V
  pub key : ℕ
  pub payload : V
  pub height : ℕ
  pub right : Avl V

unfoldable pub max_int : ℕ → ℕ → ℕ
max_int a b = if ltb b a then a else b

-- `cond && e`, where `e` is run only if the condition holds.
abbrev pub and_then : Bool → Go Bool → Go Bool
and_then false e = ok false
and_then true e = e

-- `if cond { x } y`, where running the condition may panic.
abbrev pub go_if {ℓ} : {A : Type ℓ} → Go Bool → Go A → Go A → Go A
go_if (ok true) x y = x
go_if (ok false) x y = y
go_if panic x y = panic
go_if out_of_fuel x y = out_of_fuel

module _ {ℓ} {V : Type ℓ} where
  unfoldable pub get_height : Avl V → ℕ
  get_height nil = 0
  get_height (node l k d h r) = h

  unfoldable pub get_balance_factor : Avl V → ℤ
  unfolding get_height
  get_balance_factor nil = pos 0
  get_balance_factor (node l k d h r) = sub_ℕ (get_height l) (get_height r)

  -- `node.height = Max(GetHeight(node.left), GetHeight(node.right)) + 1`, over the other fields.
  unfoldable pub with_height : Avl V → ℕ → V → Avl V → Avl V
  with_height l k d r = node l k d (max_int (get_height l) (get_height r) + 1) r

  unfoldable pub rotate_right : Avl V → Go (Avl V)
  unfolding with_height
  rotate_right nil = panic
  rotate_right (node nil k d h r) = panic
  rotate_right (node (node x yk yd yh t1) k d h r) = ok (with_height x yk yd (with_height t1 k d r))

  unfoldable pub rotate_left : Avl V → Go (Avl V)
  unfolding with_height
  rotate_left nil = panic
  rotate_left (node l k d h nil) = panic
  rotate_left (node l k d h (node t1 yk yd yh x)) = ok (with_height (with_height l k d t1) yk yd x)

  -- `root.left = RotateLeft(root.left); return RotateRight(root)`
  unfoldable pub rotate_left_right : Avl V → Go (Avl V)
  unfolding rotate_left rotate_right
  rotate_left_right nil = panic
  rotate_left_right (node l k d h r) = rotate_left l >>= λ l'. rotate_right (node l' k d h r)

  unfoldable pub rotate_right_left : Avl V → Go (Avl V)
  unfolding rotate_left rotate_right
  rotate_right_left nil = panic
  rotate_right_left (node l k d h r) = rotate_right r >>= λ r'. rotate_left (node l k d h r')

  -- `node.key`
  unfoldable pub key_of : Avl V → Go ℕ
  key_of nil = panic
  key_of (node l k d h r) = ok k

  -- Lines 97-123 of `AvlInsert`: the new height of the root, and the rotation that it needs.
  unfoldable pub rebalance_insert : ℕ → Avl V → ℕ → V → Avl V → Go (Avl V)
  unfolding with_height get_balance_factor key_of
  rebalance_insert key l k d r =
      let root = with_height l k d r in
      let bf = get_balance_factor root in
      go_if (and_then (ltb_ℤ (pos 1) bf) (key_of l >>= λ lk. ok (ltb key lk))) (rotate_right root) (
        go_if (and_then (ltb_ℤ (pos 1) bf) (key_of l >>= λ lk. ok (ltb lk key)))
          (rotate_left_right root)
          (go_if (and_then (ltb_ℤ bf (negsuc 0)) (key_of r >>= λ rk. ok (ltb rk key)))
            (rotate_left root)
            (go_if (and_then (ltb_ℤ bf (negsuc 0)) (key_of r >>= λ rk. ok (ltb key rk)))
              (rotate_right_left root) (ok root))))

  unfoldable pub insert : Avl V → ℕ → V → Bool → Go (Avl V)
  unfolding rebalance_insert
  insert nil key v overwrite = ok (node nil key v 1 nil)
  insert (node l k d h r) key v overwrite =
      let left = insert l key v overwrite >>= λ l'. rebalance_insert key l' k d r in
      let right = insert r key v overwrite >>= λ r'. rebalance_insert key l k d r' in
      if key == k
      then ok (node l k (if overwrite then v else d) h r)
      else if ltb key k
      then left
      else right

  unfoldable pub rebalance_delete : Avl V → Go (Avl V)
  unfolding with_height get_balance_factor
  rebalance_delete nil = ok nil
  rebalance_delete (node l k d h r) =
      let root = with_height l k d r in
      let bf = get_balance_factor root in
      if ltb_ℤ (pos 1) bf && not (ltb_ℤ (get_balance_factor l) (pos 0))
      then rotate_right root
      else if ltb_ℤ (pos 1) bf && ltb_ℤ (get_balance_factor l) (pos 0)
      then rotate_left_right root
      else if ltb_ℤ bf (negsuc 0) && not (ltb_ℤ (pos 0) (get_balance_factor r))
      then rotate_left root
      else if ltb_ℤ bf (negsuc 0) && ltb_ℤ (pos 0) (get_balance_factor r)
      then rotate_right_left root
      else ok root

  -- `for tmp.left != nil { tmp = tmp.left }`, and then `tmp.key`.
  unfoldable pub leftmost_key : Avl V → Go ℕ
  leftmost_key nil = panic
  leftmost_key (node nil k d h r) = ok k
  leftmost_key (node (node ll lk ld lh lr) k d h r) = leftmost_key (node ll lk ld lh lr)

  -- The node to be deleted; `two` is the case of two children.
  unfoldable pub unlink : Avl V → Avl V → Go (Avl V) → Go (Avl V)
  unfolding rebalance_delete
  unlink nil nil two = ok nil
  unlink nil (node l k d h r) two = rebalance_delete (node l k d h r)
  unlink (node l k d h r) nil two = rebalance_delete (node l k d h r)
  unlink (node l k d h r) (node _ _ _ _ _) two = two

  unfoldable pub delete : Avl V → ℕ → Go (Avl V)
  unfolding rebalance_delete unlink leftmost_key
  delete nil key = ok nil
  delete (node l k d h r) key =
      let left = delete l key >>= λ l'. rebalance_delete (node l' k d h r) in
      let right = delete r key >>= λ r'. rebalance_delete (node l k d h r') in
      -- `root.key = tmp.key`: the data of the root stays.
      let two = leftmost_key r >>= λ successor.
      delete r successor >>= λ r'. rebalance_delete (node l successor d h r') in
      if ltb key k then left else if ltb k key then right else unlink l r two

  unfoldable pub search : Avl V → ℕ → Option V
  search nil key = none
  search (node l k d h r) key =
      let left = search l key in
      let right = search r key in if k == key then some d else if ltb key k then left else right

  unfoldable pub update : Avl V → ℕ → V → Avl V
  update nil key v = nil
  update (node l k d h r) key v =
      let left = node (update l key v) k d h r in
      let right = node l k d h (update r key v) in
      if k == key then node l k v h r else if ltb key k then left else right

  -- The loop of `AvlGetAll` over `current`, `stack` (its top first) and `nodes`. It ends where the
  -- code sets `done`; `none` means that the fuel ran out.
  unfoldable pub get_all_loop :
      ℕ → Avl V → List (AvlNode V) → List (AvlNode V) → Option (List (AvlNode V))
  get_all_loop zero current stack nodes = none
  get_all_loop (suc fuel) (node l k d h r) stack nodes =
      get_all_loop fuel l (record { left = l; key = k; payload = d; height = h; right = r } ∷ stack)
        nodes
  get_all_loop (suc fuel) nil [] nodes = some nodes
  get_all_loop (suc fuel) nil (top ∷ stack) nodes =
      get_all_loop fuel top.right stack (nodes ++ top ∷ [])

  unfoldable pub size : Avl V → ℕ
  size nil = 0
  size (node l k d h r) = suc (size l + size r)

  -- Each node is pushed once and popped once, and one round more sets `done`.
  unfoldable pub get_all : Avl V → Option (List (AvlNode V))
  unfolding get_all_loop size
  get_all t = get_all_loop (size t + size t + 1) t [] []
