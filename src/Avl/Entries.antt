-- ===== src/Avl/Entries.antt =====
-- The entries of a tree in order: its abstract view. Rotations and rebalancing keep them.
use go_is_is.Common.{ℕ, ◌≡◌, refl, List, [], ◌∷◌, ◌++◌, append_assoc, Ensures, arith, Ensures-bind}
use go_is_is.Assoc.{IsSorted}
use go_is_is.Avl.{
  Avl, nil, node, with_height, rotate_left, rotate_right, rotate_left_right, rotate_right_left,
  rebalance_insert, rebalance_delete,
}

module _ {ℓ} {V : Type ℓ} where
  unfoldable pub entries : Avl V → List (ℕ × V)
  entries nil = []
  entries (node l k d h r) = entries l ++ (k, d) ∷ entries r

  -- The search-tree invariant.
  abbrev pub IsOrdered : Avl V → Type 0
  IsOrdered t = IsSorted (entries t)

  pub entries-rotate_right : (t : Avl V) → Ensures (rotate_right t) (λ t'. entries t' ≡ entries t)
  unfolding rotate_right entries
  entries-rotate_right nil = tt
  entries-rotate_right (node nil k d h r) = tt
  entries-rotate_right (node (node x yk yd yh t1) k d h r) = simp append_assoc

  pub entries-rotate_left : (t : Avl V) → Ensures (rotate_left t) (λ t'. entries t' ≡ entries t)
  unfolding rotate_left entries
  entries-rotate_left nil = tt
  entries-rotate_left (node l k d h nil) = tt
  entries-rotate_left (node l k d h (node t1 yk yd yh x)) = simp append_assoc

  entries-rotate_left_right :
      (t : Avl V) → Ensures (rotate_left_right t) (λ t'. entries t' ≡ entries t)
  unfolding rotate_left_right entries
  entries-rotate_left_right nil = tt
  entries-rotate_left_right (node l k d h r) =
      Ensures-bind (rotate_left l) _ (λ l'. entries l' ≡ entries l) _ (entries-rotate_left l)
        λ l' e. rw (← e) (entries-rotate_right (node l' k d h r))

  entries-rotate_right_left :
      (t : Avl V) → Ensures (rotate_right_left t) (λ t'. entries t' ≡ entries t)
  unfolding rotate_right_left entries
  entries-rotate_right_left nil = tt
  entries-rotate_right_left (node l k d h r) =
      Ensures-bind (rotate_right r) _ (λ r'. entries r' ≡ entries r) _ (entries-rotate_right r)
        λ r' e. rw (← e) (entries-rotate_left (node l k d h r'))

  pub entries-rebalance_insert :
      (key : ℕ) (l : Avl V) (k : ℕ) (d : V) (r : Avl V)
      → Ensures (rebalance_insert key l k d r) (λ t'. entries t' ≡ entries l ++ (k, d) ∷ entries r)
  unfolding rebalance_insert with_height entries
  entries-rebalance_insert key l k d r =
      let root = with_height l k d r in
      ground (
        arith,
        entries-rotate_right root,
        entries-rotate_left_right root,
        entries-rotate_left root,
        entries-rotate_right_left root,
      )

  pub entries-rebalance_delete :
      (t : Avl V) → Ensures (rebalance_delete t) (λ t'. entries t' ≡ entries t)
  unfolding rebalance_delete with_height entries
  entries-rebalance_delete nil = refl
  entries-rebalance_delete (node l k d h r) =
      let root = with_height l k d r in
      ground (
        arith,
        entries-rotate_right root,
        entries-rotate_left_right root,
        entries-rotate_left root,
        entries-rotate_right_left root,
      )
