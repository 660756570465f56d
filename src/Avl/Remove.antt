-- ===== src/Avl/Remove.antt =====
-- `AvlDelete` never follows a nil pointer, and keeps the tree balanced.
use go_is_is.Common.{
  ℕ, ◌≡◌, refl, inl, inr, Returns, Returns-bind, Returns-imp, order-cases, Go, ◌>>=◌, ap, sym, List,
  ◌∷◌, ◌++◌, arith,
}
use go_is_is.Avl.{Avl, nil, node, get_height, rebalance_delete, leftmost_key, unlink, delete}
use go_is_is.Avl.Balance.{IsBalanced}
use go_is_is.Avl.Entries.{entries}
use go_is_is.Avl.Shrink.{
  Shrunk, rebalance-Shrunk_left, rebalance-Shrunk_right, rebalance_delete-Shrunk,
}

module _ {V : Type 0} where
  -- The loop that looks for the successor ends at the first entry of the tree.
  pub leftmost_key_first :
      (l : Avl V) (k : ℕ) (d : V) (h : ℕ) (r : Avl V)
      → Returns
          (leftmost_key (node l k d h r))
          λ s. (v : V) × (m : List (ℕ × V)) × (entries (node l k d h r) ≡ (s, v) ∷ m)
  unfolding leftmost_key entries
  leftmost_key_first nil k d h r = (d, entries r, refl)
  leftmost_key_first (node ll lk ld lh lr) k d h r =
      Returns-imp (leftmost_key (node ll lk ld lh lr)) _ _
        (λ s (v, m, e).
          (v, m ++ (k, d) ∷ entries r, ap (λ (x : List (ℕ × V)). x ++ (k, d) ∷ entries r) e))
        (leftmost_key_first ll lk ld lh lr)

  -- The case of two children: the successor's key is taken, and deleted from the right subtree.
  abbrev pub two_children : Avl V → ℕ → V → ℕ → Avl V → Go (Avl V)
  two_children l k d h r =
      leftmost_key r >>= λ s. delete r s >>= λ r'. rebalance_delete (node l s d h r')

  unlink-Shrunk :
      (l : Avl V) (k : ℕ) (d : V) (h : ℕ) (r : Avl V)
      → IsBalanced (node l k d h r)
      → ((q : ℕ) → Returns (delete r q) λ r'. IsBalanced r' × Shrunk (get_height r) r')
      → Returns (unlink l r (two_children l k d h r)) λ t'. IsBalanced t' × Shrunk h t'
  unfolding unlink get_height
  unlink-Shrunk nil k d h nil b rec = (tt, inr (sym b.0))
  unlink-Shrunk nil k d h (node rl rk rd rh rr) b rec =
      rebalance_delete-Shrunk (node rl rk rd rh rr) h b.4 (omega arith)
  unlink-Shrunk (node ll lk ld lh lr) k d h nil b rec =
      rebalance_delete-Shrunk (node ll lk ld lh lr) h b.3 (omega arith)
  unlink-Shrunk (node ll lk ld lh lr) k d h (node rl rk rd rh rr) b rec =
      let l = node ll lk ld lh lr in
      Returns-bind (leftmost_key (node rl rk rd rh rr)) _ _ _ (leftmost_key_first rl rk rd rh rr)
        λ s _.
          Returns-bind (delete (node rl rk rd rh rr) s) _ _ _ (rec s)
            λ r' q. rw b.0 (rebalance-Shrunk_right l s d h r' rh b.3 q.0 b.1 b.2 q.1)

  pub delete-Shrunk :
      (t : Avl V) (key : ℕ)
      → IsBalanced t
      → Returns (delete t key) λ t'. IsBalanced t' × Shrunk (get_height t) t'
  unfolding delete get_height
  delete-Shrunk nil key b = (tt, inl refl)
  delete-Shrunk (node l k d h r) key b = elim (order-cases key k) [
    | inl (t, u, e) ↦ rw (t, u) (unlink-Shrunk l k d h r b (λ q. delete-Shrunk r q b.4))
    | inr (inl (t, lt)) ↦ rw t (
        Returns-bind (delete l key) _ _ _ (delete-Shrunk l key b.3)
          λ l' q. rw b.0 (rebalance-Shrunk_left l' k d h r (get_height l) q.0 b.4 b.1 b.2 q.1))
    | inr (inr (t, u, lt)) ↦
        rw (t, u)
          (Returns-bind (delete r key) _ _ _ (delete-Shrunk r key b.4)
            λ r' q. rw b.0 (rebalance-Shrunk_right l k d h r' (get_height r) b.3 q.0 b.1 b.2 q.1))
  ]
