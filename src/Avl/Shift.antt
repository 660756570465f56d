-- ===== src/Avl/Shift.antt =====
-- What `AvlDelete` does to the entries. A node with at most one child is removed. Of a node with
-- two children the code takes over the successor's key, and leaves the data as it was.
use go_is_is.Common.{
  ℕ, ◌<◌, ◌≡◌, refl, sym, ap, ◌∙◌, inl, inr, Bool, ◌&&◌, true, false, arith, Ensures, Ensures-bind,
  Ensures-imp, Returns-imp, Returns-Ensures, lt→ltb, order-cases, ltb, if◌then◌else◌, List, [], ◌∷◌,
  ◌++◌, append_assoc, append-nil, subst, Returns,
}
use go_is_is.Assoc
use go_is_is.Assoc.{
  KeysBelow, KeysAbove, KeysAbove-mono, IsSorted-split, remove-append_above, remove-append_below,
  remove-KeysAbove, remove_here, remove_past,
}
use go_is_is.Avl.{Avl, nil, node, rebalance_delete, leftmost_key, unlink, delete}
use go_is_is.Avl.Entries.{entries, IsOrdered, entries-rebalance_delete}
use go_is_is.Avl.Remove.{two_children}

module _ {V : Type 0} where
  abbrev is_node : Avl V → Bool
  is_node nil = false
  is_node (node _ _ _ _ _) = true

  -- The node of the key has two children.
  unfoldable pub is_inner : Avl V → ℕ → Bool
  is_inner nil q = false
  is_inner (node l k d h r) q =
      let left = is_inner l q in
      let right = is_inner r q in
      if ltb q k then left else if ltb k q then right else is_node l && is_node r

  -- How the entries change: by whether the node has two children.
  abbrev pub Removal : ℕ → Bool → List (ℕ × V) → List (ℕ × V) → Type 0
  Removal q false m m' = m' ≡ Assoc.remove m q
  Removal q true m m' =
      (xs : List (ℕ × V)) × (d : V) × (s : ℕ) × (e : V) × (ys : List (ℕ × V)) × (m
        ≡ xs ++ (q, d) ∷ (s, e) ∷ ys)
      × (m' ≡ xs ++ (s, d) ∷ ys)

  Removal-left :
      (q : ℕ) (b : Bool) (m m' : List (ℕ × V)) (k : ℕ) (d : V) (ys : List (ℕ × V))
      → q < k
      → KeysAbove k ys
      → Removal q b m m'
      → Removal q b (m ++ (k, d) ∷ ys) (m' ++ (k, d) ∷ ys)
  Removal-left q false m m' k d ys lt a e = rw e (
      sym (
        remove-append_below m ((k, d) ∷ ys) q
          (remove-KeysAbove ((k, d) ∷ ys) q q (lt, KeysAbove-mono ys q k lt a) (omega arith))))
  Removal-left q true m m' k d ys lt a (xs, v, s, w, zs, e, f) =
      (xs, v, s, w, zs ++ (k, d) ∷ ys, rw e (append_assoc xs _ _), rw f (append_assoc xs _ _))

  Removal-right :
      (q : ℕ) (b : Bool) (m m' : List (ℕ × V)) (k : ℕ) (d : V) (xs : List (ℕ × V))
      → k < q
      → KeysBelow k xs
      → Removal q b m m'
      → Removal q b (xs ++ (k, d) ∷ m) (xs ++ (k, d) ∷ m')
  Removal-right q false m m' k d xs lt a e = rw e (
      sym (
        remove-append_above xs ((k, d) ∷ m) q k a (omega arith)
        ∙ ap (◌++◌ xs) (remove_past k d m q lt)))
  Removal-right q true m m' k d xs lt a (zs, v, s, w, ys, e, f) = (
    xs ++ (k, d) ∷ zs,
    v,
    s,
    w,
    ys,
    rw e (sym (append_assoc xs _ _)),
    rw f (sym (append_assoc xs _ _)),
  )

  -- The node where the search for the successor ends has no left child, and holds the first entry.
  abbrev First : Avl V → ℕ → Type 0
  First t s = (v : V) × (m : List (ℕ × V)) × (entries t ≡ (s, v) ∷ m) × (is_inner t s ≡ false)

  leftmost_key-First :
      (l : Avl V) (k : ℕ) (d : V) (h : ℕ) (r : Avl V)
      → IsOrdered (node l k d h r)
      → Returns (leftmost_key (node l k d h r)) (First (node l k d h r))
  unfolding leftmost_key entries is_inner
  leftmost_key-First nil k d h r s = (d, entries r, refl, ground arith)
  leftmost_key-First (node ll lk ld lh lr) k d h r s =
      let l = node ll lk ld lh lr in
      let (below, _, left, _) = IsSorted-split (entries l) (entries r) k d s in
      Returns-imp (leftmost_key l) (First l) _
        (λ q (v, m, e, o). (
          v,
          m ++ (k, d) ∷ entries r,
          ap (λ (x : List (ℕ × V)). x ++ (k, d) ∷ entries r) e,
          let lt : q < k = (subst (KeysBelow k) e below).0 in rw (lt→ltb q k lt) o,
        ))
        (leftmost_key-First ll lk ld lh lr left)

  rebalance-Removal :
      (q : ℕ) (b : Bool) (m : List (ℕ × V)) (t : Avl V)
      → Removal q b m (entries t)
      → Ensures (rebalance_delete t) λ t'. Removal q b m (entries t')
  rebalance-Removal q b m t p =
      Ensures-imp (rebalance_delete t) (λ t'. entries t' ≡ entries t) _
        (λ t' e. subst (Removal q b m) (sym e) p) (entries-rebalance_delete t)

  unlink-Removal :
      (l : Avl V) (k : ℕ) (d : V) (h : ℕ) (r : Avl V)
      → IsOrdered (node l k d h r)
      → ((s : ℕ) → Ensures (delete r s) λ r'. Removal s (is_inner r s) (entries r) (entries r'))
      → Ensures
          (unlink l r (two_children l k d h r))
          λ t'. Removal k (is_node l && is_node r) (entries (node l k d h r)) (entries t')
  unfolding unlink entries
  unlink-Removal nil k d h nil s rec = sym (remove_here k d [])
  unlink-Removal nil k d h (node rl rk rd rh rr) s rec =
      rebalance-Removal k false _ (node rl rk rd rh rr) (sym (remove_here k d _))
  unlink-Removal (node ll lk ld lh lr) k d h nil s rec =
      let l = node ll lk ld lh lr in
      let (below, _, _, _) = IsSorted-split (entries l) [] k d s in
      rebalance-Removal k false _ l (
        sym (
          remove-append_above (entries l) ((k, d) ∷ []) k k below (omega arith)
          ∙ ap (◌++◌ (entries l)) (remove_here k d [])
          ∙ append-nil (entries l)))
  unlink-Removal (node ll lk ld lh lr) k d h (node rl rk rd rh rr) s rec =
      let l = node ll lk ld lh lr in
      let r = node rl rk rd rh rr in
      let (_, _, _, right) = IsSorted-split (entries l) (entries r) k d s in
      Ensures-bind (leftmost_key r) _ (First r) _
        (Returns-Ensures (leftmost_key r) (First r) (leftmost_key-First rl rk rd rh rr right))
        λ q (v, m, e, o). Ensures-bind (delete r q) _ _ _ (rec q) λ r' p.
          let p' : entries r' ≡ m =
            subst (λ b. Removal q b (entries r) (entries r')) o p
            ∙ ap (λ (x : List (ℕ × V)). Assoc.remove x q) e
            ∙ remove_here q v m in
          rebalance-Removal k true _ (node l q d h r') (
            entries l,
            d,
            q,
            v,
            m,
            ap (λ (x : List (ℕ × V)). entries l ++ (k, d) ∷ x) e,
            ap (λ (x : List (ℕ × V)). entries l ++ (q, d) ∷ x) p',
          )

  -- `AvlDelete` on an ordered tree, where it does not panic: the entry is gone, or, where its node
  -- has two children, its key is gone and its data stays, with the successor's key.
  pub delete-Removal :
      (t : Avl V) (q : ℕ)
      → IsOrdered t
      → Ensures (delete t q) λ t'. Removal q (is_inner t q) (entries t) (entries t')
  unfolding delete is_inner entries Assoc.remove
  delete-Removal nil q s = refl
  delete-Removal (node l k d h r) q s =
      let (below, above, left, right) = IsSorted-split (entries l) (entries r) k d s in
      elim (order-cases q k) [
        | inl (t, u, e) ↦
            rw (t, u) (rw e (unlink-Removal l k d h r s (λ p. delete-Removal r p right)))
        | inr (inl (t, lt)) ↦ rw t (
            Ensures-bind (delete l q) _ _ _ (delete-Removal l q left) λ l' p.
              rebalance-Removal q (is_inner l q) _ (node l' k d h r)
                (Removal-left q (is_inner l q) _ _ k d _ lt above p))
        | inr (inr (t, u, lt)) ↦
            rw (t, u)
              (Ensures-bind (delete r q) _ _ _ (delete-Removal r q right) λ r' p.
                rebalance-Removal q (is_inner r q) _ (node l k d h r')
                  (Removal-right q (is_inner r q) _ _ k d _ lt below p))
      ]
