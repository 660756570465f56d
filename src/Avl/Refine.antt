-- ===== src/Avl/Refine.antt =====
-- `AvlSearch`, `AvlInsert` and `AvlUpdate` refine the operations of an ordered association list.
use go_is_is.Common.{
  ℕ, ◌≡◌, refl, Bool, ◌∷◌, ◌++◌, inl, inr, arith, Ensures, Ensures-bind, compare-cases, sym, ◌∙◌,
  ap,
}
use go_is_is.Assoc
use go_is_is.Assoc.{
  IsSorted, IsSorted-split, lookup-append_above, lookup-append_below, lookup-KeysAbove, insert-nil,
  insert_here, insert_past, insert-append_above, insert-append_below, replace-append_above,
  replace-append_below, replace-KeysAbove,
}
use go_is_is.Avl.{Avl, nil, node, search, insert, update}
use go_is_is.Avl.Entries.{entries, IsOrdered, entries-rebalance_insert}

module _ {V : Type 0} where
  pub search-eq-lookup : (t : Avl V) (q : ℕ) → IsOrdered t → search t q ≡ Assoc.lookup (entries t) q
  unfolding search entries Assoc.lookup
  search-eq-lookup nil q s = refl
  search-eq-lookup (node l k d h r) q s =
      let parts = IsSorted-split (entries l) (entries r) k d s in
      ground (
        arith,
        search-eq-lookup l q parts.2,
        search-eq-lookup r q parts.3,
        lookup-append_above (entries l) ((k, d) ∷ entries r) q k parts.0,
        lookup-append_below (entries l) ((k, d) ∷ entries r) q,
        lookup-KeysAbove (entries r) q k parts.1,
      )

  pub entries-insert :
      (t : Avl V) (q : ℕ) (w : V) (o : Bool)
      → IsOrdered t
      → Ensures (insert t q w o) (λ t'. entries t' ≡ Assoc.insert (entries t) q w o)
  unfolding insert entries
  entries-insert nil q w o s = sym (insert-nil q w o)
  entries-insert (node l k d h r) q w o s =
      let (below, _, left, right) = IsSorted-split (entries l) (entries r) k d s in
      let past = insert-append_above (entries l) ((k, d) ∷ entries r) q k w o below in
      elim (compare-cases q k) [
        | inl (t, e) ↦
            rw t (
              sym
                (past (omega arith) ∙ ap (◌++◌ (entries l)) (insert_here k d (entries r) q w o t)))
        | inr (inl (t, u, lt)) ↦
            rw (t, u, insert-append_below (entries l) (entries r) k d q w o lt)
              (Ensures-bind (insert l q w o) _ _ _ (entries-insert l q w o left)
                λ l' e. rw (← e) (entries-rebalance_insert q l' k d r))
        | inr (inr (t, u, lt)) ↦
            rw (t, u, past (omega arith), insert_past k d (entries r) q w o t u)
              (Ensures-bind (insert r q w o) _ _ _ (entries-insert r q w o right)
                λ r' e. rw (← e) (entries-rebalance_insert q l k d r'))
      ]

  pub entries-update :
      (t : Avl V) (q : ℕ) (w : V)
      → IsOrdered t
      → entries (update t q w) ≡ Assoc.replace (entries t) q w
  unfolding update entries Assoc.replace
  entries-update nil q w s = refl
  entries-update (node l k d h r) q w s =
      let parts = IsSorted-split (entries l) (entries r) k d s in
      ground (
        arith,
        entries-update l q w parts.2,
        entries-update r q w parts.3,
        replace-append_above (entries l) ((k, d) ∷ entries r) q k w parts.0,
        replace-append_below (entries l) ((k, d) ∷ entries r) q w,
        replace-KeysAbove (entries r) q k w parts.1,
      )
