-- ===== src/Avl/Contract.antt =====
-- What the tree of avl.go promises its users: a finite map, and trees that stay balanced.
use go_is_is.Common.{
  ℕ, ◌≡◌, sym, ap, subst, ◌∙◌, Bool, true, false, some, List, ◌∷◌, if◌then◌else◌, ◌==◌, Returns,
  Returns-and, Returns-imp,
}
use go_is_is.Assoc
use go_is_is.Assoc.{merged, key_list, IsSorted, insert-IsSorted, lookup-insert}
use go_is_is.Assoc.Without.{
  remove_key, remove-IsSorted, key_list-remove, IsSorted-drop, IsSorted-revalue, key_list-shift,
}
use go_is_is.Avl.{Avl, nil, insert, search, delete}
use go_is_is.Avl.Balance.{IsBalanced}
use go_is_is.Avl.Entries.{entries, IsOrdered}
use go_is_is.Avl.Insert.{insert-Grown}
use go_is_is.Avl.Refine.{search-eq-lookup, entries-insert}
use go_is_is.Avl.Remove.{delete-Shrunk}
use go_is_is.Avl.Shift.{is_inner, Removal, delete-Removal}

module _ {V : Type 0} where
  pub record IsAvl (t : Avl V) : Type 0 where
    pub balanced : IsBalanced t
    pub ordered : IsOrdered t

  pub nil-IsAvl : IsAvl nil
  unfolding entries
  nil-IsAvl = record { balanced = tt; ordered = tt }

  -- On a balanced search tree `AvlInsert` does not panic, its result is a balanced search tree, and
  -- the entries in order are those of an ordered insertion: a new entry, or, for a key that is
  -- there, its value replaced if `overwrite` is set and kept if not.
  pub insert-IsAvl :
      (t : Avl V) (q : ℕ) (w : V) (o : Bool)
      → IsAvl t
      → Returns (insert t q w o) λ t'. IsAvl t' × (entries t' ≡ Assoc.insert (entries t) q w o)
  insert-IsAvl t q w o a =
      Returns-imp (insert t q w o) _ _
        (λ t' p. (
          record {
            balanced = p.0.0;
            ordered = subst IsSorted (sym p.1) (insert-IsSorted (entries t) q w o a.ordered);
          },
          p.1,
        ))
        (Returns-and (insert t q w o) _ _ (insert-Grown t q w o a.balanced)
          (entries-insert t q w o a.ordered))

  -- After `AvlInsert` on a balanced search tree, `AvlSearch` finds the inserted key with the new
  -- value (the old one, if the key was there and `overwrite` is not set), and every other key as
  -- before.
  pub search-insert :
      (t : Avl V) (q : ℕ) (w : V) (o : Bool)
      → IsAvl t
      → Returns (insert t q w o) λ t'.
        (p : ℕ) → search t' p ≡ (if q == p then some (merged (search t q) w o) else search t p)
  search-insert t q w o a =
      Returns-imp (insert t q w o) _ _
        (λ t' r p.
          rw
            (
              search-eq-lookup t' p r.0.ordered,
              r.1,
              search-eq-lookup t q a.ordered,
              search-eq-lookup t p a.ordered,
            )
            (lookup-insert (entries t) q p w o a.ordered))
        (insert-IsAvl t q w o a)

  Removal-IsSorted :
      (q : ℕ) (b : Bool) (m m' : List (ℕ × V)) → Removal q b m m' → IsSorted m → IsSorted m'
  Removal-IsSorted q false m m' e s = rw e (remove-IsSorted m q s)
  Removal-IsSorted q true m m' (xs, d, k, v, ys, e, f) s =
      rw f (IsSorted-revalue xs ys k v d (IsSorted-drop xs ((k, v) ∷ ys) q d (subst IsSorted e s)))

  Removal-key_list :
      (q : ℕ) (b : Bool) (m m' : List (ℕ × V))
      → Removal q b m m'
      → IsSorted m
      → key_list m' ≡ remove_key (key_list m) q
  Removal-key_list q false m m' e s = ap key_list e ∙ key_list-remove m q
  Removal-key_list q true m m' (xs, d, k, v, ys, e, f) s =
      rw (e, f) (key_list-shift xs ys q k d v (subst IsSorted e s))

  -- On a balanced search tree `AvlDelete` does not panic, its result is a balanced search tree, and
  -- the keys in order are the old ones without the deleted key.
  pub delete-IsAvl :
      (t : Avl V) (q : ℕ)
      → IsAvl t
      → Returns
          (delete t q)
          λ t'. IsAvl t' × (key_list (entries t') ≡ remove_key (key_list (entries t)) q)
  delete-IsAvl t q a =
      Returns-imp (delete t q) _ _
        (λ t' p. (
          record {
            balanced = p.0.0;
            ordered = Removal-IsSorted q (is_inner t q) _ _ p.1 a.ordered;
          },
          Removal-key_list q (is_inner t q) _ _ p.1 a.ordered,
        ))
        (Returns-and (delete t q) _ _ (delete-Shrunk t q a.balanced) (delete-Removal t q a.ordered))
