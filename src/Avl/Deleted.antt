-- ===== src/Avl/Deleted.antt =====
-- What `AvlSearch` finds after `AvlDelete`.
use go_is_is.Common.{
  ℕ, ◌<◌, ◌≡◌, ◌≢◌, sym, ap, subst, ◌∙◌, true, false, none, List, ◌∷◌, if◌then◌else◌, ◌==◌, arith,
  Returns, Returns-and, Returns-imp,
}
use go_is_is.Assoc
use go_is_is.Assoc.{IsSorted, IsSorted-split}
use go_is_is.Assoc.Without.{lookup-remove, IsSorted-drop, lookup_here, lookup_skip, lookup_gap}
use go_is_is.Avl.{Avl, search, delete}
use go_is_is.Avl.Entries.{entries}
use go_is_is.Avl.Refine.{search-eq-lookup}
use go_is_is.Avl.Shift.{is_inner, Removal, delete-Removal}
use go_is_is.Avl.Contract.{IsAvl, delete-IsAvl}

module _ {V : Type 0} where
  -- `AvlDelete` of a key whose node does not have two children: the key is gone, and every other
  -- key is found as before.
  pub search-delete :
      (t : Avl V) (q : ℕ)
      → IsAvl t
      → is_inner t q ≡ false
      → Returns (delete t q) λ t'. (p : ℕ) → search t' p ≡ (if q == p then none else search t p)
  search-delete t q a o =
      Returns-imp (delete t q) _ _
        (λ t' r p.
          rw (search-eq-lookup t' p r.0.0.ordered, search-eq-lookup t p a.ordered)
            (subst
              (λ b.
                Removal q b (entries t) (entries t')
                → Assoc.lookup (entries t') p
                  ≡ (if q == p then none else Assoc.lookup (entries t) p))
              (sym o) (λ e. rw e (lookup-remove (entries t) q p a.ordered)) r.1))
        (Returns-and (delete t q) _ _ (delete-IsAvl t q a) (delete-Removal t q a.ordered))

  -- What a search finds after the deletion of a node with two children: the next key `s` reads as
  -- the deleted one did, and the others as before.
  pub record Shifted (t : Avl V) (q : ℕ) (t' : Avl V) : Type 0 where
    pub s : ℕ
    pub above : q < s
    pub present : search t s ≢ none
    pub next : (p : ℕ) → q < p → p < s → search t p ≡ none
    pub gone : search t' q ≡ none
    pub stale : search t' s ≡ search t q
    pub others : (p : ℕ) → p ≢ q → p ≢ s → search t' p ≡ search t p

  Shifted-Removal :
      (t : Avl V) (q : ℕ) (t' : Avl V)
      → IsAvl t
      → IsAvl t'
      → Removal q true (entries t) (entries t')
      → Shifted t q t'
  Shifted-Removal t q t' a a' (xs, d, s, v, ys, e, f) =
      let sorted = subst IsSorted e a.ordered in
      let sorted' = subst IsSorted f a'.ordered in
      let (below, above, _, _) = IsSorted-split xs ((s, v) ∷ ys) q d sorted in
      let found =
        λ (p : ℕ). search-eq-lookup t p a.ordered ∙ ap (λ (m : List (ℕ × V)). Assoc.lookup m p) e in
      let found' = λ (p : ℕ).
        search-eq-lookup t' p a'.ordered ∙ ap (λ (m : List (ℕ × V)). Assoc.lookup m p) f in
      let rest = IsSorted-drop xs ((s, v) ∷ ys) q d sorted in
      record {
        s = s;
        above = above.0;
        present = λ c. cc (
          c,
          found s,
          lookup_skip xs ((s, v) ∷ ys) q d s (omega arith),
          lookup_here xs ys s v rest,
        );
        next = λ p lo hi.
            found p
            ∙ lookup_skip xs ((s, v) ∷ ys) q d p (omega arith)
            ∙ lookup_gap xs ys s v p q rest below (omega arith) hi;
        gone = found' q ∙ lookup_gap xs ys s d q q sorted' below (omega arith) above.0;
        stale =
            found' s
            ∙ lookup_here xs ys s d sorted'
            ∙ sym (found q ∙ lookup_here xs ((s, v) ∷ ys) q d sorted);
        others = λ p n m.
            found' p
            ∙ lookup_skip xs ys s d p m
            ∙ sym (found p ∙ lookup_skip xs ((s, v) ∷ ys) q d p n ∙ lookup_skip xs ys s v p m);
      }

  -- `AvlDelete` of a key whose node has two children: the key is gone, but the next key now reads
  -- as the deleted key did, since the code copies the successor's key and not its data. All other
  -- keys are found as before.
  pub search-delete_inner :
      (t : Avl V) (q : ℕ) → IsAvl t → is_inner t q ≡ true → Returns (delete t q) (Shifted t q)
  search-delete_inner t q a o =
      Returns-imp (delete t q) _ _
        (λ t' r.
          Shifted-Removal t q t' a r.0.0 (subst (λ b. Removal q b (entries t) (entries t')) o r.1))
        (Returns-and (delete t q) _ _ (delete-IsAvl t q a) (delete-Removal t q a.ordered))
