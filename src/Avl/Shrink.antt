-- ===== src/Avl/Shrink.antt =====
-- Rebalancing in `AvlDelete`: a subtree that has lost a level is mended, and a root loses one level
-- at most.
use Prim.Native.Nat.{max}
use go_is_is.Common.{
  ℕ, suc, ◌≤◌, ◌<◌, ◌≡◌, sym, ap, subst, ◌∙◌, ◌⊎◌, inl, inr, arith, Go, ok, panic, out_of_fuel,
  Returns, dec_lt,
}
use go_is_is.Avl.{
  Avl, nil, node, get_height, get_balance_factor, with_height, rotate_left, rotate_right,
  rotate_left_right, rotate_right_left, rebalance_delete,
}
use go_is_is.Avl.Balance.{
  IsBalanced, with_height-IsBalanced, height-with_height, rotate_right-IsBalanced,
  rotate_left-IsBalanced, rotate_left_right-IsBalanced, rotate_right_left-IsBalanced,
}

module _ {V : Type 0} where
  -- A tree of height `h` loses one level at most.
  abbrev pub Shrunk : ℕ → Avl V → Type 0
  Shrunk h t = (get_height t ≡ h) ⊎ (suc (get_height t) ≡ h)

  rebalance_even :
      (l : Avl V) (k : ℕ) (d : V) (h : ℕ) (r : Avl V)
      → get_height l ≤ suc (get_height r)
      → get_height r ≤ suc (get_height l)
      → rebalance_delete (node l k d h r) ≡ ok (with_height l k d r)
  unfolding rebalance_delete get_balance_factor with_height
  rebalance_even l k d h r a b = ground arith

  rebalance_left_left :
      (ll : Avl V) (lk : ℕ) (ld : V) (lh : ℕ) (lr : Avl V) (k : ℕ) (d : V) (h : ℕ) (r : Avl V)
      → suc (get_height r) < lh
      → get_height lr ≤ get_height ll
      → rebalance_delete (node (node ll lk ld lh lr) k d h r)
        ≡ rotate_right (with_height (node ll lk ld lh lr) k d r)
  unfolding rebalance_delete get_balance_factor with_height get_height
  rebalance_left_left ll lk ld lh lr k d h r a b = ground arith

  rebalance_left_right :
      (ll : Avl V) (lk : ℕ) (ld : V) (lh : ℕ) (lr : Avl V) (k : ℕ) (d : V) (h : ℕ) (r : Avl V)
      → suc (get_height r) < lh
      → get_height ll < get_height lr
      → rebalance_delete (node (node ll lk ld lh lr) k d h r)
        ≡ rotate_left_right (with_height (node ll lk ld lh lr) k d r)
  unfolding rebalance_delete get_balance_factor with_height get_height
  rebalance_left_right ll lk ld lh lr k d h r a b = ground arith

  rebalance_right_right :
      (l : Avl V) (k : ℕ) (d : V) (h : ℕ) (rl : Avl V) (rk : ℕ) (rd : V) (rh : ℕ) (rr : Avl V)
      → suc (get_height l) < rh
      → get_height rl ≤ get_height rr
      → rebalance_delete (node l k d h (node rl rk rd rh rr))
        ≡ rotate_left (with_height l k d (node rl rk rd rh rr))
  unfolding rebalance_delete get_balance_factor with_height get_height
  rebalance_right_right l k d h rl rk rd rh rr a b = ground arith

  rebalance_right_left :
      (l : Avl V) (k : ℕ) (d : V) (h : ℕ) (rl : Avl V) (rk : ℕ) (rd : V) (rh : ℕ) (rr : Avl V)
      → suc (get_height l) < rh
      → get_height rr < get_height rl
      → rebalance_delete (node l k d h (node rl rk rd rh rr))
        ≡ rotate_right_left (with_height l k d (node rl rk rd rh rr))
  unfolding rebalance_delete get_balance_factor with_height get_height
  rebalance_right_left l k d h rl rk rd rh rr a b = ground arith

  -- After a rotation the tree has the height `h` or one less.
  settled :
      (m : Go (Avl V)) (n h : ℕ)
      → Returns m (λ t'. IsBalanced t' × (get_height t' ≡ n))
      → (n ≡ h) ⊎ (suc n ≡ h)
      → Returns m (λ t'. IsBalanced t' × Shrunk h t')
  settled (ok t) n h (b, e) (inl q) = (b, inl (e ∙ q))
  settled (ok t) n h (b, e) (inr q) = (b, inr (ap suc e ∙ q))
  settled panic n h r q = elim r [ ]
  settled out_of_fuel n h r q = elim r [ ]

  rebalance-left :
      (l : Avl V) (k : ℕ) (d : V) (h : ℕ) (r : Avl V)
      → IsBalanced l
      → IsBalanced r
      → suc (get_height r) < get_height l
      → get_height l ≤ suc (suc (get_height r))
      → Returns
          (rebalance_delete (node l k d h r))
          λ t'. IsBalanced t' × Shrunk (suc (get_height l)) t'
  unfolding get_height
  rebalance-left nil k d h r bl br p q = absurd (omega arith)
  rebalance-left (node ll lk ld lh lr) k d h r bl br p q =
      elim (dec_lt (get_height ll) (get_height lr)) [
        | yes a ↦ rw (rebalance_left_right ll lk ld lh lr k d h r p a) (
            settled _ _ _
              (rotate_left_right-IsBalanced ll lk ld lh lr k d r bl br (omega arith) (omega arith))
              (inr (omega arith)))
        | no a ↦ rw (rebalance_left_left ll lk ld lh lr k d h r p (omega arith)) (
            settled _ _ _
              (rotate_right-IsBalanced ll lk ld lh lr k d r bl br (omega arith) (omega arith))
              (omega arith))
      ]

  rebalance-right :
      (l : Avl V) (k : ℕ) (d : V) (h : ℕ) (r : Avl V)
      → IsBalanced l
      → IsBalanced r
      → suc (get_height l) < get_height r
      → get_height r ≤ suc (suc (get_height l))
      → Returns
          (rebalance_delete (node l k d h r))
          λ t'. IsBalanced t' × Shrunk (suc (get_height r)) t'
  unfolding get_height
  rebalance-right l k d h nil bl br p q = absurd (omega arith)
  rebalance-right l k d h (node rl rk rd rh rr) bl br p q =
      elim (dec_lt (get_height rr) (get_height rl)) [
        | yes a ↦ rw (rebalance_right_left l k d h rl rk rd rh rr p a) (
            settled _ _ _
              (rotate_right_left-IsBalanced l k d rl rk rd rh rr bl br (omega arith) (omega arith))
              (inr (omega arith)))
        | no a ↦ rw (rebalance_right_right l k d h rl rk rd rh rr p (omega arith)) (
            settled _ _ _
              (rotate_left-IsBalanced l k d rl rk rd rh rr bl br (omega arith) (omega arith))
              (omega arith))
      ]

  -- The root of a balanced tree after its left subtree has lost a level at most.
  pub rebalance-Shrunk_left :
      (l : Avl V) (k : ℕ) (d : V) (h : ℕ) (r : Avl V) (old : ℕ)
      → IsBalanced l
      → IsBalanced r
      → old ≤ suc (get_height r)
      → get_height r ≤ suc old
      → Shrunk old l
      → Returns
          (rebalance_delete (node l k d h r))
          λ t'. IsBalanced t' × Shrunk (suc (max old (get_height r))) t'
  rebalance-Shrunk_left l k d h r old bl br a b s =
      elim (dec_lt (suc (get_height l)) (get_height r)) [
        | yes p ↦
            subst
              (λ n. Returns (rebalance_delete (node l k d h r)) λ t'. IsBalanced t' × Shrunk n t')
              (omega arith) (rebalance-right l k d h r bl br p (omega arith))
        | no p ↦ rw (rebalance_even l k d h r (omega arith) (omega arith)) (
          with_height-IsBalanced l k d r bl br (omega arith) (omega arith),
          omega (arith, height-with_height l k d r),
        )
      ]

  pub rebalance-Shrunk_right :
      (l : Avl V) (k : ℕ) (d : V) (h : ℕ) (r : Avl V) (old : ℕ)
      → IsBalanced l
      → IsBalanced r
      → get_height l ≤ suc old
      → old ≤ suc (get_height l)
      → Shrunk old r
      → Returns
          (rebalance_delete (node l k d h r))
          λ t'. IsBalanced t' × Shrunk (suc (max (get_height l) old)) t'
  rebalance-Shrunk_right l k d h r old bl br a b s =
      elim (dec_lt (suc (get_height r)) (get_height l)) [
        | yes p ↦
            subst
              (λ n. Returns (rebalance_delete (node l k d h r)) λ t'. IsBalanced t' × Shrunk n t')
              (omega arith) (rebalance-left l k d h r bl br p (omega arith))
        | no p ↦ rw (rebalance_even l k d h r (omega arith) (omega arith)) (
          with_height-IsBalanced l k d r bl br (omega arith) (omega arith),
          omega (arith, height-with_height l k d r),
        )
      ]

  -- A balanced tree that moves up in the place of its parent, of height `n`.
  pub rebalance_delete-Shrunk :
      (t : Avl V) (n : ℕ)
      → IsBalanced t
      → suc (get_height t) ≡ n
      → Returns (rebalance_delete t) λ t'. IsBalanced t' × Shrunk n t'
  unfolding get_height rebalance_delete
  rebalance_delete-Shrunk nil n b e = (tt, inr e)
  rebalance_delete-Shrunk (node l k d h r) n b e = rw (rebalance_even l k d h r b.1 b.2) (
    with_height-IsBalanced l k d r b.3 b.4 b.1 b.2,
    inr (ap suc (height-with_height l k d r ∙ sym b.0) ∙ e),
  )
