-- ===== src/Avl/Insert.antt =====
-- `AvlInsert` keeps the tree balanced and never follows a nil pointer.
use Prim.Native.Nat.{max}
use go_is_is.Common.{
  ℕ, suc, ◌≤◌, ◌<◌, ◌≡◌, refl, ◌⊎◌, inl, inr, Bool, arith, ok, Returns, Returns-bind, compare-cases,
  dec_lt, Go, panic, out_of_fuel, ◌∙◌,
}
use go_is_is.Avl.{
  Avl, nil, node, get_height, get_balance_factor, with_height, rotate_left, rotate_right,
  rotate_left_right, rotate_right_left, rebalance_insert, key_of, insert,
}
use go_is_is.Avl.Balance.{
  IsBalanced, with_height-IsBalanced, height-with_height, rotate_right-IsBalanced,
  rotate_left-IsBalanced, rotate_left_right-IsBalanced, rotate_right_left-IsBalanced,
}

module _ {V : Type 0} where
  -- The side of the root on which the key lies is the higher one.
  abbrev pub Leans : ℕ → Avl V → Type 0
  Leans key nil = ⊥
  Leans key (node l k d h r) =
      ((key < k) × (get_height l ≡ suc (get_height r)))
      ⊎ ((k < key) × (get_height r ≡ suc (get_height l)))

  -- How a tree of height `h` may grow by an insertion.
  abbrev pub Grown : ℕ → ℕ → Avl V → Type 0
  Grown key h t = (get_height t ≡ h) ⊎ ((get_height t ≡ suc h) × ((get_height t ≡ 1) ⊎ Leans key t))

  -- Which way `rebalance_insert` goes.
  rebalance_even :
      (key : ℕ) (l : Avl V) (k : ℕ) (d : V) (r : Avl V)
      → get_height l ≤ suc (get_height r)
      → get_height r ≤ suc (get_height l)
      → rebalance_insert key l k d r ≡ ok (with_height l k d r)
  unfolding rebalance_insert get_balance_factor with_height
  rebalance_even key l k d r a b = ground arith

  rebalance_left_left :
      (key : ℕ) (ll : Avl V) (lk : ℕ) (ld : V) (lh : ℕ) (lr : Avl V) (k : ℕ) (d : V) (r : Avl V)
      → suc (get_height r) < lh
      → key < lk
      → rebalance_insert key (node ll lk ld lh lr) k d r
        ≡ rotate_right (with_height (node ll lk ld lh lr) k d r)
  unfolding rebalance_insert get_balance_factor with_height key_of get_height
  rebalance_left_left key ll lk ld lh lr k d r a b = ground arith

  rebalance_left_right :
      (key : ℕ) (ll : Avl V) (lk : ℕ) (ld : V) (lh : ℕ) (lr : Avl V) (k : ℕ) (d : V) (r : Avl V)
      → suc (get_height r) < lh
      → lk < key
      → rebalance_insert key (node ll lk ld lh lr) k d r
        ≡ rotate_left_right (with_height (node ll lk ld lh lr) k d r)
  unfolding rebalance_insert get_balance_factor with_height key_of get_height
  rebalance_left_right key ll lk ld lh lr k d r a b = ground arith

  rebalance_right_right :
      (key : ℕ) (l : Avl V) (k : ℕ) (d : V) (rl : Avl V) (rk : ℕ) (rd : V) (rh : ℕ) (rr : Avl V)
      → suc (get_height l) < rh
      → rk < key
      → rebalance_insert key l k d (node rl rk rd rh rr)
        ≡ rotate_left (with_height l k d (node rl rk rd rh rr))
  unfolding rebalance_insert get_balance_factor with_height key_of get_height
  rebalance_right_right key l k d rl rk rd rh rr a b = ground arith

  rebalance_right_left :
      (key : ℕ) (l : Avl V) (k : ℕ) (d : V) (rl : Avl V) (rk : ℕ) (rd : V) (rh : ℕ) (rr : Avl V)
      → suc (get_height l) < rh
      → key < rk
      → rebalance_insert key l k d (node rl rk rd rh rr)
        ≡ rotate_right_left (with_height l k d (node rl rk rd rh rr))
  unfolding rebalance_insert get_balance_factor with_height key_of get_height
  rebalance_right_left key l k d rl rk rd rh rr a b = ground arith

  -- The two ways in which a subtree that has grown needs no rotation.
  Grown-left :
      (key : ℕ) (l : Avl V) (k : ℕ) (d : V) (r : Avl V) (h : ℕ)
      → key < k
      → get_height l ≡ suc h
      → h ≤ get_height r
      → Grown key (suc (max h (get_height r))) (with_height l k d r)
  unfolding with_height
  Grown-left key l k d r h lt e a = elim (dec_lt (get_height r) (get_height l)) [
    | yes p ↦ inr (
      omega (arith, height-with_height l k d r),
      inr (inl (lt, omega (arith, height-with_height l k d r))),
    )
    | no p ↦ inl (omega (arith, height-with_height l k d r))
  ]

  Grown-right :
      (key : ℕ) (l : Avl V) (k : ℕ) (d : V) (r : Avl V) (h : ℕ)
      → k < key
      → get_height r ≡ suc h
      → h ≤ get_height l
      → Grown key (suc (max (get_height l) h)) (with_height l k d r)
  unfolding with_height
  Grown-right key l k d r h lt e a = elim (dec_lt (get_height l) (get_height r)) [
    | yes p ↦ inr (
      omega (arith, height-with_height l k d r),
      inr (inr (lt, omega (arith, height-with_height l k d r))),
    )
    | no p ↦ inl (omega (arith, height-with_height l k d r))
  ]

  -- After a rotation the tree is as high as before.
  settled :
      (m : Go (Avl V)) (key n h : ℕ)
      → Returns m (λ t'. IsBalanced t' × (get_height t' ≡ h))
      → h ≡ n
      → Returns m (λ t'. IsBalanced t' × Grown key n t')
  settled (ok t) key n h (b, e) q = (b, inl (e ∙ q))
  settled panic key n h r q = elim r [ ]
  settled out_of_fuel key n h r q = elim r [ ]

  -- An insertion into the left subtree, whose height was `h`.
  rebalance-left :
      (key : ℕ) (l : Avl V) (k : ℕ) (d : V) (r : Avl V) (h : ℕ)
      → key < k
      → IsBalanced l
      → IsBalanced r
      → h ≤ suc (get_height r)
      → get_height r ≤ suc h
      → Grown key h l
      → Returns
          (rebalance_insert key l k d r)
          λ t'. IsBalanced t' × Grown key (suc (max h (get_height r))) t'
  unfolding get_height
  rebalance-left key l k d r h lt bl br a b (inl e) =
      rw (rebalance_even key l k d r (omega arith) (omega arith)) (
        with_height-IsBalanced l k d r bl br (omega arith) (omega arith),
        inl (omega (arith, height-with_height l k d r)),
      )
  rebalance-left key nil k d r h lt bl br a b (inr (e, g)) = absurd (omega arith)
  rebalance-left key (node ll lk ld lh lr) k d r h lt bl br a b (inr (e, g)) =
      elim (dec_lt (suc (get_height r)) lh) [
        | no p ↦ rw (rebalance_even key (node ll lk ld lh lr) k d r (omega arith) (omega arith)) (
          with_height-IsBalanced (node ll lk ld lh lr) k d r bl br (omega arith) (omega arith),
          Grown-left key (node ll lk ld lh lr) k d r h lt e (omega arith),
        )
        | yes p ↦ elim g [
          | inl one ↦ absurd (omega arith)
          | inr (inl (below, outer)) ↦ rw (rebalance_left_left key ll lk ld lh lr k d r p below) (
              settled _ key _ _
                (rotate_right-IsBalanced ll lk ld lh lr k d r bl br (omega arith) (omega arith))
                (omega arith))
          | inr (inr (above, inner)) ↦ rw (rebalance_left_right key ll lk ld lh lr k d r p above) (
              settled _ key _ _
                (rotate_left_right-IsBalanced ll lk ld lh lr k d r bl br (omega arith) inner)
                (omega arith))
        ]
      ]

  rebalance-right :
      (key : ℕ) (l : Avl V) (k : ℕ) (d : V) (r : Avl V) (h : ℕ)
      → k < key
      → IsBalanced l
      → IsBalanced r
      → get_height l ≤ suc h
      → h ≤ suc (get_height l)
      → Grown key h r
      → Returns
          (rebalance_insert key l k d r)
          λ t'. IsBalanced t' × Grown key (suc (max (get_height l) h)) t'
  unfolding get_height
  rebalance-right key l k d r h lt bl br a b (inl e) =
      rw (rebalance_even key l k d r (omega arith) (omega arith)) (
        with_height-IsBalanced l k d r bl br (omega arith) (omega arith),
        inl (omega (arith, height-with_height l k d r)),
      )
  rebalance-right key l k d nil h lt bl br a b (inr (e, g)) = absurd (omega arith)
  rebalance-right key l k d (node rl rk rd rh rr) h lt bl br a b (inr (e, g)) =
      elim (dec_lt (suc (get_height l)) rh) [
        | no p ↦ rw (rebalance_even key l k d (node rl rk rd rh rr) (omega arith) (omega arith)) (
          with_height-IsBalanced l k d (node rl rk rd rh rr) bl br (omega arith) (omega arith),
          Grown-right key l k d (node rl rk rd rh rr) h lt e (omega arith),
        )
        | yes p ↦ elim g [
          | inl one ↦ absurd (omega arith)
          | inr (inl (below, inner)) ↦ rw (rebalance_right_left key l k d rl rk rd rh rr p below) (
              settled _ key _ _
                (rotate_right_left-IsBalanced l k d rl rk rd rh rr bl br (omega arith) inner)
                (omega arith))
          | inr (inr (above, outer)) ↦ rw (rebalance_right_right key l k d rl rk rd rh rr p above) (
              settled _ key _ _
                (rotate_left-IsBalanced l k d rl rk rd rh rr bl br (omega arith) (omega arith))
                (omega arith))
        ]
      ]

  pub insert-Grown :
      (t : Avl V) (key : ℕ) (v : V) (o : Bool)
      → IsBalanced t
      → Returns (insert t key v o) λ t'. IsBalanced t' × Grown key (get_height t) t'
  unfolding insert get_height
  insert-Grown nil key v o b =
      ((omega arith, omega arith, omega arith, tt, tt), inr (refl, inl refl))
  insert-Grown (node l k d h r) key v o b = elim (compare-cases key k) [
    | inl (t, e) ↦ rw t (b, inl refl)
    | inr (inl (t, u, lt)) ↦
        rw (t, u)
          (Returns-bind (insert l key v o) _ _ _ (insert-Grown l key v o b.3)
            λ l' q. rw b.0 (rebalance-left key l' k d r (get_height l) lt q.0 b.4 b.1 b.2 q.1))
    | inr (inr (t, u, lt)) ↦
        rw (t, u)
          (Returns-bind (insert r key v o) _ _ _ (insert-Grown r key v o b.4)
            λ r' q. rw b.0 (rebalance-right key l k d r' (get_height r) lt b.3 q.0 b.1 b.2 q.1))
  ]
