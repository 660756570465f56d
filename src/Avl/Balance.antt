-- ===== src/Avl/Balance.antt =====
-- The balance invariant of avl.go, and what the rotations make of it.
use Prim.Native.Nat.{max}
use go_is_is.Common.{ℕ, suc, ◌≤◌, ◌≡◌, arith, Returns}
use go_is_is.Avl.{
  Avl, nil, node, max_int, get_height, with_height, rotate_left, rotate_right, rotate_left_right,
  rotate_right_left,
}

pub max_int-max : (a b : ℕ) → max_int a b ≡ max a b
unfolding max_int
max_int-max a b = ground arith

module _ {V : Type 0} where
  -- The stored heights are right, and the subtrees of a node differ by one level at most.
  abbrev pub IsBalanced : Avl V → Type 0
  IsBalanced nil = Unit
  IsBalanced (node l k d h r) =
      (h ≡ suc (max (get_height l) (get_height r)))
      × (get_height l ≤ suc (get_height r))
      × (get_height r ≤ suc (get_height l))
      × IsBalanced l
      × IsBalanced r

  pub with_height-IsBalanced :
      (l : Avl V) (k : ℕ) (d : V) (r : Avl V)
      → IsBalanced l
      → IsBalanced r
      → get_height l ≤ suc (get_height r)
      → get_height r ≤ suc (get_height l)
      → IsBalanced (with_height l k d r)
  unfolding with_height
  with_height-IsBalanced l k d r bl br a b = (omega (arith, max_int-max), a, b, bl, br)

  pub height-with_height :
      (l : Avl V) (k : ℕ) (d : V) (r : Avl V)
      → get_height (with_height l k d r) ≡ suc (max (get_height l) (get_height r))
  unfolding with_height get_height
  height-with_height l k d r = omega (arith, max_int-max)

  -- A single rotation mends a root whose child is two levels too high on the outer side.
  pub rotate_right-IsBalanced :
      (ll : Avl V) (lk : ℕ) (ld : V) (lh : ℕ) (lr : Avl V) (k : ℕ) (d : V) (r : Avl V)
      → IsBalanced (node ll lk ld lh lr)
      → IsBalanced r
      → lh ≡ suc (suc (get_height r))
      → get_height lr ≤ get_height ll
      → Returns
          (rotate_right (with_height (node ll lk ld lh lr) k d r))
          λ t'. IsBalanced t' × (get_height t' ≡ suc (suc (get_height lr)))
  unfolding rotate_right with_height get_height
  rotate_right-IsBalanced ll lk ld lh lr k d r bl br e a =
      let z = height-with_height lr k d r in
      (
        with_height-IsBalanced ll lk ld (with_height lr k d r) bl.3
            (with_height-IsBalanced lr k d r bl.4 br (omega arith) (omega arith)) (omega (arith, z))
            (omega (arith, z)),
        omega (arith, z, height-with_height ll lk ld (with_height lr k d r)),
      )

  pub rotate_left-IsBalanced :
      (l : Avl V) (k : ℕ) (d : V) (rl : Avl V) (rk : ℕ) (rd : V) (rh : ℕ) (rr : Avl V)
      → IsBalanced l
      → IsBalanced (node rl rk rd rh rr)
      → rh ≡ suc (suc (get_height l))
      → get_height rl ≤ get_height rr
      → Returns
          (rotate_left (with_height l k d (node rl rk rd rh rr)))
          λ t'. IsBalanced t' × (get_height t' ≡ suc (suc (get_height rl)))
  unfolding rotate_left with_height get_height
  rotate_left-IsBalanced l k d rl rk rd rh rr bl br e a =
      let z = height-with_height l k d rl in
      (
        with_height-IsBalanced (with_height l k d rl) rk rd rr
            (with_height-IsBalanced l k d rl bl br.3 (omega arith) (omega arith)) br.4
            (omega (arith, z)) (omega (arith, z)),
        omega (arith, z, height-with_height (with_height l k d rl) rk rd rr),
      )

  inner-IsBalanced :
      (a : Avl V) (ak : ℕ) (ad : V) (x : Avl V) (m : ℕ) (md : V) (y : Avl V) (bk : ℕ) (bd : V)
      (b : Avl V)
      → IsBalanced a
      → IsBalanced x
      → IsBalanced y
      → IsBalanced b
      → get_height a ≡ get_height b
      → max (get_height x) (get_height y) ≡ get_height a
      → (get_height x ≤ suc (get_height y)) × (get_height y ≤ suc (get_height x))
      → let t' = with_height (with_height a ak ad x) m md (with_height y bk bd b) in
        IsBalanced t' × (get_height t' ≡ suc (suc (get_height b)))
  inner-IsBalanced a ak ad x m md y bk bd b ba bx by bb e f g =
      let left = height-with_height a ak ad x in
      let right = height-with_height y bk bd b in
      (
        with_height-IsBalanced (with_height a ak ad x) m md (with_height y bk bd b)
            (with_height-IsBalanced a ak ad x ba bx (omega arith) (omega arith))
            (with_height-IsBalanced y bk bd b by bb (omega arith) (omega arith))
            (omega (arith, left, right)) (omega (arith, left, right)),
        omega (
          arith,
          left,
          right,
          height-with_height (with_height a ak ad x) m md (with_height y bk bd b),
        ),
      )

  -- A double rotation mends a root whose child is two levels too high on the inner side.
  pub rotate_left_right-IsBalanced :
      (ll : Avl V) (lk : ℕ) (ld : V) (lh : ℕ) (lr : Avl V) (k : ℕ) (d : V) (r : Avl V)
      → IsBalanced (node ll lk ld lh lr)
      → IsBalanced r
      → lh ≡ suc (suc (get_height r))
      → get_height lr ≡ suc (get_height ll)
      → Returns
          (rotate_left_right (with_height (node ll lk ld lh lr) k d r))
          λ t'. IsBalanced t' × (get_height t' ≡ suc (suc (get_height r)))
  unfolding rotate_left_right rotate_left with_height get_height
  rotate_left_right-IsBalanced ll lk ld lh nil k d r bl br e a = absurd (omega arith)
  rotate_left_right-IsBalanced ll lk ld lh (node x m md mh y) k d r bl br e a =
      inner-IsBalanced ll lk ld x m md y k d r bl.3 bl.4.3 bl.4.4 br (omega arith) (omega arith)
        (omega arith)

  pub rotate_right_left-IsBalanced :
      (l : Avl V) (k : ℕ) (d : V) (rl : Avl V) (rk : ℕ) (rd : V) (rh : ℕ) (rr : Avl V)
      → IsBalanced l
      → IsBalanced (node rl rk rd rh rr)
      → rh ≡ suc (suc (get_height l))
      → get_height rl ≡ suc (get_height rr)
      → Returns
          (rotate_right_left (with_height l k d (node rl rk rd rh rr)))
          λ t'. IsBalanced t' × (get_height t' ≡ suc (suc (get_height rr)))
  unfolding rotate_right_left rotate_right with_height get_height
  rotate_right_left-IsBalanced l k d nil rk rd rh rr bl br e a = absurd (omega arith)
  rotate_right_left-IsBalanced l k d (node x m md mh y) rk rd rh rr bl br e a =
      inner-IsBalanced l k d x m md y rk rd rr bl br.3.3 br.3.4 br.4 (omega arith) (omega arith)
        (omega arith)
