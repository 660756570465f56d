-- ===== src/Avl/Depth.antt =====
-- The trees that insertions and deletions leave are shallow: their depth is logarithmic.
use Prim.Native.Nat.{max}
use go_is_is.Common.{
  ℕ, zero, suc, ◌+◌, ◌/◌, ◌^◌, ◌≤◌, ◌≡◌, refl, ap, arith, Bool, List, [], ◌∷◌, length,
  length-append, Go, ok, ◌>>=◌, Returns, Returns-imp, Returns-bind,
}
use native.Mathlib.Nat.{pow-suc}
use go_is_is.Assoc
use go_is_is.Assoc.{key_list}
use go_is_is.Assoc.Without.{remove_key}
use go_is_is.Avl.{Avl, nil, node, get_height, size, insert, delete}
use go_is_is.Avl.Entries.{entries}
use go_is_is.Avl.Balance.{IsBalanced}
use go_is_is.Avl.Contract.{IsAvl, nil-IsAvl, insert-IsAvl, delete-IsAvl}

-- 2 to the power n, by recursion.
unfoldable pub double : ℕ → ℕ
double zero = 1
double (suc n) = double n + double n

double-eq-pow : (n : ℕ) → double n ≡ 2 ^ n
unfolding double
double-eq-pow zero = refl
double-eq-pow (suc n) = omega (arith, double-eq-pow n, pow-suc 2 n)

double_mono : (m n : ℕ) → m ≤ n → double m ≤ double n
unfolding double
double_mono zero zero h = omega arith
double_mono zero (suc n) h = omega (arith, double_mono zero n (omega arith))
double_mono (suc m) zero h = absurd (omega arith)
double_mono (suc m) (suc n) h = omega (arith, double_mono m n (omega arith))

double_step : (a b n : ℕ) → n ≤ suc a → n ≤ suc b → double n ≤ double a + double b
unfolding double
double_step a b zero p q = omega (arith, double_mono zero a (omega arith))
double_step a b (suc n) p q =
    omega (arith, double_mono n a (omega arith), double_mono n b (omega arith))

module _ {V : Type 0} where
  double-le-size : (t : Avl V) → IsBalanced t → double (get_height t / 2) ≤ suc (size t)
  unfolding get_height size double
  double-le-size nil b = omega arith
  double-le-size (node l k d h r) b = omega (
    arith,
    double_step (get_height l / 2) (get_height r / 2) (h / 2) (omega arith) (omega arith),
    double-le-size l b.3,
    double-le-size r b.4,
  )

  -- The longest path from the root.
  unfoldable pub depth : Avl V → ℕ
  depth nil = 0
  depth (node l k d h r) = suc (max (depth l) (depth r))

  depth-eq-height : (t : Avl V) → IsBalanced t → depth t ≡ get_height t
  unfolding depth get_height
  depth-eq-height nil b = refl
  depth-eq-height (node l k d h r) b =
      omega (arith, b.0, depth-eq-height l b.3, depth-eq-height r b.4)

  length-entries : (t : Avl V) → length (entries t) ≡ size t
  unfolding entries size
  length-entries nil = refl
  length-entries (node l k d h r) =
      omega
        (arith, length-append (entries l) ((k, d) ∷ entries r), length-entries l, length-entries r)

  length-insert_le :
      (m : List (ℕ × V)) (q : ℕ) (w : V) (o : Bool) → length (Assoc.insert m q w o) ≤ length m + 1
  unfolding Assoc.insert
  length-insert_le [] q w o = omega arith
  length-insert_le ((k, v) ∷ m) q w o = ground (arith, length-insert_le m q w o)

  length-key_list : (m : List (ℕ × V)) → length (key_list m) ≡ length m
  length-key_list [] = refl
  length-key_list (e ∷ m) = ap suc (length-key_list m)

length-remove_key_le : (ks : List ℕ) (q : ℕ) → length (remove_key ks q) ≤ length ks
unfolding remove_key
length-remove_key_le [] q = omega arith
length-remove_key_le (k ∷ ks) q = ground (arith, length-remove_key_le ks q)

-- The calls that change a tree.
pub data Op (V : Type 0) : Type 0 where
  put : ℕ → V → Bool → Op V
  remove : ℕ → Op V

module _ {V : Type 0} where
  -- Any sequence of calls of `AvlInsert` and `AvlDelete`.
  unfoldable pub apply_all : List (Op V) → Avl V → Go (Avl V)
  unfolding insert delete
  apply_all [] t = ok t
  apply_all (put k v o ∷ ops) t = insert t k v o >>= λ t'. apply_all ops t'
  apply_all (remove k ∷ ops) t = delete t k >>= λ t'. apply_all ops t'

  unfoldable pub puts : List (Op V) → ℕ
  puts [] = 0
  puts (put k v o ∷ ops) = suc (puts ops)
  puts (remove k ∷ ops) = puts ops

  -- A search tree of a bounded size.
  abbrev Grown : Avl V → ℕ → Avl V → Type 0
  Grown t n t' = IsAvl t' × (size t' ≤ size t + n)

  insert-size :
      (t : Avl V) (k : ℕ) (v : V) (o : Bool) → IsAvl t → Returns (insert t k v o) (Grown t 1)
  insert-size t k v o a =
      Returns-imp (insert t k v o) _ _
        (λ t' (b, e). (
          b,
          omega (
            arith,
            length-entries t,
            length-entries t',
            ap length e,
            length-insert_le (entries t) k v o,
          ),
        ))
        (insert-IsAvl t k v o a)

  delete-size : (t : Avl V) (k : ℕ) → IsAvl t → Returns (delete t k) (Grown t 0)
  delete-size t k a =
      Returns-imp (delete t k) _ _
        (λ t' (b, e). (
          b,
          omega (
            arith,
            length-entries t,
            length-entries t',
            length-key_list (entries t),
            length-key_list (entries t'),
            ap length e,
            length-remove_key_le (key_list (entries t)) k,
          ),
        ))
        (delete-IsAvl t k a)

  apply_all-size :
      (ops : List (Op V)) (t : Avl V) → IsAvl t → Returns (apply_all ops t) (Grown t (puts ops))
  unfolding apply_all puts
  apply_all-size [] t a = (a, omega arith)
  apply_all-size (put k v o ∷ ops) t a =
      Returns-bind (insert t k v o) _ (Grown t 1) _ (insert-size t k v o a) λ t' (b, h).
        Returns-imp (apply_all ops t') _ _ (λ t'' (c, g). (c, omega arith))
          (apply_all-size ops t' b)
  apply_all-size (remove k ∷ ops) t a =
      Returns-bind (delete t k) _ (Grown t 0) _ (delete-size t k a) λ t' (b, h).
        Returns-imp (apply_all ops t') _ _ (λ t'' (c, g). (c, omega arith))
          (apply_all-size ops t' b)

  -- Any sequence of insertions and deletions, started on the empty tree, runs without a panic, and
  -- the longest path of the tree that it leaves is at most twice the binary logarithm of one more
  -- than the number of insertions, and one more.
  pub apply_all-depth :
      (ops : List (Op V))
      → Returns (apply_all ops nil) λ t. IsAvl t × (2 ^ (depth t / 2) ≤ puts ops + 1)
  unfolding size
  apply_all-depth ops =
      Returns-imp (apply_all ops nil) _ _
        (λ t (a, h). (
          a,
          rw (depth-eq-height t a.balanced)
              (omega (arith, double-le-size t a.balanced, double-eq-pow (get_height t / 2), h)),
        ))
        (apply_all-size ops nil nil-IsAvl)
