-- ===== src/Assoc.antt =====
-- Ordered association lists: the abstract view of a tree of avl.go.
pub mod Without
use go_is_is.Common.{
  ℕ, ◌≤◌, ◌<◌, ◌≡◌, refl, ap, Bool, true, false, Option, none, some, List, [], ◌∷◌, ◌++◌, map,
  arith, ltb, ◌==◌, if◌then◌else◌, ==_refl, All, All-append, All-append_left, All-append_right,
  All-imp, compare-cases, inl, inr,
}

module _ {ℓ} {V : Type ℓ} where
  unfoldable pub lookup : List (ℕ × V) → ℕ → Option V
  lookup [] q = none
  lookup ((k, v) ∷ m) q = if k == q then some v else lookup m q

  -- The entry of a key that is there is replaced if `overwrite` says so, and else kept.
  unfoldable pub insert : List (ℕ × V) → ℕ → V → Bool → List (ℕ × V)
  insert [] q w overwrite = (q, w) ∷ []
  insert ((k, v) ∷ m) q w overwrite =
      if q == k
      then (k, (if overwrite then w else v)) ∷ m
      else if ltb q k
      then (q, w) ∷ (k, v) ∷ m
      else (k, v) ∷ insert m q w overwrite

  unfoldable pub replace : List (ℕ × V) → ℕ → V → List (ℕ × V)
  replace [] q w = []
  replace ((k, v) ∷ m) q w = if k == q then (k, w) ∷ m else (k, v) ∷ replace m q w

  abbrev pub key_list : List (ℕ × V) → List ℕ
  key_list = map λ e. e.0

  abbrev pub KeysBelow : ℕ → List (ℕ × V) → Type 0
  KeysBelow b = All λ e. e.0 < b

  abbrev pub KeysAbove : ℕ → List (ℕ × V) → Type 0
  KeysAbove b = All λ e. b < e.0

  abbrev pub IsSorted : List (ℕ × V) → Type 0
  IsSorted [] = Unit
  IsSorted ((k, v) ∷ m) = KeysAbove k m × IsSorted m

  pub lookup-KeysAbove : (m : List (ℕ × V)) (q b : ℕ) → KeysAbove b m → q ≤ b → lookup m q ≡ none
  unfolding lookup
  lookup-KeysAbove [] q b a h = refl
  lookup-KeysAbove ((k, v) ∷ m) q b a h = ground (arith, lookup-KeysAbove m q b a.1)

  -- Looking up in two lists side by side, by where the key lies.
  pub lookup-append_above :
      (xs ys : List (ℕ × V)) (q b : ℕ) → KeysBelow b xs → b ≤ q → lookup (xs ++ ys) q ≡ lookup ys q
  unfolding lookup
  lookup-append_above [] ys q b a h = refl
  lookup-append_above ((k, v) ∷ xs) ys q b a h = ground (arith, lookup-append_above xs ys q b a.1)

  pub lookup-append_below :
      (xs ys : List (ℕ × V)) (q : ℕ) → lookup ys q ≡ none → lookup (xs ++ ys) q ≡ lookup xs q
  unfolding lookup
  lookup-append_below [] ys q h = h
  lookup-append_below ((k, v) ∷ xs) ys q h = ground (arith, lookup-append_below xs ys q)

  pub insert-append_below :
      (xs ys : List (ℕ × V)) (k : ℕ) (d : V) (q : ℕ) (w : V) (o : Bool)
      → q < k
      → insert (xs ++ (k, d) ∷ ys) q w o ≡ insert xs q w o ++ (k, d) ∷ ys
  unfolding insert
  insert-append_below [] ys k d q w o h = ground arith
  insert-append_below ((j, v) ∷ xs) ys k d q w o h =
      ground (arith, insert-append_below xs ys k d q w o)

  pub insert-append_above :
      (xs ys : List (ℕ × V)) (q b : ℕ) (w : V) (o : Bool)
      → KeysBelow b xs
      → b ≤ q
      → insert (xs ++ ys) q w o ≡ xs ++ insert ys q w o
  unfolding insert
  insert-append_above [] ys q b w o a h = refl
  insert-append_above ((k, v) ∷ xs) ys q b w o a h =
      ground (arith, insert-append_above xs ys q b w o a.1)

  pub insert-nil : (q : ℕ) (w : V) (o : Bool) → insert [] q w o ≡ (q, w) ∷ []
  unfolding insert
  insert-nil q w o = refl

  -- The clause of `insert`, by how the key compares.
  pub insert_here :
      (k : ℕ) (v : V) (m : List (ℕ × V)) (q : ℕ) (w : V) (o : Bool)
      → q == k ≡ true
      → insert ((k, v) ∷ m) q w o ≡ (k, (if o then w else v)) ∷ m
  unfolding insert
  insert_here k v m q w o t = rw t

  pub insert_past :
      (k : ℕ) (v : V) (m : List (ℕ × V)) (q : ℕ) (w : V) (o : Bool)
      → q == k ≡ false
      → ltb q k ≡ false
      → insert ((k, v) ∷ m) q w o ≡ (k, v) ∷ insert m q w o
  unfolding insert
  insert_past k v m q w o t u = rw (t, u)

  pub replace-append_above :
      (xs ys : List (ℕ × V)) (q b : ℕ) (w : V)
      → KeysBelow b xs
      → b ≤ q
      → replace (xs ++ ys) q w ≡ xs ++ replace ys q w
  unfolding replace
  replace-append_above [] ys q b w a h = refl
  replace-append_above ((k, v) ∷ xs) ys q b w a h =
      ground (arith, replace-append_above xs ys q b w a.1)

  pub replace-KeysAbove :
      (m : List (ℕ × V)) (q b : ℕ) (w : V) → KeysAbove b m → q ≤ b → replace m q w ≡ m
  unfolding replace
  replace-KeysAbove [] q b w a h = refl
  replace-KeysAbove ((k, v) ∷ m) q b w a h = ground (arith, replace-KeysAbove m q b w a.1)

  pub replace-append_below :
      (xs ys : List (ℕ × V)) (q : ℕ) (w : V)
      → replace ys q w ≡ ys
      → replace (xs ++ ys) q w ≡ replace xs q w ++ ys
  unfolding replace
  replace-append_below [] ys q w h = h
  replace-append_below ((k, v) ∷ xs) ys q w h = ground (arith, replace-append_below xs ys q w)

  -- What a sorted list with an entry in the middle gives.
  pub IsSorted-split :
      (xs ys : List (ℕ × V)) (k : ℕ) (d : V)
      → IsSorted (xs ++ (k, d) ∷ ys)
      → KeysBelow k xs × KeysAbove k ys × IsSorted xs × IsSorted ys
  IsSorted-split [] ys k d s = (tt, s.0, tt, s.1)
  IsSorted-split ((j, v) ∷ xs) ys k d s =
      let rest = IsSorted-split xs ys k d s.1 in
      (
        ((All-append_right (λ e. j < e.0) xs ((k, d) ∷ ys) s.0).0, rest.0),
        rest.1,
        (All-append_left (λ e. j < e.0) xs ((k, d) ∷ ys) s.0, rest.2),
        rest.3,
      )

  insert-KeysAbove :
      (m : List (ℕ × V)) (q b : ℕ) (w : V) (o : Bool)
      → KeysAbove b m
      → b < q
      → KeysAbove b (insert m q w o)
  unfolding insert
  insert-KeysAbove [] q b w o a h = (h, tt)
  insert-KeysAbove ((k, v) ∷ m) q b w o a h = ground (arith, insert-KeysAbove m q b w o a.1)

  pub KeysAbove-mono : (m : List (ℕ × V)) (a b : ℕ) → a < b → KeysAbove b m → KeysAbove a m
  KeysAbove-mono [] a b h x = tt
  KeysAbove-mono ((k, v) ∷ m) a b h x = (omega arith, KeysAbove-mono m a b h x.1)

  pub insert-IsSorted :
      (m : List (ℕ × V)) (q : ℕ) (w : V) (o : Bool) → IsSorted m → IsSorted (insert m q w o)
  unfolding insert
  insert-IsSorted [] q w o s = (tt, tt)
  insert-IsSorted ((k, v) ∷ m) q w o s =
      ground
        (arith, insert-IsSorted m q w o s.1, insert-KeysAbove m q k w o s.0, KeysAbove-mono m q k)

module _ {V : Type 0} where
  -- What an inserted key reads as: the new value, or the old one where it is kept.
  abbrev pub merged : Option V → V → Bool → V
  merged none w o = w
  merged (some v) w o = if o then w else v

  pub lookup-insert :
      (m : List (ℕ × V)) (q p : ℕ) (w : V) (o : Bool)
      → IsSorted m
      → lookup (insert m q w o) p ≡ (if q == p then some (merged (lookup m q) w o) else lookup m p)
  unfolding lookup insert
  lookup-insert [] q p w o s = refl
  lookup-insert ((k, v) ∷ m) q p w o s =
      ground (arith, lookup-insert m q p w o s.1, lookup-KeysAbove m q k s.0)

module _ {ℓ} {V : Type ℓ} where
  unfoldable pub remove : List (ℕ × V) → ℕ → List (ℕ × V)
  remove [] q = []
  remove ((k, v) ∷ m) q = if k == q then m else (k, v) ∷ remove m q

  pub remove-append_above :
      (xs ys : List (ℕ × V)) (q b : ℕ)
      → KeysBelow b xs
      → b ≤ q
      → remove (xs ++ ys) q ≡ xs ++ remove ys q
  unfolding remove
  remove-append_above [] ys q b a h = refl
  remove-append_above ((k, v) ∷ xs) ys q b a h = ground (arith, remove-append_above xs ys q b a.1)

  pub remove_here : (k : ℕ) (v : V) (m : List (ℕ × V)) → remove ((k, v) ∷ m) k ≡ m
  unfolding remove
  remove_here k v m = rw (==_refl k)

  pub remove_past :
      (k : ℕ) (v : V) (m : List (ℕ × V)) (q : ℕ)
      → k < q
      → remove ((k, v) ∷ m) q ≡ (k, v) ∷ remove m q
  unfolding remove
  remove_past k v m q h = ground arith

  pub remove-KeysAbove : (m : List (ℕ × V)) (q b : ℕ) → KeysAbove b m → q ≤ b → remove m q ≡ m
  unfolding remove
  remove-KeysAbove [] q b a h = refl
  remove-KeysAbove ((k, v) ∷ m) q b a h = ground (arith, remove-KeysAbove m q b a.1)

  pub remove-append_below :
      (xs ys : List (ℕ × V)) (q : ℕ) → remove ys q ≡ ys → remove (xs ++ ys) q ≡ remove xs q ++ ys
  unfolding remove
  remove-append_below [] ys q h = h
  remove-append_below ((k, v) ∷ xs) ys q h = ground (arith, remove-append_below xs ys q)
