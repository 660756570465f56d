-- ===== src/Assoc/Without.antt =====
-- Ordered association lists after a key is taken out.
use go_is_is.Common.{
  ℕ, ◌≤◌, ◌<◌, ◌≡◌, refl, ◌∙◌, none, some, List, [], ◌∷◌, ◌++◌, arith, ==_refl, All-append_left,
  All-append_right, All-append, ◌≢◌, if◌then◌else◌, ◌==◌,
}
use go_is_is.Assoc.{
  lookup, remove, key_list, KeysAbove, KeysBelow, IsSorted, KeysAbove-mono, IsSorted-split,
  lookup-append_above, lookup-KeysAbove,
}

-- A key is taken out of a list of keys.
unfoldable pub remove_key : List ℕ → ℕ → List ℕ
remove_key [] q = []
remove_key (k ∷ ks) q = if k == q then ks else k ∷ remove_key ks q

module _ {V : Type 0} where
  remove-KeysAbove_keep : (m : List (ℕ × V)) (q b : ℕ) → KeysAbove b m → KeysAbove b (remove m q)
  unfolding remove
  remove-KeysAbove_keep [] q b a = tt
  remove-KeysAbove_keep ((k, v) ∷ m) q b a = ground (arith, remove-KeysAbove_keep m q b a.1)

  pub remove-IsSorted : (m : List (ℕ × V)) (q : ℕ) → IsSorted m → IsSorted (remove m q)
  unfolding remove
  remove-IsSorted [] q s = tt
  remove-IsSorted ((k, v) ∷ m) q s =
      ground (arith, remove-IsSorted m q s.1, remove-KeysAbove_keep m q k s.0)

  pub lookup-remove :
      (m : List (ℕ × V)) (q p : ℕ)
      → IsSorted m
      → lookup (remove m q) p ≡ (if q == p then none else lookup m p)
  unfolding lookup remove
  lookup-remove [] q p s = ground arith
  lookup-remove ((k, v) ∷ m) q p s =
      ground (arith, lookup-remove m q p s.1, lookup-KeysAbove m q k s.0)

  pub key_list-remove :
      (m : List (ℕ × V)) (q : ℕ) → key_list (remove m q) ≡ remove_key (key_list m) q
  unfolding remove remove_key
  key_list-remove [] q = refl
  key_list-remove ((k, v) ∷ m) q = ground (arith, key_list-remove m q)

  pub IsSorted-drop :
      (xs ys : List (ℕ × V)) (k : ℕ) (d : V) → IsSorted (xs ++ (k, d) ∷ ys) → IsSorted (xs ++ ys)
  IsSorted-drop [] ys k d s = s.1
  IsSorted-drop ((j, v) ∷ xs) ys k d s = (
    All-append (λ e. j < e.0) xs ys (All-append_left (λ e. j < e.0) xs ((k, d) ∷ ys) s.0)
        (All-append_right (λ e. j < e.0) xs ((k, d) ∷ ys) s.0).1,
    IsSorted-drop xs ys k d s.1,
  )

  pub IsSorted-revalue :
      (xs ys : List (ℕ × V)) (k : ℕ) (d e : V)
      → IsSorted (xs ++ (k, d) ∷ ys)
      → IsSorted (xs ++ (k, e) ∷ ys)
  IsSorted-revalue [] ys k d e s = s
  IsSorted-revalue ((j, v) ∷ xs) ys k d e s = (
    All-append (λ e. j < e.0) xs ((k, e) ∷ ys) (All-append_left (λ e. j < e.0) xs ((k, d) ∷ ys) s.0)
        (All-append_right (λ e. j < e.0) xs ((k, d) ∷ ys) s.0),
    IsSorted-revalue xs ys k d e s.1,
  )

  pub lookup_here :
      (xs ys : List (ℕ × V)) (k : ℕ) (d : V)
      → IsSorted (xs ++ (k, d) ∷ ys)
      → lookup (xs ++ (k, d) ∷ ys) k ≡ some d
  unfolding lookup
  lookup_here [] ys k d s = ground arith
  lookup_here ((j, v) ∷ xs) ys k d s =
      ground
        (arith, lookup_here xs ys k d s.1, (All-append_right (λ e. j < e.0) xs ((k, d) ∷ ys) s.0).0)

  pub lookup_skip :
      (xs ys : List (ℕ × V)) (k : ℕ) (d : V) (p : ℕ)
      → p ≢ k
      → lookup (xs ++ (k, d) ∷ ys) p ≡ lookup (xs ++ ys) p
  unfolding lookup
  lookup_skip [] ys k d p n = ground arith
  lookup_skip ((j, v) ∷ xs) ys k d p n = ground (arith, lookup_skip xs ys k d p n)

  -- A key that lies strictly between an entry and what comes before it is not there.
  pub lookup_gap :
      (xs ys : List (ℕ × V)) (k : ℕ) (d : V) (p b : ℕ)
      → IsSorted (xs ++ (k, d) ∷ ys)
      → KeysBelow b xs
      → b ≤ p
      → p < k
      → lookup (xs ++ (k, d) ∷ ys) p ≡ none
  lookup_gap xs ys k d p b s a lo hi =
      lookup-append_above xs ((k, d) ∷ ys) p b a lo
      ∙ lookup-KeysAbove ((k, d) ∷ ys) p p
          (hi, KeysAbove-mono ys p k hi (IsSorted-split xs ys k d s).1) (omega arith)

  -- Removing a key of a list in which it stands once, before a second entry whose value changes.
  pub key_list-shift :
      (xs ys : List (ℕ × V)) (q s : ℕ) (d e : V)
      → IsSorted (xs ++ (q, d) ∷ (s, e) ∷ ys)
      → key_list (xs ++ (s, d) ∷ ys) ≡ remove_key (key_list (xs ++ (q, d) ∷ (s, e) ∷ ys)) q
  unfolding remove_key
  key_list-shift [] ys q s d e h = rw (==_refl q)
  key_list-shift ((j, v) ∷ xs) ys q s d e h = ground (
    arith,
    key_list-shift xs ys q s d e h.1,
    (All-append_right (λ e. j < e.0) xs ((q, d) ∷ (s, e) ∷ ys) h.0).0,
  )
