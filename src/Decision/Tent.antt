-- ===== src/Decision/Tent.antt =====
-- What `addAdjToTent` does to the tentative list.
use go_is_is.Common.{
  ℕ, suc, ◌+◌, ◌≤◌, ◌≡◌, refl, sym, ap, subst, ◌⊎◌, inl, inr, List, [], ◌∷◌, ◌++◌, Bool, true,
  false, Option, arith, ltb, if◌then◌else◌, length, All, Any, Bool-cases,
}
use go_is_is.Bytes.{bytes_equal}
use go_is_is.Bytes.Equal.{bytes_equal→eq, bytes_equal_refl}
use go_is_is.Node.{Adjacency}
use go_is_is.Decision.{Triple, check_in_paths, add_distance, update_tent, add_adj_to_tent}

-- Some triple is that of the system.
unfoldable pub is_known : List ℕ → List Triple → Bool
unfolding bytes_equal
is_known v [] = false
is_known v (t ∷ ts) = if bytes_equal v t.system_id then true else is_known v ts

check_in_paths-eq : (t : Triple) (ts : List Triple) → check_in_paths t ts ≡ is_known t.system_id ts
unfolding check_in_paths is_known
check_in_paths-eq t [] = refl
check_in_paths-eq t (p ∷ ts) = rw (check_in_paths-eq t ts) refl

pub is_known-append :
    (v : List ℕ) (xs ys : List Triple)
    → is_known v (xs ++ ys) ≡ (if is_known v xs then true else is_known v ys)
unfolding is_known
is_known-append v [] ys = refl
is_known-append v (x ∷ xs) ys = elim (Bool-cases (bytes_equal v x.system_id)) [
  | inl e ↦ rw e refl
  | inr e ↦ rw e (is_known-append v xs ys)
]

pub is_known-update_tent :
    (v : List ℕ) (c : ℕ) (nb : Triple) (tent : List Triple)
    → is_known v (update_tent c nb tent) ≡ is_known v tent
unfolding is_known update_tent
is_known-update_tent v c nb [] = refl
is_known-update_tent v c nb (t ∷ tent) =
    rw (is_known-update_tent v c nb tent)
      (elim (Bool-cases (bytes_equal nb.system_id t.system_id)) [
        | inl e ↦ rw e refl
        | inr e ↦ rw e refl
      ])

pub length-update_tent :
    (c : ℕ) (nb : Triple) (tent : List Triple) → length (update_tent c nb tent) ≡ length tent
unfolding update_tent
length-update_tent c nb [] = refl
length-update_tent c nb (t ∷ tent) = ap suc (length-update_tent c nb tent)

-- The three branches.
pub add_adj_to_tent-cases :
    (c : ℕ) (a : Option Adjacency) (nb : Triple) (tent paths : List Triple)
    → ((is_known nb.system_id paths ≡ true) × (add_adj_to_tent c a nb tent paths ≡ (tent, 0)))
      ⊎ ((is_known nb.system_id paths ≡ false)
          × (is_known nb.system_id tent ≡ true)
          × (add_adj_to_tent c a nb tent paths ≡ (update_tent c nb tent, 0)))
      ⊎ ((is_known nb.system_id paths ≡ false)
          × (is_known nb.system_id tent ≡ false)
          × (add_adj_to_tent c a nb tent paths
              ≡ (tent ++ record nb { distance = add_distance nb.distance c; adj = a } ∷ [], 1)))
unfolding add_adj_to_tent
add_adj_to_tent-cases c a nb tent paths =
    rw (check_in_paths-eq nb paths, check_in_paths-eq nb tent)
      (elim (Bool-cases (is_known nb.system_id paths)) [
        | inl p ↦ inl (p, rw p refl)
        | inr p ↦ elim (Bool-cases (is_known nb.system_id tent)) [
          | inl q ↦ inr (inl (p, q, rw (p, q) refl))
          | inr q ↦ inr (inr (p, q, rw (p, q) refl))
        ]
      ])

-- A triple of the system at this distance or nearer.
abbrev pub Covers : List ℕ → ℕ → Triple → Type 0
Covers v d t = (t.system_id ≡ v) × (t.distance ≤ d)

abbrev pub Covered : List ℕ → ℕ → List Triple → List Triple → Type 0
Covered v d paths tent = Any (Covers v d) paths ⊎ Any (Covers v d) tent

pub All-update_tent :
    (P : List ℕ → ℕ → Type 0) (c : ℕ) (nb : Triple) (tent : List Triple)
    → P nb.system_id (add_distance nb.distance c)
    → All (λ t. P t.system_id t.distance) tent
    → All (λ t. P t.system_id t.distance) (update_tent c nb tent)
unfolding update_tent
All-update_tent P c nb [] new old = tt
All-update_tent P c nb (t ∷ tent) new old =
    let later = All-update_tent P c nb tent new old.1 in
    elim (Bool-cases (bytes_equal nb.system_id t.system_id)) [
      | inr e ↦ rw e (old.0, later)
      | inl e ↦ elim (Bool-cases (ltb (add_distance nb.distance c) t.distance)) [
        | inr f ↦ rw (e, f) (old.0, later)
        | inl f ↦
            rw (e, f)
              (
                subst (λ (v : List ℕ). P v (add_distance nb.distance c))
                    (bytes_equal→eq nb.system_id t.system_id e) new,
                later,
              )
      ]
    ]

pub Covers-update_tent :
    (v : List ℕ) (d c : ℕ) (nb : Triple) (tent : List Triple)
    → Any (Covers v d) tent
    → Any (Covers v d) (update_tent c nb tent)
unfolding update_tent
Covers-update_tent v d c nb [] a = absurd a
Covers-update_tent v d c nb (t ∷ tent) (inr a) = inr (Covers-update_tent v d c nb tent a)
Covers-update_tent v d c nb (t ∷ tent) (inl (e, h)) =
    elim (Bool-cases (bytes_equal nb.system_id t.system_id)) [
      | inr f ↦ rw f (inl (e, h))
      | inl f ↦ rw f (inl (e, ground arith))
    ]

pub Covers-update_tent_new :
    (c : ℕ) (nb : Triple) (tent : List Triple)
    → is_known nb.system_id tent ≡ true
    → Any (Covers nb.system_id (add_distance nb.distance c)) (update_tent c nb tent)
unfolding update_tent is_known
Covers-update_tent_new c nb [] k = cc
Covers-update_tent_new c nb (t ∷ tent) k =
    elim (Bool-cases (bytes_equal nb.system_id t.system_id)) [
      | inl f ↦ rw f (inl (sym (bytes_equal→eq nb.system_id t.system_id f), ground arith))
      | inr f ↦ inr (Covers-update_tent_new c nb tent (rw f at k))
    ]

pub Covers-is_known :
    (v : List ℕ) (c : ℕ) (paths : List Triple)
    → is_known v paths ≡ true
    → All (λ p. p.distance ≤ c) paths
    → Any (Covers v c) paths
unfolding is_known
Covers-is_known v c [] k h = cc
Covers-is_known v c (p ∷ paths) k h = elim (Bool-cases (bytes_equal v p.system_id)) [
  | inl f ↦ inl (sym (bytes_equal→eq v p.system_id f), h.0)
  | inr f ↦ inr (Covers-is_known v c paths (rw f at k) h.1)
]

-- How many of the systems are in neither list.
abbrev is_seen : List ℕ → List Triple → List Triple → Bool
is_seen v paths tent = if is_known v paths then true else is_known v tent

unfoldable pub fresh : List (List ℕ) → List Triple → List Triple → ℕ
unfolding is_known
fresh [] paths tent = 0
fresh (v ∷ vs) paths tent = (if is_seen v paths tent then 0 else 1) + fresh vs paths tent

pub fresh_ext :
    (vs : List (List ℕ)) (paths tent paths' tent' : List Triple)
    → ((v : List ℕ) → is_seen v paths' tent' ≡ is_seen v paths tent)
    → fresh vs paths' tent' ≡ fresh vs paths tent
unfolding fresh
fresh_ext [] paths tent paths' tent' e = refl
fresh_ext (v ∷ vs) paths tent paths' tent' e = rw (e v, fresh_ext vs paths tent paths' tent' e) refl

fresh-append_le :
    (vs : List (List ℕ)) (paths tent : List Triple) (t : Triple)
    → fresh vs paths (tent ++ t ∷ []) ≤ fresh vs paths tent
unfolding fresh
fresh-append_le [] paths tent t = omega arith
fresh-append_le (v ∷ vs) paths tent t =
    rw (is_known-append v tent (t ∷ [])) (ground (arith, fresh-append_le vs paths tent t))

pub fresh-append :
    (vs : List (List ℕ)) (paths tent : List Triple) (t : Triple)
    → Any (λ v. v ≡ t.system_id) vs
    → is_known t.system_id paths ≡ false
    → is_known t.system_id tent ≡ false
    → fresh vs paths (tent ++ t ∷ []) + 1 ≤ fresh vs paths tent
unfolding fresh is_known
fresh-append [] paths tent t a p q = absurd a
fresh-append (v ∷ vs) paths tent t (inl e) p q =
    rw (is_known-append v tent (t ∷ []), e, p, q, bytes_equal_refl t.system_id)
      (omega (arith, fresh-append_le vs paths tent t))
fresh-append (v ∷ vs) paths tent t (inr a) p q =
    rw (is_known-append v tent (t ∷ [])) (ground (arith, fresh-append vs paths tent t a p q))
