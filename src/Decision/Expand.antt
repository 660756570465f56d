-- ===== src/Decision/Expand.antt =====
-- What the neighbors of a system that enters `paths` do to the tentative list.
use go_is_is.Common.{
  ℕ, ◌+◌, ◌^◌, ◌≤◌, ◌<◌, ◌≡◌, refl, inl, inr, List, [], ◌∷◌, ◌++◌, false, Option, arith, length,
  length-append, All, All-append, Any, Any-append_left, Any-append_right, Any-imp,
}
use go_is_is.Node.{Adjacency}
use go_is_is.Decision.{Triple, add_distance, add_adj_to_tent, add_adjacencies, update_tent}
use go_is_is.Decision.Tent.{
  Covers, Covered, fresh, fresh_ext, fresh-append, add_adj_to_tent-cases, length-update_tent,
  is_known-update_tent, All-update_tent, Covers-update_tent, Covers-update_tent_new,
  Covers-is_known, is_known,
}

-- The system is one of those listed.
abbrev pub Among : List (List ℕ) → Triple → Type 0
Among vs t = Any (λ v. v ≡ t.system_id) vs

-- The list has grown by what is counted, at the expense of the systems in neither list, and no
-- system has got farther away.
pub record Extended (vs : List (List ℕ)) (paths tent tent' : List Triple) (added : ℕ) : Type 0 where
  pub size : length tent' ≡ length tent + added
  pub work : length tent' + fresh vs paths tent' ≤ length tent + fresh vs paths tent
  pub covers : (v : List ℕ) (d : ℕ) → Covered v d paths tent → Covered v d paths tent'

Extended-refl : (vs : List (List ℕ)) (paths tent : List Triple) → Extended vs paths tent tent 0
Extended-refl vs paths tent = record { size = omega arith; work = omega arith; covers = λ v d k. k }

Extended-update :
    (vs : List (List ℕ)) (c : ℕ) (nb : Triple) (paths tent : List Triple)
    → Extended vs paths tent (update_tent c nb tent) 0
Extended-update vs c nb paths tent =
    let same =
      fresh_ext vs paths tent paths (update_tent c nb tent)
        (λ v. rw (is_known-update_tent v c nb tent) refl) in
    record {
      size = omega (arith, length-update_tent c nb tent);
      work = omega (arith, length-update_tent c nb tent, same);
      covers = λ v d k. elim k [ inl a ↦ inl a | inr a ↦ inr (Covers-update_tent v d c nb tent a) ];
    }

Extended-append :
    (vs : List (List ℕ)) (t : Triple) (paths tent : List Triple)
    → Among vs t
    → is_known t.system_id paths ≡ false
    → is_known t.system_id tent ≡ false
    → Extended vs paths tent (tent ++ t ∷ []) 1
Extended-append vs t paths tent a p q = record {
  size = length-append tent (t ∷ []);
  work = omega (arith, length-append tent (t ∷ []), fresh-append vs paths tent t a p q);
  covers = λ v d k. elim k [
    | inl b ↦ inl b
    | inr b ↦ inr (Any-append_left (Covers v d) tent (t ∷ []) b)
  ];
}

add-Extended :
    (vs : List (List ℕ)) (c : ℕ) (a : Option Adjacency) (nb : Triple) (tent paths : List Triple)
    → Among vs nb
    → Extended vs paths tent
        (add_adj_to_tent c a nb tent paths).0
        (add_adj_to_tent c a nb tent paths).1
add-Extended vs c a nb tent paths m = elim (add_adj_to_tent-cases c a nb tent paths) [
  | inl (p, e) ↦ rw e (Extended-refl vs paths tent)
  | inr (inl (p, q, e)) ↦ rw e (Extended-update vs c nb paths tent)
  | inr (inr (p, q, e)) ↦ rw e (Extended-append vs _ paths tent m p q)
]

All-add :
    (P : List ℕ → ℕ → Type 0) (c : ℕ) (a : Option Adjacency) (nb : Triple)
    (tent paths : List Triple)
    → P nb.system_id (add_distance nb.distance c)
    → All (λ t. P t.system_id t.distance) tent
    → All (λ t. P t.system_id t.distance) (add_adj_to_tent c a nb tent paths).0
All-add P c a nb tent paths new old = elim (add_adj_to_tent-cases c a nb tent paths) [
  | inl (p, e) ↦ rw e old
  | inr (inl (p, q, e)) ↦ rw e (All-update_tent P c nb tent new old)
  | inr (inr (p, q, e)) ↦ rw e (All-append _ tent _ old (new, tt))
]

Covers-mono :
    (v : List ℕ) (d d' : ℕ) (ts : List Triple) → d ≤ d' → Any (Covers v d) ts → Any (Covers v d') ts
Covers-mono v d d' ts h = Any-imp (Covers v d) (Covers v d') (λ t (e, k). (e, omega arith)) ts

Covered-add :
    (c : ℕ) (a : Option Adjacency) (nb : Triple) (tent paths : List Triple)
    → All (λ p. p.distance ≤ c) paths
    → nb.distance + c < 2 ^ 32
    → Covered nb.system_id (c + nb.distance) paths (add_adj_to_tent c a nb tent paths).0
Covered-add c a nb tent paths near small = elim (add_adj_to_tent-cases c a nb tent paths) [
  | inl (p, e) ↦ inl (
      Covers-mono nb.system_id c (c + nb.distance) paths (omega arith)
        (Covers-is_known nb.system_id c paths p near))
  | inr (inl (p, q, e)) ↦ rw e (
      inr (
        Covers-mono nb.system_id _ (c + nb.distance) _ (omega arith)
          (Covers-update_tent_new c nb tent q)))
  | inr (inr (p, q, e)) ↦ rw e (
      inr
        (Any-append_right (Covers nb.system_id (c + nb.distance)) tent _ (inl (refl, omega arith))))
]

pub add_adjacencies-Extended :
    (vs : List (List ℕ)) (c : ℕ) (a : Option Adjacency) (nbs tent paths : List Triple)
    → All (Among vs) nbs
    → Extended vs paths tent
        (add_adjacencies c a nbs tent paths).0
        (add_adjacencies c a nbs tent paths).1
unfolding add_adjacencies
add_adjacencies-Extended vs c a [] tent paths m = Extended-refl vs paths tent
add_adjacencies-Extended vs c a (nb ∷ nbs) tent paths m =
    let head = add-Extended vs c a nb tent paths m.0 in
    let tail =
      add_adjacencies-Extended vs c a nbs (add_adj_to_tent c a nb tent paths).0 paths m.1 in
    record {
      size = omega (arith, head.size, tail.size);
      work = omega (arith, head.work, tail.work);
      covers = λ v d k. tail.covers v d (head.covers v d k);
    }

pub All-add_adjacencies :
    (P : List ℕ → ℕ → Type 0) (c : ℕ) (a : Option Adjacency) (nbs tent paths : List Triple)
    → All (λ nb. P nb.system_id (add_distance nb.distance c)) nbs
    → All (λ t. P t.system_id t.distance) tent
    → All (λ t. P t.system_id t.distance) (add_adjacencies c a nbs tent paths).0
unfolding add_adjacencies
All-add_adjacencies P c a [] tent paths new old = old
All-add_adjacencies P c a (nb ∷ nbs) tent paths new old =
    All-add_adjacencies P c a nbs (add_adj_to_tent c a nb tent paths).0 paths new.1
      (All-add P c a nb tent paths new.0 old)

pub Covered-add_adjacencies :
    (vs : List (List ℕ)) (c : ℕ) (a : Option Adjacency) (nbs tent paths : List Triple) (v : List ℕ)
    (w : ℕ)
    → All (Among vs) nbs
    → All (λ p. p.distance ≤ c) paths
    → All (λ nb. nb.distance + c < 2 ^ 32) nbs
    → Any (λ t. (t.system_id ≡ v) × (t.distance ≡ w)) nbs
    → Covered v (c + w) paths (add_adjacencies c a nbs tent paths).0
unfolding add_adjacencies
Covered-add_adjacencies vs c a [] tent paths v w m near small k = absurd k
Covered-add_adjacencies vs c a (nb ∷ nbs) tent paths v w m near small (inl (e, f)) =
    let tent' = (add_adj_to_tent c a nb tent paths).0 in
    let tail = add_adjacencies-Extended vs c a nbs tent' paths m.1 in
    tail.covers v (c + w) (rw (← e, ← f) (Covered-add c a nb tent paths near small.0))
Covered-add_adjacencies vs c a (nb ∷ nbs) tent paths v w m near small (inr k) =
    Covered-add_adjacencies vs c a nbs (add_adj_to_tent c a nb tent paths).0 paths v w m.1 near
      small.1 k
