-- ===== src/Decision/Hop.antt =====
-- The adjacency that starts a walk, and what a neighbor does that is no nearer than what is known.
use go_is_is.Common.{
  ℕ, ◌+◌, ◌≤◌, ◌≡◌, refl, ap, ◌⊎◌, inl, inr, List, [], ◌∷◌, true, Option, none, some, arith, All,
  All-append, All-imp, Any, Bool-cases,
}
use go_is_is.Bytes.{bytes_equal}
use go_is_is.Node.{Intf, Adjacency, is_up}
use go_is_is.SystemId.{system_id_to_string}
use go_is_is.Decision.{
  Triple, add_distance, update_tent, add_adj_to_tent, add_adjacencies, load_tent,
}
use go_is_is.Decision.Graph.{Graph, Edge}
use go_is_is.Decision.Tent.{add_adj_to_tent-cases}

-- The walks from a system over the edges that the LSPs advertise, with their cost.
pub data From (g : Graph) (u : List ℕ) : List ℕ → ℕ → Type 0 where
  here : From g u u 0
  onward :
      (x : List ℕ) {v : List ℕ} (d w : ℕ) {c : ℕ}
      → From g u x d
      → Edge g x v w
      → c ≡ d + w
      → From g u v c

-- The adjacency of an interface that is up.
abbrev pub IsUsable : List Intf → Adjacency → Type 0
IsUsable is a = Any (λ i. (is_up i.adj.state ≡ true) × (i.adj ≡ a)) is

-- The adjacency starts a walk of this cost to the system.
pub record Leads (is : List Intf) (g : Graph) (a : Adjacency) (v : List ℕ) (d : ℕ) : Type 0 where
  pub usable : IsUsable is a
  pub cost : ℕ
  pub walk : From g (system_id_to_string a.neighbor_system_id) v cost
  pub total : d ≡ a.metric + cost

-- The triple's next hop starts a walk to its system, of the triple's distance.
abbrev pub HasHop : List Intf → Graph → List ℕ → ℕ → Option Adjacency → Type 0
HasHop is g v d none = ⊥
HasHop is g v d (some a) = Leads is g a v d

-- The node itself has no next hop.
abbrev pub IsVia : List Intf → Graph → Triple → Type 0
IsVia is g t = (t.adj ≡ none) ⊎ HasHop is g t.system_id t.distance t.adj

-- All metrics are the same.
pub record IsUniform (is : List Intf) (g : Graph) (metric : ℕ) : Type 0 where
  pub edges : (u v : List ℕ) (w : ℕ) → Edge g u v w → w ≡ metric
  pub adjacencies : (a : Adjacency) → IsUsable is a → a.metric ≡ metric

-- A neighbor that is not nearer than what is known changes nothing.
pub update_tent_far :
    (c : ℕ) (nb : Triple) (tent : List Triple)
    → All (λ t. t.distance ≤ add_distance nb.distance c) tent
    → update_tent c nb tent ≡ tent
unfolding update_tent
update_tent_far c nb [] a = refl
update_tent_far c nb (t ∷ tent) a =
    rw (update_tent_far c nb tent a.1) (elim (Bool-cases (bytes_equal nb.system_id t.system_id)) [
      | inr e ↦ rw e refl
      | inl e ↦ rw e (ap (λ (d : ℕ). record t { distance = d } ∷ tent) (ground arith))
    ])

abbrev pub added : ℕ → Option Adjacency → Triple → Triple
added c a nb = record nb { distance = add_distance nb.distance c; adj = a }

module _ (H : Triple → Type 0) (c : ℕ) (a : Option Adjacency) (m : ℕ)
    (far : (t : Triple) → H t → t.distance ≤ m) where
  add-far :
      (nb : Triple) (tent paths : List Triple)
      → add_distance nb.distance c ≡ m
      → H (added c a nb)
      → All H tent
      → All H (add_adj_to_tent c a nb tent paths).0
  add-far nb tent paths e new old = elim (add_adj_to_tent-cases c a nb tent paths) [
    | inl (p, q) ↦ rw q old
    | inr (inl (p, q, r)) ↦
        rw (r, update_tent_far c nb tent (All-imp H _ (λ t h. omega (arith, far t h, e)) tent old))
          old
    | inr (inr (p, q, r)) ↦ rw r (All-append H tent _ old (new, tt))
  ]

  pub add_adjacencies-far :
      (nbs tent paths : List Triple)
      → All (λ nb. (add_distance nb.distance c ≡ m) × H (added c a nb)) nbs
      → All H tent
      → All H (add_adjacencies c a nbs tent paths).0
  unfolding add_adjacencies
  add_adjacencies-far [] tent paths new old = old
  add_adjacencies-far (nb ∷ nbs) tent paths new old =
      add_adjacencies-far nbs (add_adj_to_tent c a nb tent paths).0 paths new.1
        (add-far nb tent paths new.0.0 new.0.1 old)

pub load_tent-IsUsable :
    (K : Triple → Type 0) (is : List Intf)
    → ((a : Adjacency)
        → IsUsable is a
        → K (record {
          system_id = system_id_to_string a.neighbor_system_id;
          distance = a.metric;
          adj = some a;
        }))
    → All K (load_tent is)
unfolding load_tent
load_tent-IsUsable K [] k = tt
load_tent-IsUsable K (i ∷ is) k =
    let later = load_tent-IsUsable K is (λ a u. k a (inr u)) in
    elim (Bool-cases (is_up i.adj.state)) [
      | inl u ↦ rw u (k i.adj (inl (u, refl)), later)
      | inr u ↦ rw u later
    ]
