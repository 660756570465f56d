-- ===== src/Decision/Graph.antt =====
-- The graph that the LSPs describe, and its walks from the node.
use go_is_is.Common.{
  ℕ, ◌+◌, ◌≡◌, refl, sym, inl, inr, List, [], ◌∷◌, ◌++◌, map, true, ok, if◌then◌else◌, All,
  All-append, Any, Any-append_left, Any-append_right, Bool-cases,
}
use go_is_is.Bytes.{bytes_equal}
use go_is_is.Bytes.Equal.{bytes_equal→eq, bytes_equal_refl}
use go_is_is.Avl.{AvlNode}
use go_is_is.Lsp.{Lsp}
use go_is_is.Node.{Intf, is_up}
use go_is_is.SystemId.{system_id_to_string}
use go_is_is.Reach.{Neighbor, lookup_neighbors}
use go_is_is.Decision.{Triple, system_of, triple_to, get_adjacencies, load_tent}

-- Every LSP's system, with the neighbors that it advertises.
abbrev pub Graph : Type 0
Graph = List (List ℕ × List Neighbor)

-- The graph is what is read of the LSPs, and none of them makes the reader panic.
abbrev pub Reads : List (AvlNode Lsp) → Graph → Type 0
Reads [] [] = Unit
Reads (node ∷ unknown) ((u, ns) ∷ g) =
    (system_of node ≡ u)
    × (lookup_neighbors node.payload.core_lsp.first_tlv ≡ ok ns)
    × Reads unknown g
Reads [] (_ ∷ _) = ⊥
Reads (_ ∷ _) [] = ⊥

abbrev pub HasNeighbor : List Neighbor → List ℕ → ℕ → Type 0
HasNeighbor ns v w = Any (λ n. (n.system_id ≡ v) × (n.metric ≡ w)) ns

-- An LSP of `u` advertises the neighbor `v` with metric `w`.
abbrev pub Edge : Graph → List ℕ → List ℕ → ℕ → Type 0
Edge g u v w = Any (λ (x, ns). (x ≡ u) × HasNeighbor ns v w) g

-- An interface has its adjacency with `v` up, with metric `w`.
abbrev pub IsAdjacent : List Intf → List ℕ → ℕ → Type 0
IsAdjacent is v w =
    Any
      (λ i.
        (is_up i.adj.state ≡ true)
        × (system_id_to_string i.adj.neighbor_system_id ≡ v)
        × (i.adj.metric ≡ w))
      is

-- The walks from the node `local`, with their cost: empty, over one of its own adjacencies, or one
-- edge longer than another.
pub data Walk (is : List Intf) (g : Graph) (local : List ℕ) : List ℕ → ℕ → Type 0 where
  source : Walk is g local local 0
  first : {v : List ℕ} {w : ℕ} → IsAdjacent is v w → Walk is g local v w
  next :
      (u : List ℕ) {v : List ℕ} (d w : ℕ) {c : ℕ}
      → Walk is g local u d
      → Edge g u v w
      → c ≡ d + w
      → Walk is g local v c

-- What `getAdjacencies` finds.
unfoldable pub links : List Intf → List ℕ → Graph → List Triple
unfolding bytes_equal
links is u [] = []
links is u ((x, ns) ∷ g) =
    if bytes_equal u x then map (triple_to is) ns ++ links is u g else links is u g

pub get_adjacencies-links :
    (is : List Intf) (t : Triple) (unknown : List (AvlNode Lsp)) (g : Graph)
    → Reads unknown g
    → get_adjacencies is t unknown ≡ ok (links is t.system_id g)
unfolding get_adjacencies links
get_adjacencies-links is t [] [] r = refl
get_adjacencies-links is t [] (_ ∷ _) r = absurd r
get_adjacencies-links is t (_ ∷ _) [] r = absurd r
get_adjacencies-links is t (node ∷ unknown) ((u, ns) ∷ g) (e, f, r) =
    rw (e, f, get_adjacencies-links is t unknown g r)
      (elim (Bool-cases (bytes_equal t.system_id u)) [ inl h ↦ rw h refl | inr h ↦ rw h refl ])

triples-Edge :
    (is : List Intf) (v : List ℕ) (w : ℕ) (ns : List Neighbor)
    → HasNeighbor ns v w
    → Any (λ t. (t.system_id ≡ v) × (t.distance ≡ w)) (map (triple_to is) ns)
triples-Edge is v w [] h = absurd h
triples-Edge is v w (n ∷ ns) (inl p) = inl p
triples-Edge is v w (n ∷ ns) (inr h) = inr (triples-Edge is v w ns h)

-- Every edge from `u` is found.
pub links-Edge :
    (is : List Intf) (u v : List ℕ) (w : ℕ) (g : Graph)
    → Edge g u v w
    → Any (λ t. (t.system_id ≡ v) × (t.distance ≡ w)) (links is u g)
unfolding links
links-Edge is u v w [] h = absurd h
links-Edge is u v w ((x, ns) ∷ g) (inl (e, h)) =
    rw (e, bytes_equal_refl u)
      (Any-append_left _ (map (triple_to is) ns) _ (triples-Edge is v w ns h))
links-Edge is u v w ((x, ns) ∷ g) (inr h) = elim (Bool-cases (bytes_equal u x)) [
  | inl e ↦ rw e (Any-append_right _ (map (triple_to is) ns) _ (links-Edge is u v w g h))
  | inr e ↦ rw e (links-Edge is u v w g h)
]

HasNeighbor-triples :
    (P : List ℕ → ℕ → Type 0) (is : List Intf) (ns : List Neighbor)
    → ((v : List ℕ) (w : ℕ) → HasNeighbor ns v w → P v w)
    → All (λ t. P t.system_id t.distance) (map (triple_to is) ns)
HasNeighbor-triples P is [] k = tt
HasNeighbor-triples P is (n ∷ ns) k = (
  k n.system_id n.metric (inl (refl, refl)),
  HasNeighbor-triples P is ns (λ v w h. k v w (inr h)),
)

-- What is found is an edge from `u`.
pub All-links :
    (P : List ℕ → ℕ → Type 0) (is : List Intf) (u : List ℕ) (g : Graph)
    → ((v : List ℕ) (w : ℕ) → Edge g u v w → P v w)
    → All (λ t. P t.system_id t.distance) (links is u g)
unfolding links
All-links P is u [] k = tt
All-links P is u ((x, ns) ∷ g) k =
    let later = All-links P is u g (λ v w h. k v w (inr h)) in
    elim (Bool-cases (bytes_equal u x)) [
      | inl e ↦ rw e (
          All-append _ (map (triple_to is) ns) _
            (HasNeighbor-triples P is ns (λ v w h. k v w (inl (sym (bytes_equal→eq u x e), h))))
            later)
      | inr e ↦ rw e later
    ]

-- The initial `tent` has exactly the adjacencies that are up.
pub load_tent-IsAdjacent :
    (is : List Intf) (v : List ℕ) (w : ℕ)
    → IsAdjacent is v w
    → Any (λ t. (t.system_id ≡ v) × (t.distance ≡ w)) (load_tent is)
unfolding load_tent
load_tent-IsAdjacent [] v w a = absurd a
load_tent-IsAdjacent (i ∷ is) v w (inl (u, e, f)) = rw u (inl (e, f))
load_tent-IsAdjacent (i ∷ is) v w (inr a) = elim (Bool-cases (is_up i.adj.state)) [
  | inl u ↦ rw u (inr (load_tent-IsAdjacent is v w a))
  | inr u ↦ rw u (load_tent-IsAdjacent is v w a)
]

pub All-load_tent :
    (P : List ℕ → ℕ → Type 0) (is : List Intf)
    → ((v : List ℕ) (w : ℕ) → IsAdjacent is v w → P v w)
    → All (λ t. P t.system_id t.distance) (load_tent is)
unfolding load_tent
All-load_tent P [] k = tt
All-load_tent P (i ∷ is) k =
    let later = All-load_tent P is (λ v w h. k v w (inr h)) in
    elim (Bool-cases (is_up i.adj.state)) [
      | inl u ↦ rw u (
        k (system_id_to_string i.adj.neighbor_system_id) i.adj.metric (inl (u, refl, refl)),
        later,
      )
      | inr u ↦ rw u later
    ]
