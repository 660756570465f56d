-- ===== src/Decision/Routed.antt =====
-- The routes that `computeSPF` asks for go over the first hop of a shortest path, where all metrics
-- are the same, as in the LSPs that the code generates.
use go_is_is.Common.{
  ℕ, ◌≤◌, ◌≡◌, refl, ◌⊎◌, inl, inr, List, [], ◌∷◌, ◌++◌, map, Option, none, some, Go, ok, panic,
  out_of_fuel, Returns, Returns-imp, Ensures-and, All, All-append, All-and, All-imp, Any,
  Bool-cases,
}
use go_is_is.Bytes.{bytes_equal}
use go_is_is.Avl.{Avl}
use go_is_is.Avl.Contract.{IsAvl}
use go_is_is.Node.{Node, Intf, Adjacency, IpNet}
use go_is_is.Reach.{get_directly_connected_prefixes}
use go_is_is.Decision.{Triple, Route, routes_over, gateway, load_tent, compute_spf}
use go_is_is.Decision.Graph.{Graph, Walk}
use go_is_is.Decision.Round.{IsWalk}
use go_is_is.Decision.Loop.{Shortest, start-Inv}
use go_is_is.Decision.Once.{occurs, spf_loop-Once}
use go_is_is.Decision.Install.{route_list, asked, read_prefixes}
use go_is_is.Decision.Correct.{
  Describes, origin_of, start_of, loop_of, compute_spf-Found, no_own-Edge,
}
use go_is_is.Decision.Topology.{Distinct, Distinct-Once, Covers-All, All-swap}
use go_is_is.Decision.Hop.{IsVia, HasHop, Leads, IsUniform}
use go_is_is.Decision.Via.{load_tent-Hops, spf_loop-Hops}

-- A route to a prefix that the LSP of some system lists, over the interface address of a neighbor
-- whose adjacency is up and starts a shortest walk to that system.
pub record IsRouted (n : Node) (is : List Intf) (g : Graph) (local : List ℕ) (route : Route)
    : Type 0 where
  pub system : List ℕ
  pub prefixes : List IpNet
  pub read : get_directly_connected_prefixes n system ≡ ok prefixes
  pub destination : Any (λ p. p ≡ route.0) prefixes
  pub distance : ℕ
  pub walk : Walk is g local system distance
  pub least : (d : ℕ) → Walk is g local system d → distance ≤ d
  pub adjacency : Adjacency
  pub leads : Leads is g adjacency system distance
  pub next_hop : adjacency.neighbor_ip ≡ some route.1

-- A path as near as any walk to its system, with its next hop.
abbrev IsBest : List Intf → Graph → List ℕ → Triple → Type 0
IsBest is g local t =
    IsWalk is g local t × ((d : ℕ) → Walk is g local t.system_id d → t.distance ≤ d) × IsVia is g t

least_paths :
    (is : List Intf) (g : Graph) (local : List ℕ) (paths : List Triple)
    → Shortest is g local paths
    → ((v : List ℕ) → occurs v paths ≤ 1)
    → All (λ t. (d : ℕ) → Walk is g local t.system_id d → t.distance ≤ d) paths
least_paths is g local paths s once =
    let E = (v : List ℕ) × (d : ℕ) × Walk is g local v d in
    All-imp (λ t. (p : E) → t.system_id ≡ p.0 → t.distance ≤ p.1) _
      (λ t h d walk. h (t.system_id, d, walk) refl) paths
      (All-swap {E = E} (λ p t. t.system_id ≡ p.0 → t.distance ≤ p.1) paths
        (λ p. Covers-All p.0 p.1 paths (once p.0) (s.minimal p.0 p.1 p.2)))

All-Any :
    (P : Route → Type 0) (nh : List ℕ) (ps : List IpNet)
    → ((p : IpNet) → Any (λ q. q ≡ p) ps → P (p, nh))
    → All P (map (λ p. (p, nh)) ps)
All-Any P nh [] h = tt
All-Any P nh (p ∷ ps) h = (h p (inl refl), All-Any P nh ps (λ q a. h q (inr a)))

-- Of a path with a next hop.
hop-IsRouted :
    (n : Node) (is : List Intf) (g : Graph) (local : List ℕ) (t : Triple) (a : Adjacency)
    (o : Option (List ℕ)) (m : Go (List IpNet))
    → IsBest is g local t
    → Leads is g a t.system_id t.distance
    → a.neighbor_ip ≡ o
    → get_directly_connected_prefixes n t.system_id ≡ m
    → All (IsRouted n is g local) (routes_over o (read_prefixes m))
hop-IsRouted n is g local t a none m b l e f = tt
hop-IsRouted n is g local t a (some nh) panic b l e f = tt
hop-IsRouted n is g local t a (some nh) out_of_fuel b l e f = tt
hop-IsRouted n is g local t a (some nh) (ok prefixes) (walk, least, _) l e f =
    All-Any (IsRouted n is g local) nh prefixes λ p q. record {
      system = t.system_id;
      prefixes = prefixes;
      read = f;
      destination = q;
      distance = t.distance;
      walk = walk;
      least = least;
      adjacency = a;
      leads = l;
      next_hop = e;
    }

via-IsRouted :
    (n : Node) (is : List Intf) (g : Graph) (local : List ℕ) (t : Triple) (o : Option Adjacency)
    → IsBest is g local t
    → (o ≡ none) ⊎ HasHop is g t.system_id t.distance o
    → All
        (IsRouted n is g local)
        (routes_over (gateway o) (read_prefixes (get_directly_connected_prefixes n t.system_id)))
via-IsRouted n is g local t none b h = tt
via-IsRouted n is g local t (some a) b (inl e) = cc
via-IsRouted n is g local t (some a) b (inr l) =
    hop-IsRouted n is g local t a a.neighbor_ip _ b l refl refl

route_list-IsRouted :
    (n : Node) (is : List Intf) (g : Graph) (local : List ℕ) (t : Triple)
    → IsBest is g local t
    → All (IsRouted n is g local) (route_list n t)
unfolding route_list
route_list-IsRouted n is g local t b = via-IsRouted n is g local t t.adj b b.2

asked-IsRouted :
    (n : Node) (is : List Intf) (g : Graph) (local : List ℕ) (paths : List Triple)
    → All (IsBest is g local) paths
    → All (IsRouted n is g local) (asked n paths)
unfolding asked
asked-IsRouted n is g local [] h = tt
asked-IsRouted n is g local (t ∷ paths) h =
    let later = asked-IsRouted n is g local paths h.1 in
    elim (Bool-cases (bytes_equal t.system_id n.config.sid)) [
      | inl own ↦ rw own later
      | inr other ↦ rw other (
          All-append (IsRouted n is g local) (route_list n t) (asked n paths)
            (route_list-IsRouted n is g local t h.0) later)
    ]

-- When the LSP database has exactly one LSP of the node, all LSPs can be read, all metrics are the
-- same and too small to overflow, no two adjacencies that are up lead to one system and none to the
-- node itself, and the topology database is a balanced search tree, `computeSPF` ends without a panic,
-- and every route that it asks for is to a prefix that the LSP of some system lists, over the
-- interface address of a neighbor whose adjacency is up and starts a shortest walk to that system.
pub compute_spf-IsRouted :
    (n : Node) (topo : Avl Triple) (local : List ℕ) (is : List Intf) (g : Graph) (limit metric : ℕ)
    → Describes n local is g limit
    → IsAvl topo
    → Distinct (origin_of local ∷ load_tent is)
    → IsUniform is g metric
    → Returns (compute_spf n topo local is) λ r. All (IsRouted n is g local) r.1
compute_spf-IsRouted n topo local is g limit metric d a distinct uniform =
    let others = d.own.before ++ d.own.after in
    let start = start_of local is in
    let loop = loop_of n local is d.own in
    let inv =
      start-Inv is g local limit d.light others d.reads start.paths ((refl, refl), tt)
        (inl (refl, refl)) (no_own-Edge local others g d.own.others d.reads) d.small in
    let hops =
      spf_loop-Hops is g metric uniform local limit d.light others d.reads _ start inv
        (load_tent-Hops is g metric uniform start.paths (inl refl, tt)) in
    let once =
      spf_loop-Once is others _ start (Distinct-Once (origin_of local) (load_tent is) distinct) in
    Returns-imp (compute_spf n topo local is) _ _
      (λ r f. rw f.installed.routes (
        asked-IsRouted n is g local f.paths (
          All-imp _ (IsBest is g local) (λ t (w, (l, v)). (w, l, v)) f.paths
            (All-and (IsWalk is g local) _ f.paths f.shortest.walks (
              All-and _ (IsVia is g) f.paths (least_paths is g local f.paths f.shortest f.known.1)
                f.known.0)))))
      (compute_spf-Found n topo local is g limit
        (λ paths. All (IsVia is g) paths × ((v : List ℕ) → occurs v paths ≤ 1)) d a
        (Ensures-and loop (All (IsVia is g)) (λ paths. (v : List ℕ) → occurs v paths ≤ 1) hops
          once))
