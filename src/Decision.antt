-- ===== src/Decision.antt =====
-- decision.go: the shortest paths from the node to all systems in its LSP database, and the routes
-- that follow.
--
-- The triples in `paths` and `tent` are values: one leaves `tent` when it enters `paths`, and only
-- those in `tent` change. The counter `tentSize` is kept beside the list, as in the code.
pub mod Graph
pub mod Tent
pub mod Expand
pub mod Best
pub mod Round
pub mod Step
pub mod Loop
pub mod Once
pub mod Install
pub mod Correct
pub mod Topology
pub mod Hop
pub mod Via
pub mod Routed
pub mod Heard
pub mod Ends
mod Examples
use go_is_is.Common.{
  ℕ, zero, suc, ◌+◌, ◌-◌, ◌%◌, ◌^◌, List, [], ◌∷◌, ◌++◌, map, Bool, true, false, not, Option, none,
  some, Go, ok, panic, out_of_fuel, ◌>>=◌, ltb, if◌then◌else◌, length, take, drop, get_elem?,
}
use go_is_is.Bytes.{bytes_equal, or_panic}
use go_is_is.Avl.{Avl, AvlNode, insert, get_all}
use go_is_is.SystemId.{system_id_to_string, system_id_to_key}
use go_is_is.Lsp.{Lsp}
use go_is_is.Node.{Node, Intf, Adjacency, IpNet, is_up, get_adjacency}
use go_is_is.Reach.{Neighbor, lookup_neighbors, get_directly_connected_prefixes}

pub record Triple : Type 0 where
  pub system_id : List ℕ
  pub distance : ℕ
  pub adj : Option Adjacency

-- The largest `uint32`.
abbrev pub max_uint32 : ℕ
max_uint32 = 4294967295

-- `systemIDToString(lsp.LspID[:6])`
abbrev pub system_of : AvlNode Lsp → List ℕ
system_of node = system_id_to_string (take 6 node.payload.id)

abbrev pub triple_to : List Intf → Neighbor → Triple
triple_to interfaces neighbor = record {
  system_id = neighbor.system_id;
  distance = neighbor.metric;
  adj = get_adjacency neighbor.system_id interfaces;
}

-- `interfaces` are those of the configuration.
unfoldable pub get_adjacencies : List Intf → Triple → List (AvlNode Lsp) → Go (List Triple)
unfolding bytes_equal lookup_neighbors get_adjacency system_id_to_string
get_adjacencies interfaces source [] = ok []
get_adjacencies interfaces source (node ∷ unknown) =
    let rest = get_adjacencies interfaces source unknown in
    let found = lookup_neighbors node.payload.core_lsp.first_tlv >>= λ neighbors.
    rest >>= λ trips. ok (map (triple_to interfaces) neighbors ++ trips) in
    if bytes_equal source.system_id (system_of node) then found else rest

unfoldable pub check_in_paths : Triple → List Triple → Bool
unfolding bytes_equal
check_in_paths adj [] = false
check_in_paths adj (path ∷ paths) =
    if bytes_equal adj.system_id path.system_id then true else check_in_paths adj paths

-- The sum of two `uint32`.
abbrev pub add_distance : ℕ → ℕ → ℕ
add_distance a b = (a + b) % 2 ^ 32

-- The loop of `addAdjToTent`: every entry of the system is updated.
unfoldable pub update_tent : ℕ → Triple → List Triple → List Triple
unfolding bytes_equal
update_tent current neighbor [] = []
update_tent current neighbor (system ∷ tent) =
    let sum = add_distance neighbor.distance current in
    (if bytes_equal neighbor.system_id system.system_id
      then record system { distance = if ltb sum system.distance then sum else system.distance }
      else system)
    ∷ update_tent current neighbor tent

-- The new `tent`, and the result: 1 if the neighbor was added.
unfoldable pub add_adj_to_tent :
    ℕ → Option Adjacency → Triple → List Triple → List Triple → List Triple × ℕ
unfolding check_in_paths update_tent
add_adj_to_tent current current_adj neighbor tent paths =
    let added = record neighbor {
      distance = add_distance neighbor.distance current;
      adj = current_adj;
    } in
    if check_in_paths neighbor paths
    then (tent, 0)
    else if check_in_paths neighbor tent
    then (update_tent current neighbor tent, 0)
    else (tent ++ added ∷ [], 1)

-- The loop over `bestAdjacencies`: the new `tent`, and by how much `tentSize` grows.
unfoldable pub add_adjacencies :
    ℕ → Option Adjacency → List Triple → List Triple → List Triple → List Triple × ℕ
unfolding add_adj_to_tent
add_adjacencies current current_adj [] tent paths = (tent, 0)
add_adjacencies current current_adj (adj ∷ adjs) tent paths =
    let (tent', added) = add_adj_to_tent current current_adj adj tent paths in
    let (tent'', more) = add_adjacencies current current_adj adjs tent' paths in
    (tent'', added + more)

-- The loop over the candidates: `i`, `minCostFromSource` and `bestPathIndex`, `none` for -1.
unfoldable pub best_path : ℕ → ℕ → Option ℕ → List Triple → ℕ × Option ℕ
best_path i cost best [] = (cost, best)
best_path i cost best (candidate ∷ tent) =
    let better = ltb candidate.distance cost in
    best_path (i + 1) (if better then candidate.distance else cost)
      (if better then some i else best) tent

pub record Spf : Type 0 where
  pub paths : List Triple
  pub tent : List Triple
  pub tent_size : ℕ

-- A round behind the choice of the best candidate.
unfoldable pub expand_best : List Intf → List (AvlNode Lsp) → Spf → ℕ × Option ℕ → Go Spf
unfolding get_adjacencies add_adjacencies
expand_best interfaces unknown s (cost, best) = or_panic best >>= λ i.
    or_panic (get_elem? s.tent i) >>= λ t. get_adjacencies interfaces t unknown >>= λ adjacencies.
    let paths = s.paths ++ t ∷ [] in
    let tent = take i s.tent ++ drop (suc i) s.tent in
    let (tent', added) = add_adjacencies cost t.adj adjacencies tent paths in
    ok (record { paths = paths; tent = tent'; tent_size = s.tent_size - 1 + added })

unfoldable pub spf_round : List Intf → List (AvlNode Lsp) → Spf → Go Spf
unfolding expand_best best_path
spf_round interfaces unknown s =
    expand_best interfaces unknown s (best_path 0 max_uint32 none s.tent)

unfoldable pub spf_loop : ℕ → List Intf → List (AvlNode Lsp) → Spf → Go (List Triple)
unfolding spf_round
spf_loop zero interfaces unknown s = out_of_fuel
spf_loop (suc fuel) interfaces unknown s =
    let more = spf_round interfaces unknown s >>= λ s'. spf_loop fuel interfaces unknown s' in
    if ltb 0 s.tent_size then more else ok s.paths

-- The first loop: `paths`, and the last index of an LSP of our own, `none` for -1.
unfoldable pub find_local :
    List ℕ → ℕ → List Triple → Option ℕ → List (AvlNode Lsp) → List Triple × Option ℕ
unfolding bytes_equal system_id_to_string
find_local sid i paths index [] = (paths, index)
find_local sid i paths index (node ∷ unknown) =
    let ours = bytes_equal (system_of node) sid in
    let path : Triple = record { system_id = sid; distance = 0; adj = none } in
    find_local sid (i + 1) (if ours then paths ++ path ∷ [] else paths)
      (if ours then some i else index) unknown

-- The local adjacencies.
unfoldable pub load_tent : List Intf → List Triple
unfolding system_id_to_string
load_tent [] = []
load_tent (intf ∷ interfaces) =
    let t : Triple = record {
      system_id = system_id_to_string intf.adj.neighbor_system_id;
      distance = intf.adj.metric;
      adj = some intf.adj;
    } in
    if is_up intf.adj.state then t ∷ load_tent interfaces else load_tent interfaces

-- How many neighbors the LSPs advertise: with the size of `tent`, enough rounds for the loop.
abbrev pub neighbor_count : Go (List Neighbor) → ℕ
neighbor_count (ok neighbors) = length neighbors
neighbor_count panic = 0
neighbor_count out_of_fuel = 0

unfoldable pub advertised : List (AvlNode Lsp) → ℕ
unfolding lookup_neighbors
advertised [] = 0
advertised (node ∷ unknown) =
    neighbor_count (lookup_neighbors node.payload.core_lsp.first_tlv) + advertised unknown

-- A route that is asked for: a destination and a gateway.
abbrev pub Route : Type 0
Route = IpNet × List ℕ

abbrev pub gateway : Option Adjacency → Option (List ℕ)
gateway none = none
gateway (some adj) = adj.neighbor_ip

-- Without a next hop no route is added.
abbrev pub routes_over : Option (List ℕ) → List IpNet → List Route
routes_over none prefixes = []
routes_over (some nh) prefixes = map (λ prefix. (prefix, nh)) prefixes

-- The calls of `netlink.RouteAdd`; its errors are only logged.
unfoldable pub install_route_from_path : Node → Triple → Go (List Route)
unfolding get_directly_connected_prefixes
install_route_from_path n path = get_directly_connected_prefixes n path.system_id >>= λ prefixes.
    ok (routes_over (gateway path.adj) prefixes)

-- The last loop: the topology database, and the routes.
unfoldable pub install_paths : Node → List Triple → Avl Triple → Go (Avl Triple × List Route)
unfolding insert system_id_to_key install_route_from_path bytes_equal
install_paths n [] topo = ok (topo, [])
install_paths n (path ∷ paths) topo =
    insert topo (system_id_to_key path.system_id) path true >>= λ topo'.
    (if bytes_equal path.system_id n.config.sid then ok [] else install_route_from_path n path)
    >>= λ routes. install_paths n paths topo' >>= λ (topo'', more). ok (topo'', routes ++ more)

-- `AvlGetAll` ends, so its `none` does not occur.
abbrev pub all_nodes : {V : Type 0} → Option (List (AvlNode V)) → Go (List (AvlNode V))
all_nodes none = out_of_fuel
all_nodes (some nodes) = ok nodes

-- `computeSPF` behind the search for our own LSP.
unfoldable pub compute_from :
    Node
    → Avl Triple
    → List Intf
    → List (AvlNode Lsp)
    → List Triple × Option ℕ
    → Go (Avl Triple × List Route)
unfolding load_tent advertised spf_loop install_paths
compute_from n topo interfaces unknown (paths, none) = ok (topo, [])
compute_from n topo interfaces unknown (paths, some i) =
    let others = take i unknown ++ drop (suc i) unknown in
    let tent = load_tent interfaces in
    spf_loop (length tent + advertised others + 1) interfaces others
      (record { paths = paths; tent = tent; tent_size = length tent })
    >>= λ paths'. install_paths n paths' topo

-- `interfaces` are those of the configuration, as in the only call.
unfoldable pub compute_spf : Node → Avl Triple → List ℕ → List Intf → Go (Avl Triple × List Route)
unfolding get_all find_local compute_from
compute_spf n topo local_system_id interfaces = all_nodes (get_all n.update_db) >>= λ unknown.
    compute_from n topo interfaces unknown (find_local local_system_id 0 [] none unknown)

-- A round of `isisDecision`, on a trigger from the channel.
unfoldable pub isis_decision : Bool → Node → Avl Triple → Go (Avl Triple × List Route)
unfolding compute_spf
isis_decision spf n topo =
    if spf then compute_spf n topo n.config.sid n.config.interfaces else ok (topo, [])
