-- ===== src/Reach/Examples.antt =====
-- The neighbors of a node with one adjacency up and one still coming up.
use go_is_is.Common.{
  ℕ, ◌+◌, ◌-◌, ◌*◌, ◌/◌, ◌%◌, ◌≡◌, refl, List, [], ◌∷◌, none, some, ok, Returns, map, take, length,
}
use Prim.Native.String.{String}
use go_is_is.Avl.{nil}
use go_is_is.Avl.Contract.{nil-IsAvl}
use go_is_is.Node.{Node, Intf, AdjState, init, up}
use go_is_is.Update.{get_neighbor_tlv, get_ip_reach_tlv, generate_local_lsp}
use go_is_is.Reach.{get_neighbors, get_prefixes_from_tlv}
use go_is_is.Reach.Prefixes.{all_routes, get_prefixes_from_tlv-get_ip_reach_tlv}
use go_is_is.Reach.Own.{ReadsOwn, generate_local_lsp-ReadsOwn}
use go_is_is.Reach.Neighbors.{up_ids, neighbor_of, get_neighbors-get_neighbor_tlv}

abbrev intf_to : String → AdjState → ℕ → Intf
intf_to name state b = record {
  adj = record {
    state = state;
    neighbor_system_id = 1 ∷ 1 ∷ 1 ∷ 1 ∷ 1 ∷ b ∷ [];
    metric = 10;
    intf_name = name;
    neighbor_ip = none;
  };
  name = name;
  prefix = [];
  mask = [];
  routes =
      none ∷ some (record { ip = 10 ∷ 0 ∷ 0 ∷ b ∷ []; ip_mask = 255 ∷ 255 ∷ 255 ∷ 0 ∷ [] }) ∷ [];
  lsp_flood_states = [];
}

abbrev intfs : List Intf
intfs = intf_to "eth0" init 2 ∷ intf_to "eth1" up 3 ∷ []

one_neighbor :
    get_neighbors (get_neighbor_tlv intfs) ≡ ok (neighbor_of (1 ∷ 1 ∷ 1 ∷ 1 ∷ 1 ∷ 3 ∷ []) ∷ [])
unfolding get_neighbors get_neighbor_tlv
one_neighbor = refl

get_neighbors-get_neighbor_tlv_example :
    get_neighbors (get_neighbor_tlv intfs)
    ≡ ok (map neighbor_of (take (((1 + 11 * length (up_ids intfs)) % 256 - 1) / 11) (up_ids intfs)))
unfolding up_ids
get_neighbors-get_neighbor_tlv_example = get_neighbors-get_neighbor_tlv intfs (refl, tt)

get_prefixes_from_tlv-get_ip_reach_tlv_example :
    get_prefixes_from_tlv (get_ip_reach_tlv intfs)
    ≡ ok (take ((12 * length (all_routes intfs)) % 256 / 12) (all_routes intfs))
unfolding all_routes
get_prefixes_from_tlv-get_ip_reach_tlv_example =
    get_prefixes_from_tlv-get_ip_reach_tlv intfs ((refl, refl), ((refl, refl), tt))

abbrev sample : Node
sample = record {
  update_db = nil;
  sequence_number = 0;
  config = record { sid = b'1' ∷ b'1' ∷ []; interfaces = intfs };
}

generate_local_lsp-ReadsOwn_example : Returns (generate_local_lsp sample) (ReadsOwn sample)
unfolding all_routes up_ids
generate_local_lsp-ReadsOwn_example =
    generate_local_lsp-ReadsOwn sample nil-IsAvl ((refl, refl), ((refl, refl), tt)) (refl, tt)
