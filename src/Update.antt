-- ===== src/Update.antt =====
-- update.go: the update process. Received LSPs go into the database if they are newer, and are
-- marked for flooding; each interface sends what is marked; the node's own LSP is generated anew
-- when an adjacency comes up.
pub mod Flood
pub mod Database
pub mod Send
pub mod Local
pub mod Wire
pub mod Arrived
mod Examples
use go_is_is.Common.{
  ℕ, suc, ◌+◌, ◌%◌, ◌^◌, List, [], ◌∷◌, ◌++◌, Bool, true, false, ◌&&◌, Option, none, some, Go, ok,
  ◌>>=◌, ltb, ◌==◌, if◌then◌else◌,
}
use Prim.Native.String.{String}
use text.Mathlib.Text.{◌==◌ as str_eq}
use go_is_is.Bytes.{Slice}
use go_is_is.Avl.{insert, search}
use go_is_is.Tlv.{Tlv, build_ethernet_frame}
use go_is_is.Lsp.{Lsp, deserialize_lsp, serialize_lsp, build_empty_lsp, sequence}
use go_is_is.Node.{Node, Config, Intf, Adjacency, AdjState, LspFloodState, IpNet, is_up}

-- `if _, inMap := states[key]; !inMap { add with SRM: srm } else { states[key].SRM = srm }`
unfoldable pub set_srm : Lsp → Bool → List (ℕ × LspFloodState) → List (ℕ × LspFloodState)
set_srm lsp srm [] =
    (lsp.key, record { lsp_id_key = lsp.key; lsp_id = lsp.id; srm = srm; ssn = false }) ∷ []
set_srm lsp srm ((k, s) ∷ states) =
    if k == lsp.key then (k, record s { srm = srm }) ∷ states else (k, s) ∷ set_srm lsp srm states

abbrev pub mark : Lsp → Bool → Intf → Intf
mark lsp srm intf = record intf { lsp_flood_states = set_srm lsp srm intf.lsp_flood_states }

-- The receiving interface is told by its name.
unfoldable pub flood_new_lsp : String → Lsp → List Intf → List Intf
unfolding set_srm
flood_new_lsp receive_intf lsp [] = []
flood_new_lsp receive_intf lsp (intf ∷ rest) =
    mark lsp (if str_eq receive_intf intf.name then false else true) intf
    ∷ flood_new_lsp receive_intf lsp rest

abbrev pub with_interfaces : Node → List Intf → Node
with_interfaces n is = record n { config = record n.config { interfaces = is } }

-- The LSP is stored and flooded, and SPF is triggered.
unfoldable pub accept_lsp : String → Lsp → Bool → Node → Go (Node × Bool)
unfolding insert flood_new_lsp
accept_lsp receive_intf lsp overwrite n = insert n.update_db lsp.key lsp overwrite >>= λ db. ok (
  record (with_interfaces n (flood_new_lsp receive_intf lsp n.config.interfaces)) {
    update_db = db;
  },
  true,
)

-- What is done about a received LSP, by the copy that the search found.
unfoldable pub compare_copy : String → Lsp → Node → Option Lsp → Go (Node × Bool)
unfolding accept_lsp sequence
compare_copy receive_intf received n none = accept_lsp receive_intf received false n
compare_copy receive_intf received n (some lsp) =
    if ltb (sequence lsp) (sequence received)
    then accept_lsp receive_intf received true n
    else ok (n, false)

-- One round of `isisUpdateInput` behind `deserializeLsp`; the result says whether SPF is triggered.
unfoldable pub process_lsp : String → Lsp → Node → Go (Node × Bool)
unfolding compare_copy search
process_lsp receive_intf received n =
    compare_copy receive_intf received n (search n.update_db received.key)

-- One round of `isisUpdateInput`, on a frame from the `update` channel.
unfoldable pub update_input : String → Slice → Node → Go (Node × Bool)
unfolding deserialize_lsp process_lsp
update_input receive_intf raw n =
    deserialize_lsp raw >>= λ received. process_lsp receive_intf received n

abbrev pub cons_some {ℓ} : {A : Type ℓ} → Option A → List A → List A
cons_some none xs = xs
cons_some (some x) xs = x ∷ xs

-- What `isisUpdate` puts on the send channel.
module _ (l1_multicast : List ℕ) (get_mac : String → List ℕ) where
  unfoldable pub lsp_frame : String → Lsp → List ℕ
  unfolding build_ethernet_frame serialize_lsp
  lsp_frame name lsp = build_ethernet_frame l1_multicast (get_mac name) (serialize_lsp lsp.core_lsp)

  -- The body of the loop over the flood states: a frame, if one is sent, and the state afterwards.
  unfoldable pub send_one : Node → Intf → LspFloodState → Option (List ℕ) × LspFloodState
  unfolding lsp_frame search
  send_one n intf s =
      if s.srm && is_up intf.adj.state
      then (elim (search n.update_db s.lsp_id_key) [
        | none ↦ (none, s)
        | some lsp ↦ (some (lsp_frame intf.name lsp), record s { srm = false })
      ])
      else (none, s)

  -- The loop, in the order of the list: the frames sent, and the states afterwards.
  unfoldable pub send_marked :
      Node → Intf → List (ℕ × LspFloodState) → List (List ℕ) × List (ℕ × LspFloodState)
  unfolding send_one
  send_marked n intf [] = ([], [])
  send_marked n intf ((k, s) ∷ states) =
      let (frame, s') = send_one n intf s in
      let (frames, states') = send_marked n intf states in
      (cons_some frame frames, (k, s') ∷ states')

  -- One round of `isisUpdate` on an interface.
  unfoldable pub update_round : Node → Intf → List (List ℕ) × Intf
  unfolding send_marked
  update_round n intf =
      let (frames, states) = send_marked n intf intf.lsp_flood_states in
      (frames, record intf { lsp_flood_states = states })

-- The metric of ten that every TLV carries.
abbrev pub ten : List ℕ
ten = 0x00 ∷ 0x00 ∷ 0x00 ∷ 0x0a ∷ []

unfoldable pub add_routes : List (Option IpNet) → Tlv → Tlv
add_routes [] t = t
add_routes (none ∷ routes) t = add_routes routes t
add_routes (some route ∷ routes) t = add_routes routes (record t {
  value_tlv = t.value_tlv ++ (route.ip ++ (route.ip_mask ++ ten));
  length_tlv = (t.length_tlv + 12) % 2 ^ 8;
})

unfoldable pub add_interfaces : List Intf → Tlv → Tlv
unfolding add_routes
add_interfaces [] t = t
add_interfaces (intf ∷ rest) t = add_interfaces rest (add_routes intf.routes t)

unfoldable pub get_ip_reach_tlv : List Intf → Tlv
unfolding add_interfaces
get_ip_reach_tlv interfaces =
    add_interfaces interfaces (record { type_tlv = 128; length_tlv = 0; value_tlv = [] })

unfoldable pub add_neighbors : List Intf → Tlv → Tlv
add_neighbors [] t = t
add_neighbors (intf ∷ rest) t = add_neighbors rest (
    if is_up intf.adj.state
    then record t {
      value_tlv = t.value_tlv ++ (ten ++ (intf.adj.neighbor_system_id ++ 0x00 ∷ []));
      length_tlv = (t.length_tlv + 11) % 2 ^ 8;
    }
    else t)

unfoldable pub get_neighbor_tlv : List Intf → Tlv
unfolding add_neighbors
get_neighbor_tlv interfaces =
    add_neighbors interfaces (record { type_tlv = 2; length_tlv = 1; value_tlv = 0x00 ∷ [] })

unfoldable pub mark_all : Lsp → List Intf → List Intf
unfolding set_srm
mark_all lsp [] = []
mark_all lsp (intf ∷ rest) = mark lsp true intf ∷ mark_all lsp rest

-- The LSP that `generateLocalLsp` builds; `sequenceNumber` is a `uint32`.
unfoldable pub local_lsp : Node → Lsp
unfolding build_empty_lsp get_ip_reach_tlv get_neighbor_tlv
local_lsp n =
    let lsp = build_empty_lsp ((n.sequence_number + 1) % 2 ^ 32) n.config.sid in
    record lsp {
      core_lsp = record lsp.core_lsp {
        first_tlv =
            get_ip_reach_tlv n.config.interfaces ∷ get_neighbor_tlv n.config.interfaces ∷ [];
      };
    }

unfoldable pub generate_local_lsp : Node → Go Node
unfolding local_lsp insert mark_all
generate_local_lsp n =
    let lsp = local_lsp n in
    insert n.update_db lsp.key lsp true >>= λ db.
    ok (record (with_interfaces n (mark_all lsp n.config.interfaces)) {
      update_db = db;
      sequence_number = (n.sequence_number + 1) % 2 ^ 32;
    })
