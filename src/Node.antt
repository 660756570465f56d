-- ===== src/Node.antt =====
-- main.go: the configuration of a node, its interfaces, their adjacencies and flood states, and the
-- state that the goroutines share.
--
-- A round of each goroutine is one step, as if nothing else ran meanwhile. Each interface owns its
-- adjacency and its flood states. A Go map is an association list in the order in which a `range`
-- happens to visit it.
use go_is_is.Common.{ℕ, List, [], ◌∷◌, Bool, true, false, Option, none, some, if◌then◌else◌}
use Prim.Native.String.{String}
use go_is_is.Bytes.{bytes_equal}
use go_is_is.SystemId.{system_id_to_string}
use go_is_is.Avl.{Avl}
use go_is_is.Lsp.{Lsp}

-- The strings "NEW", "INIT" and "UP".
pub data AdjState : Type 0 where
  new init up : AdjState

abbrev pub is_up : AdjState → Bool
is_up new = false
is_up init = false
is_up up = true

-- `neighborIP` may be nil.
pub record Adjacency : Type 0 where
  pub state : AdjState
  pub neighbor_system_id : List ℕ
  pub metric : ℕ
  pub intf_name : String
  pub neighbor_ip : Option (List ℕ)

pub record LspFloodState : Type 0 where
  pub lsp_id_key : ℕ
  pub lsp_id : List ℕ
  pub srm : Bool
  pub ssn : Bool

-- `net.IPNet`
pub record IpNet : Type 0 where
  pub ip : List ℕ
  pub ip_mask : List ℕ

-- A route may be a nil pointer.
pub record Intf : Type 0 where
  pub adj : Adjacency
  pub name : String
  pub prefix : List ℕ
  pub mask : List ℕ
  pub routes : List (Option IpNet)
  pub lsp_flood_states : List (ℕ × LspFloodState)

pub record Config : Type 0 where
  pub sid : List ℕ
  pub interfaces : List Intf

-- The globals `UpdateDB.Root`, `sequenceNumber` and `cfg`.
pub record Node : Type 0 where
  pub update_db : Avl Lsp
  pub sequence_number : ℕ
  pub config : Config

unfoldable pub get_adjacency : List ℕ → List Intf → Option Adjacency
unfolding system_id_to_string bytes_equal
get_adjacency neighbor [] = none
get_adjacency neighbor (intf ∷ rest) =
    let later = get_adjacency neighbor rest in
    if is_up intf.adj.state
    then (if bytes_equal (system_id_to_string intf.adj.neighbor_system_id) neighbor
        then some intf.adj
        else later)
    else later

-- The handler `ConfigureSystemID`: the new node, and `cfg.sid` as `GetSystemID` reports it.
unfoldable pub configure_system_id : List ℕ → Node → Node
configure_system_id sid n = record n { config = record n.config { sid = sid } }

unfoldable pub get_system_id : Node → List ℕ
get_system_id n = n.config.sid
