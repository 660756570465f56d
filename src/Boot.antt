-- ===== src/Boot.antt =====
-- main.go: how a node comes up. What the system says of its interfaces is the input.
pub mod Table
mod Examples
use go_is_is.Common.{
  ℕ, zero, suc, ◌+◌, ◌-◌, List, [], ◌∷◌, ◌++◌, Bool, true, false, Option, none, some, Go, ok, panic,
  out_of_fuel, ◌>>=◌, if◌then◌else◌, length, replicate, ltb,
}
use Prim.Native.String.{String}
use text.Mathlib.Text.{◌==◌ as str_eq}
use go_is_is.Avl.{nil}
use go_is_is.Node.{Node, Config, Intf, Adjacency, IpNet, new}

-- An address of an interface: a `*net.IPNet`, or something else.
pub data Addr : Type 0 where
  ip_net : List ℕ → List ℕ → Addr
  other : Addr

-- A `net.Interface` with what the calls about it return: `Addrs`, `none` for an error, and the
-- destinations of its routes, some of which are nil.
pub record Iface : Type 0 where
  pub name : String
  pub addrs : Option (List Addr)
  pub route_dsts : List (Option IpNet)

-- The routes that are kept: those with a destination.
unfoldable pub save_routes : List (Option IpNet) → List (Option IpNet)
save_routes [] = []
save_routes (none ∷ routes) = save_routes routes
save_routes (some dst ∷ routes) = some dst ∷ save_routes routes

unfoldable pub new_intf : Iface → List ℕ → List ℕ → Intf
unfolding save_routes
new_intf i ip mask = record {
  adj = record {
    state = new;
    neighbor_system_id = [];
    metric = 0;
    intf_name = i.name;
    neighbor_ip = none;
  };
  name = i.name;
  prefix = ip;
  mask = mask;
  routes = save_routes i.route_dsts;
  lsp_flood_states = [];
}

abbrev pub Table : Type 0
Table = List (Option Intf)

-- `cfg.interfaces[index] = &new_intf`
unfoldable pub set_entry : Table → ℕ → Intf → Go Table
set_entry [] index intf = panic
set_entry (entry ∷ table) zero intf = ok (some intf ∷ table)
set_entry (entry ∷ table) (suc index) intf =
    set_entry table index intf >>= λ table'. ok (entry ∷ table')

-- `To4` is nil for an address that is not a v4 one.
abbrev pub is_nil : List ℕ → Bool
is_nil [] = true
is_nil (_ ∷ _) = false

-- The first use of every entry, `intf.name`, dereferences it.
unfoldable pub open_sockets : Table → Go (List Intf)
open_sockets [] = ok []
open_sockets (none ∷ table) = panic
open_sockets (some intf ∷ table) = open_sockets table >>= λ interfaces. ok (intf ∷ interfaces)

-- `net.IP.To4` is a parameter.
module _ (to4 : List ℕ → List ℕ) where
  -- The loop over the addresses of an interface: the table and `index`.
  unfoldable pub init_addrs : Iface → List Addr → Table → ℕ → Go (Table × ℕ)
  unfolding set_entry new_intf
  init_addrs i [] table index = ok (table, index)
  init_addrs i (other ∷ addrs) table index = init_addrs i addrs table index
  init_addrs i (ip_net ip mask ∷ addrs) table index =
      let later = init_addrs i addrs table index in
      let entered = set_entry table index (new_intf i ip mask) >>= λ table'.
      init_addrs i addrs table' (suc index) in
      if is_nil (to4 ip) then later else entered

  abbrev pub init_iface : Iface → Option (List Addr) → Table → ℕ → Go (Table × ℕ)
  init_iface i none table index = ok (table, index)
  init_iface i (some addrs) table index = init_addrs i addrs table index

  -- The loop over the interfaces, without the loopback one.
  unfoldable pub init_ifaces : List Iface → Table → ℕ → Go Table
  unfolding init_addrs
  init_ifaces [] table index = ok table
  init_ifaces (i ∷ ifaces) table index =
      let skipped = init_ifaces ifaces table index in
      let done =
        init_iface i i.addrs table index >>= λ (table', index'). init_ifaces ifaces table' index' in
      if str_eq i.name "lo" then skipped else done

  -- `make([]*Intf, len(ifaces)-1)` comes before the test of the error, with which `ifaces` is nil; so
  -- no interfaces and an error both panic.
  unfoldable pub init_interfaces : List Iface → Go Table
  unfolding init_ifaces
  init_interfaces [] = panic
  init_interfaces (i ∷ ifaces) = init_ifaces (i ∷ ifaces) (replicate (length ifaces) none) 0

  -- The first part of `main`: the node with which the goroutines start.
  unfoldable pub boot : List Iface → Go Node
  unfolding init_interfaces open_sockets
  boot ifaces = init_interfaces ifaces >>= λ table. open_sockets table >>= λ interfaces.
      ok (record {
        update_db = nil;
        sequence_number = 0;
        config = record { sid = []; interfaces = interfaces };
      })
