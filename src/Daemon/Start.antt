-- ===== src/Daemon/Start.antt =====
-- A node from its start on.
use go_is_is.Common.{
  ℕ, ◌≤◌, List, [], ◌∷◌, Option, none, some, Ensures, ◌==◌, ◌+◌, length, Bool-cases, inl, inr, All,
  All-append, All-imp,
}
use text.Mathlib.Text.{◌==◌ as str_eq}
use go_is_is.Reach.Prefixes.{IsV4, all_routes}
use go_is_is.Daemon.Kept.{HasId}
use go_is_is.Daemon.Sound.{IsSound, IsLong, run-IsSound}
use Prim.Native.String.{String}
use go_is_is.Avl.{search}
use go_is_is.Avl.Contract.{nil-IsAvl}
use go_is_is.Node.{Intf}
use go_is_is.Update.Flood.{HasOwnKeys}
use go_is_is.Boot.{Iface, Addr, ip_net, other, is_nil, new_intf, boot}
use go_is_is.Boot.Table.{addr_intfs, iface_intfs, intfs_of, fresh_node, boot-intfs_of}
use go_is_is.Daemon.{Event, run, idle}
use go_is_is.Daemon.Safety.{Inv, After, run-After}

fresh-Inv :
    (to4 : List ℕ → List ℕ) (ifaces : List Iface) → Inv (idle (fresh_node (intfs_of to4 ifaces)))
unfolding search
fresh-Inv to4 ifaces = record { db = nil-IsAvl; topology = nil-IsAvl; keyed = λ k lsp e. cc }

-- An adjacency that is not up, and flood states under the keys of their LSPs.
abbrev IsNew : Intf → Type 0
IsNew i = HasId i × HasOwnKeys i.lsp_flood_states

new_intf-IsNew : (i : Iface) (ip mask : List ℕ) → IsNew (new_intf i ip mask)
unfolding new_intf
new_intf-IsNew i ip mask = (λ u. cc, tt)

module _ (to4 : List ℕ → List ℕ) where
  addr_intfs-IsNew : (i : Iface) (addrs : List Addr) → All IsNew (addr_intfs to4 i addrs)
  unfolding addr_intfs
  addr_intfs-IsNew i [] = tt
  addr_intfs-IsNew i (other ∷ addrs) = addr_intfs-IsNew i addrs
  addr_intfs-IsNew i (ip_net ip mask ∷ addrs) = elim (Bool-cases (is_nil (to4 ip))) [
    | inl e ↦ rw e (addr_intfs-IsNew i addrs)
    | inr e ↦ rw e (new_intf-IsNew i ip mask, addr_intfs-IsNew i addrs)
  ]

  iface_intfs-IsNew : (i : Iface) (addrs : Option (List Addr)) → All IsNew (iface_intfs to4 i addrs)
  iface_intfs-IsNew i none = tt
  iface_intfs-IsNew i (some addrs) = addr_intfs-IsNew i addrs

  intfs_of-IsNew : (ifaces : List Iface) → All IsNew (intfs_of to4 ifaces)
  unfolding intfs_of
  intfs_of-IsNew [] = tt
  intfs_of-IsNew (i ∷ ifaces) = elim (Bool-cases (str_eq i.name "lo")) [
    | inl e ↦ rw e (intfs_of-IsNew ifaces)
    | inr e ↦ rw e (
        All-append IsNew (iface_intfs to4 i i.addrs) (intfs_of to4 ifaces)
          (iface_intfs-IsNew i i.addrs) (intfs_of-IsNew ifaces))
  ]

  -- At most 23 interfaces with at most 21 routes, all of these IPv4.
  pub record HasRoom (ifaces : List Iface) : Type 0 where
    pub interfaces : length (intfs_of to4 ifaces) ≤ 23
    pub routes : length (all_routes (intfs_of to4 ifaces)) ≤ 21
    pub v4 : All IsV4 (all_routes (intfs_of to4 ifaces))

  pub fresh-IsSound :
      (ifaces : List Iface) → HasRoom ifaces → IsSound (idle (fresh_node (intfs_of to4 ifaces)))
  unfolding search
  fresh-IsSound ifaces h = record {
    inv = fresh-Inv to4 ifaces;
    fits = record {
      interfaces = h.interfaces;
      routes = h.routes;
      v4 = h.v4;
      ids = All-imp IsNew HasId (λ i new. new.0) (intfs_of to4 ifaces) (intfs_of-IsNew ifaces);
      own_keys =
          All-imp IsNew (λ (i : Intf). HasOwnKeys i.lsp_flood_states) (λ i new. new.1)
            (intfs_of to4 ifaces) (intfs_of-IsNew ifaces);
    };
    stored = λ k lsp e. cc;
  }

module _ (l1_multicast : List ℕ) (get_mac : String → List ℕ) (to4 : List ℕ → List ℕ) where
  -- Whatever interfaces the system reports and whatever rounds follow, unless one of them panics:
  -- both databases of the node are balanced search trees, every LSP stands under its own key, and
  -- the interfaces are, by name and order, those of the start.
  pub run-boot :
      (ifaces : List Iface) (events : List Event)
      → Ensures
          (boot to4 ifaces)
          λ n. Ensures (run l1_multicast get_mac to4 events (idle n)) λ r. After (idle n) r.0
  run-boot ifaces events =
      rw (boot-intfs_of to4 ifaces)
        (elim (Bool-cases (length (intfs_of to4 ifaces) + 1 == length ifaces)) [
          | inl e ↦ rw e (run-After l1_multicast get_mac to4 events _ (fresh-Inv to4 ifaces))
          | inr e ↦ rw e tt
        ])

  -- A node that starts with at most 23 interfaces and at most 21 routes, all of these IPv4, on which
  -- any rounds follow, unless one of them panics, where no frame that comes in is shorter than 22
  -- bytes: every LSP in its database, its own and those received, has the sizes, the length fields
  -- and the header with which it survives the way over a link; what it advertises still fits.
  pub run-boot-IsSound :
      (ifaces : List Iface) (events : List Event)
      → HasRoom to4 ifaces
      → All IsLong events
      → Ensures
          (boot to4 ifaces)
          λ n. Ensures (run l1_multicast get_mac to4 events (idle n)) λ r. IsSound r.0
  run-boot-IsSound ifaces events h long =
      rw (boot-intfs_of to4 ifaces)
        (elim (Bool-cases (length (intfs_of to4 ifaces) + 1 == length ifaces)) [
          | inl e ↦
              rw e (run-IsSound l1_multicast get_mac to4 events _ long (fresh-IsSound to4 ifaces h))
          | inr e ↦ rw e tt
        ])
