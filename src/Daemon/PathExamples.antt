-- ===== src/Daemon/PathExamples.antt =====
-- A path of two nodes: flooding at it.
use go_is_is.Common.{◌≡◌, refl, List, [], ◌∷◌, arith, All, Returns, length}
use go_is_is.Avl.{nil, search}
use go_is_is.Avl.Contract.{nil-IsAvl}
use go_is_is.Reach.Prefixes.{all_routes}
use go_is_is.Hello.Handshake.{with_neighbor}
use go_is_is.Node.{Intf}
use go_is_is.Daemon.{Daemon, idle}
use go_is_is.Daemon.Sound.{IsSound}
use go_is_is.Daemon.Chain.{Hop, CanSend, CanFlood, Has, flood, flood-Has}
use go_is_is.Daemon.Samples.{
  multicast, mac, same, intf_of, sid_b, other_lsp, marked, marked_intf, marked-IsSound, start,
  start-IsSound,
}
use go_is_is.Common.{inl}

abbrev out_intf : Intf
out_intf = with_neighbor (intf_of "eth2" 3) (0x11 ∷ 0x11 ∷ 0x11 ∷ 0x11 ∷ 0x11 ∷ 0x13 ∷ []) []

-- A node between two others.
abbrev middle : Daemon
middle = idle (record {
  update_db = nil;
  sequence_number = 0;
  config = record { sid = sid_b; interfaces = intf_of "eth1" 2 ∷ out_intf ∷ [] };
})

middle-IsSound : IsSound middle
unfolding search all_routes
middle-IsSound = record {
  inv = record { db = nil-IsAvl; topology = nil-IsAvl; keyed = λ k lsp e. cc };
  fits = record {
    interfaces = omega arith;
    routes = omega arith;
    v4 = ((refl, refl), ((refl, refl), tt));
    ids = (λ u. cc, (λ u. refl, tt));
    own_keys = (tt, (tt, tt));
  };
  stored = λ k l e. cc;
}

marked-CanSend : CanSend other_lsp marked 0
unfolding search
marked-CanSend = record {
  sound = marked-IsSound;
  intf = marked_intf;
  at = refl;
  is_up_there = refl;
  stored = refl;
  marked = inl (refl, refl, refl);
}

abbrev path : List Hop
path =
    record { daemon = middle; inward = 0; outward = 1 }
    ∷ record { daemon = start; inward = 0; outward = 0 }
    ∷ []

path-CanFlood : CanFlood other_lsp path
unfolding search
path-CanFlood = (
  (
    record { sound = middle-IsSound; intf = intf_of "eth1" 2; at = refl; older = omega arith },
    record { intf = out_intf; at = refl; other = refl; is_up_there = refl },
  ),
  record { sound = start-IsSound; intf = intf_of "eth0" 1; at = refl; older = omega arith },
)

flood-Has_example :
    Returns (flood multicast mac same marked 0 path) λ es. (length es ≡ 2) × All (Has other_lsp) es
flood-Has_example =
    flood-Has multicast mac same refl (λ name. refl) other_lsp marked 0 path marked-CanSend
      path-CanFlood
