-- ===== src/Daemon/Samples.antt =====
-- Two nodes, an LSP and some rounds, for the examples.
use go_is_is.Common.{ℕ, ◌≡◌, refl, List, [], ◌∷◌, arith, true, false, some, none}
use Prim.Native.String.{String}
use go_is_is.Bytes.{Slice, bytes_equal}
use go_is_is.Avl.{nil, node, search, get_height}
use go_is_is.Avl.Entries.{entries}
use go_is_is.Update.Wire.{IsLsp, IsSendable}
use go_is_is.Avl.Contract.{nil-IsAvl}
use go_is_is.SystemId.{system_id_to_string, system_id_to_bytes, lsp_id_to_key}
use go_is_is.Lsp.{Lsp}
use go_is_is.Node.{Intf, new}
use go_is_is.Boot.{Iface, ip_net, new_intf}
use go_is_is.Hello.{send_hello}
use go_is_is.Hello.Frame.{heard}
use go_is_is.Hello.Handshake.{with_neighbor}
use go_is_is.Daemon.{Daemon, Event, received, hello_timer, update_timer, decide, idle}
use go_is_is.Reach.Prefixes.{all_routes}
use go_is_is.Boot.Table.{intfs_of}
use go_is_is.Daemon.Safety.{Inv}
use go_is_is.Daemon.Sound.{IsSound}
use go_is_is.Daemon.Start.{HasRoom}
use go_is_is.Daemon.Meet.{Ready}

abbrev pub multicast : List ℕ
multicast = 0x01 ∷ 0x80 ∷ 0xc2 ∷ 0x00 ∷ 0x00 ∷ 0x14 ∷ []

abbrev pub mac : String → List ℕ
mac name = 0xaa ∷ 0xbb ∷ 0xcc ∷ 0xdd ∷ 0xee ∷ 0xff ∷ []

abbrev pub same : List ℕ → List ℕ
same ip = ip

abbrev pub iface : String → ℕ → Iface
iface name b = record {
  name = name;
  addrs = some (ip_net (10 ∷ 0 ∷ 0 ∷ b ∷ []) (255 ∷ 255 ∷ 255 ∷ 0 ∷ []) ∷ []);
  route_dsts = [];
}

abbrev pub intf_of : String → ℕ → Intf
intf_of name b = record {
  adj = record {
    state = new;
    neighbor_system_id = [];
    metric = 0;
    intf_name = name;
    neighbor_ip = none;
  };
  name = name;
  prefix = 10 ∷ 0 ∷ 0 ∷ b ∷ [];
  mask = [];
  routes =
      some (record { ip = 10 ∷ 0 ∷ 0 ∷ 0 ∷ []; ip_mask = 255 ∷ 255 ∷ 255 ∷ 0 ∷ [] }) ∷ none ∷ [];
  lsp_flood_states = [];
}

-- The system IDs `1111.1111.1111` and `1111.1111.1112`.
abbrev pub sid_a : List ℕ
sid_a = system_id_to_string (0x11 ∷ 0x11 ∷ 0x11 ∷ 0x11 ∷ 0x11 ∷ 0x11 ∷ [])

abbrev pub sid_b : List ℕ
sid_b = system_id_to_string (0x11 ∷ 0x11 ∷ 0x11 ∷ 0x11 ∷ 0x11 ∷ 0x12 ∷ [])

abbrev pub start : Daemon
start = idle (record {
  update_db = nil;
  sequence_number = 0;
  config = record { sid = sid_a; interfaces = intf_of "eth0" 1 ∷ [] };
})

pub start-Inv : Inv start
unfolding search
start-Inv = record { db = nil-IsAvl; topology = nil-IsAvl; keyed = λ k lsp e. cc }

abbrev pub answer : Slice
answer = record {
  items = send_hello multicast mac same (intf_of "eth1" 2) sid_b (some (heard (mac "eth0")));
  spare = [];
}

-- The hello goes out, its answer comes in, the own LSP is sent.
abbrev pub events : List Event
events = hello_timer 0 ∷ received 0 answer ∷ update_timer 0 ∷ decide ∷ []

abbrev pub other_lsp : Lsp
other_lsp = record {
  key = 0x06;
  id = 0 ∷ 0 ∷ 0 ∷ 0 ∷ 0 ∷ 0 ∷ 0 ∷ 6 ∷ [];
  core_lsp = record {
    header = record {
      discriminator = 0x83;
      length_pdu = 0;
      protocol_id = 1;
      system_id_length = 0;
      type_pdu = 0x12;
      version = 1;
      reserved = 0;
      maximum_area_addresses = 0;
    };
    lsp_header = record {
      pdu_length = 0 ∷ 0 ∷ [];
      remaining_lifetime = 0 ∷ 0 ∷ [];
      lsp_id = 0 ∷ 0 ∷ 0 ∷ 0 ∷ 0 ∷ 0 ∷ 0 ∷ 6 ∷ [];
      sequence_number = 0 ∷ 0 ∷ 0 ∷ 1 ∷ [];
      checksum = 0 ∷ 0 ∷ [];
      p_att_ol_type = 0;
    };
    first_tlv = [];
  };
}

abbrev pub other : Daemon
other = idle (record {
  update_db = nil;
  sequence_number = 0;
  config = record { sid = sid_b; interfaces = intf_of "eth1" 2 ∷ [] };
})

pub other-Inv : Inv other
unfolding search
other-Inv = record { db = nil-IsAvl; topology = nil-IsAvl; keyed = λ k lsp e. cc }

pub neighbors-Ready : Ready start 0 other 0
unfolding system_id_to_string system_id_to_bytes bytes_equal
neighbors-Ready = record {
  inv_here = start-Inv;
  inv_there = other-Inv;
  intf_here = intf_of "eth0" 1;
  at_here = refl;
  intf_there = intf_of "eth1" 2;
  at_there = refl;
  configured_here = omega arith;
  configured_there = omega arith;
  distinct_here = refl;
  distinct_there = refl;
}

pub other_lsp-IsLsp : IsLsp other_lsp
unfolding lsp_id_to_key
other_lsp-IsLsp = record {
  key_of_id = refl;
  id_of_header = refl;
  sizes = record {
    size_length = refl;
    size_lifetime = refl;
    size_id = refl;
    size_sequence = refl;
    size_checksum = refl;
  };
  tlvs = tt;
}

pub other_lsp-IsSendable : IsSendable other_lsp
other_lsp-IsSendable = record {
  well_formed = other_lsp-IsLsp;
  discriminator = refl;
  type_pdu = refl;
}

-- The LSP is stored and marked for sending on the only interface, which is up.
abbrev pub marked_intf : Intf
marked_intf =
    record (with_neighbor (intf_of "eth0" 1) (0x11 ∷ 0x11 ∷ 0x11 ∷ 0x11 ∷ 0x11 ∷ 0x12 ∷ []) []) {
      lsp_flood_states =
          (6, record { lsp_id_key = 6; lsp_id = other_lsp.id; srm = true; ssn = false }) ∷ [];
    }

abbrev pub marked : Daemon
marked = idle (record {
  update_db = node nil 6 other_lsp 1 nil;
  sequence_number = 0;
  config = record { sid = sid_a; interfaces = marked_intf ∷ [] };
})

search_leaf :
    (k : ℕ) (l : Lsp) → search marked.node.update_db k ≡ some l → (6 ≡ k) × (other_lsp ≡ l)
unfolding search
search_leaf k l e = ground arith

pub marked-Inv : Inv marked
unfolding entries get_height
marked-Inv = record {
  db = record { balanced = omega arith; ordered = omega arith };
  topology = nil-IsAvl;
  keyed = λ k l e. let (p, q) = search_leaf k l e in rw (← q) p;
}

pub marked-IsSound : IsSound marked
unfolding all_routes
marked-IsSound = record {
  inv = marked-Inv;
  fits = record {
    interfaces = omega arith;
    routes = omega arith;
    v4 = ((refl, refl), tt);
    ids = (λ u. refl, tt);
    own_keys = ((refl, tt), tt);
  };
  stored = λ k l e. rw (← (search_leaf k l e).1) other_lsp-IsSendable;
}

pub start-IsSound : IsSound start
unfolding search all_routes
start-IsSound = record {
  inv = start-Inv;
  fits = record {
    interfaces = omega arith;
    routes = omega arith;
    v4 = ((refl, refl), tt);
    ids = (λ u. cc, tt);
    own_keys = (tt, tt);
  };
  stored = λ k l e. cc;
}

pub ifaces-HasRoom : HasRoom same (iface "lo" 9 ∷ iface "eth0" 1 ∷ [])
unfolding intfs_of all_routes new_intf
ifaces-HasRoom = record { interfaces = omega arith; routes = omega arith; v4 = tt }
