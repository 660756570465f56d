-- ===== src/Report/Examples.antt =====
-- Reports at small inputs: a database that an empty TLV makes unreadable, and two texts.
use go_is_is.Common.{ℕ, ◌≡◌, refl, List, [], ◌∷◌, none, ok, arith}
use go_is_is.Avl.{nil, node}
use go_is_is.Avl.Traverse.{nodes}
use go_is_is.Tlv.{Tlv}
use go_is_is.Lsp.{Lsp}
use go_is_is.Node.{Node, Intf, Adjacency, IpNet, init, up}
use go_is_is.Reach.{lookup_neighbors}
use go_is_is.Report.{codes, triple_string, get_lsp, get_intf}
use go_is_is.Report.Dump.{is_ok, none_empty, get_lsp-is_ok}

-- Stand-ins for the texts that net makes.
abbrev net_text : IpNet → List ℕ
net_text p = p.ip

abbrev same : List ℕ → List ℕ
same bytes = bytes

abbrev lsp_with : List Tlv → Lsp
lsp_with ts = record {
  key = 5;
  id = 0 ∷ 0 ∷ 0 ∷ 0 ∷ 0 ∷ 0 ∷ 0 ∷ 5 ∷ [];
  core_lsp = record {
    header = record {
      discriminator = 0x83;
      length_pdu = 0;
      protocol_id = 1;
      system_id_length = 0;
      type_pdu = 0x12;
      version = 1;
      reserved = 0;
      maximum_area_addresses = 0;
    };
    lsp_header = record {
      pdu_length = 0 ∷ 0 ∷ [];
      remaining_lifetime = 0 ∷ 0 ∷ [];
      lsp_id = 0 ∷ 0 ∷ 0 ∷ 0 ∷ 0 ∷ 0 ∷ 0 ∷ 5 ∷ [];
      sequence_number = 0 ∷ 0 ∷ 0 ∷ 1 ∷ [];
      checksum = 0 ∷ 0 ∷ [];
      p_att_ol_type = 0;
    };
    first_tlv = ts;
  };
}

abbrev intf_with : Adjacency → Intf
intf_with a = record {
  adj = a;
  name = "eth0";
  prefix = codes "10.0.0.1";
  mask = codes "ffffff00";
  routes = [];
  lsp_flood_states = [];
}

abbrev adjacency : Adjacency
adjacency = record {
  state = up;
  neighbor_system_id = 0x11 ∷ 0x11 ∷ 0x11 ∷ 0x11 ∷ 0x11 ∷ 0x12 ∷ [];
  metric = 10;
  intf_name = "eth0";
  neighbor_ip = none;
}

abbrev node_with : Lsp → Node
node_with lsp = record {
  update_db = node nil 5 lsp 1 nil;
  sequence_number = 0;
  config = record {
    sid = [];
    interfaces = intf_with adjacency ∷ intf_with (record adjacency { state = init }) ∷ [];
  };
}

abbrev empty_tlv : Tlv
empty_tlv = record { type_tlv = 2; length_tlv = 0; value_tlv = [] }

abbrev prefix_tlv : Tlv
prefix_tlv = record {
  type_tlv = 128;
  length_tlv = 12;
  value_tlv = 10 ∷ 2 ∷ 0 ∷ 0 ∷ 255 ∷ 255 ∷ 0 ∷ 0 ∷ 0 ∷ 0 ∷ 0 ∷ 10 ∷ [];
}

get_lsp-is_ok_example :
    is_ok (get_lsp net_text same same (node_with (lsp_with (prefix_tlv ∷ empty_tlv ∷ []))))
    ≡ none_empty (nodes (node_with (lsp_with (prefix_tlv ∷ empty_tlv ∷ []))).update_db)
unfolding nodes
get_lsp-is_ok_example =
    get_lsp-is_ok net_text same same (node_with (lsp_with (prefix_tlv ∷ empty_tlv ∷ [])))
      (((refl, omega arith), ((refl, omega arith), tt)), tt)

-- The decision process reads the same TLV without a panic.
no_neighbors : lookup_neighbors (empty_tlv ∷ []) ≡ ok []
unfolding lookup_neighbors
no_neighbors = refl

origin_text :
    triple_string (record { system_id = codes "1111.1111.1111"; distance = 120; adj = none })
    ≡ codes "SystemID 1111.1111.1111 Distance 120 Next Hop <nil>"
unfolding triple_string
origin_text = refl

intf_texts :
    get_intf net_text same same (node_with (lsp_with []))
    ≡ codes "10.0.0.1 ffffff00, adjacency UP with 1111.1111.1112"
      ∷ codes "10.0.0.1 ffffff00, adjacency INIT"
      ∷ []
unfolding get_intf
intf_texts = refl
