-- ===== src/Decision/Examples.antt =====
-- A network A - B - C, seen from A: what `computeSPF` makes of it.
use go_is_is.Common.{
  ℕ, ◌+◌, ◌*◌, ◌^◌, ◌<◌, ◌≡◌, refl, sym, ap, subst, inl, inr, List, [], ◌∷◌, ◌++◌, Option, none,
  some, arith, Returns, All,
}
use go_is_is.Avl.{nil, node, search, max_int, rotate_left}
use go_is_is.Avl.Contract.{nil-IsAvl}
use go_is_is.Avl.Traverse.{nodes}
use go_is_is.Bytes.{bytes_equal}
use go_is_is.Bytes.Equal.{ne_of_bytes_equal}
use go_is_is.SystemId.{system_id_to_string, system_id_to_key}
use go_is_is.SystemId.Keys.{IsSystem}
use go_is_is.Lsp.{Lsp}
use go_is_is.Node.{Node, Intf, Adjacency, up}
use go_is_is.Reach.{lookup_neighbors, lookup_prefixes}
use go_is_is.Decision.{Triple, compute_spf, load_tent, advertised}
use go_is_is.Decision.Graph.{Graph, Edge, IsAdjacent, Walk, first, next}
use go_is_is.Decision.Tent.{is_known}
use go_is_is.Decision.Correct.{Describes, Computed, compute_spf-Computed}
use go_is_is.Decision.Hop.{IsUsable}
use go_is_is.Decision.Routed.{IsRouted, compute_spf-IsRouted}
use go_is_is.Decision.Topology.{IsNearest, compute_spf-Walk}

-- The system ID `1111.1111.110x`.
abbrev id_of : ℕ → List ℕ
id_of x = 0x11 ∷ 0x11 ∷ 0x11 ∷ 0x11 ∷ 0x11 ∷ x ∷ []

abbrev system : ℕ → List ℕ
system x = system_id_to_string (id_of x)

id_of-IsSystem : (x : ℕ) → x < 256 → IsSystem (system x)
id_of-IsSystem x h = record { id = id_of x; six = refl; are_bytes = omega arith; text = refl }

-- One entry of the neighbors TLV, with a metric of one byte.
abbrev entry : ℕ → ℕ → List ℕ
entry x w = 0 ∷ 0 ∷ 0 ∷ w ∷ (id_of x ++ 0 ∷ [])

abbrev lsp_of : ℕ → ℕ → List ℕ → Lsp
lsp_of x n value = record {
  key = 0x1111111111 * 2 ^ 24 + x * 2 ^ 16;
  id = id_of x ++ 0 ∷ 0 ∷ [];
  core_lsp = record {
    header = record {
      discriminator = 0x83;
      length_pdu = 0;
      protocol_id = 1;
      system_id_length = 0;
      type_pdu = 0x12;
      version = 1;
      reserved = 0;
      maximum_area_addresses = 0;
    };
    lsp_header = record {
      pdu_length = 0 ∷ 0 ∷ [];
      remaining_lifetime = 0 ∷ 0 ∷ [];
      lsp_id = id_of x ++ 0 ∷ 0 ∷ [];
      sequence_number = 0 ∷ 0 ∷ 0 ∷ 1 ∷ [];
      checksum = 0 ∷ 0 ∷ [];
      p_att_ol_type = 0;
    };
    first_tlv =
        record {
          type_tlv = 128;
          length_tlv = 12;
          value_tlv = 10 ∷ x ∷ 0 ∷ 0 ∷ 255 ∷ 255 ∷ 0 ∷ 0 ∷ 0 ∷ 0 ∷ 0 ∷ 10 ∷ [];
        }
        ∷ record { type_tlv = 2; length_tlv = n; value_tlv = 0 ∷ value }
        ∷ [];
  };
}

abbrev lsp_a : Lsp
lsp_a = lsp_of 1 12 (entry 2 10)

abbrev lsp_b : Lsp
lsp_b = lsp_of 2 23 (entry 1 10 ++ entry 3 10)

abbrev lsp_c : Lsp
lsp_c = lsp_of 3 12 (entry 2 10)

abbrev intf_b : Intf
intf_b = record {
  adj = record {
    state = up;
    neighbor_system_id = id_of 2;
    metric = 10;
    intf_name = "eth0";
    neighbor_ip = some (10 ∷ 0 ∷ 0 ∷ 2 ∷ []);
  };
  name = "eth0";
  prefix = 10 ∷ 0 ∷ 0 ∷ 1 ∷ [];
  mask = [];
  routes = [];
  lsp_flood_states = [];
}

abbrev intfs : List Intf
intfs = intf_b ∷ []

abbrev node_a : Node
node_a = record {
  update_db =
      node (node nil lsp_a.key lsp_a 1 nil) lsp_b.key lsp_b 2 (node nil lsp_c.key lsp_c 1 nil);
  sequence_number = 1;
  config = record { sid = system 1; interfaces = intfs };
}

abbrev graph : Graph
graph =
    (
      system 2,
      record { system_id = system 1; metric = 10 }
          ∷ record { system_id = system 3; metric = 10 }
          ∷ [],
    )
    ∷ (system 3, record { system_id = system 2; metric = 10 } ∷ [])
    ∷ []

Edge-metric : (u v : List ℕ) (w : ℕ) → Edge graph u v w → w ≡ 10
Edge-metric u v w (inl (_, inl (_, e))) = sym e
Edge-metric u v w (inl (_, inr (inl (_, e)))) = sym e
Edge-metric u v w (inl (_, inr (inr e))) = absurd e
Edge-metric u v w (inr (inl (_, inl (_, e)))) = sym e
Edge-metric u v w (inr (inl (_, inr e))) = absurd e
Edge-metric u v w (inr (inr e)) = absurd e

IsAdjacent-metric : (v : List ℕ) (w : ℕ) → IsAdjacent intfs v w → w ≡ 10
IsAdjacent-metric v w (inl (_, _, e)) = sym e
IsAdjacent-metric v w (inr e) = absurd e

IsUsable-metric : (a : Adjacency) → IsUsable intfs a → a.metric ≡ 10
IsUsable-metric a (inl (_, e)) = ap (λ (b : Adjacency). b.metric) (sym e)
IsUsable-metric a (inr e) = absurd e

node_a-Describes : Describes node_a (system 1) intfs graph 10
unfolding nodes system_id_to_string bytes_equal load_tent advertised lookup_neighbors
    lookup_prefixes
node_a-Describes = record {
  own = record {
    before = [];
    own = record { left = nil; key = lsp_a.key; payload = lsp_a; height = 1; right = nil };
    after =
        record {
          left = node nil lsp_a.key lsp_a 1 nil;
          key = lsp_b.key;
          payload = lsp_b;
          height = 2;
          right = node nil lsp_c.key lsp_c 1 nil;
        }
        ∷ record { left = nil; key = lsp_c.key; payload = lsp_c; height = 1; right = nil }
        ∷ [];
    split = refl;
    ours = refl;
    others = (
      ne_of_bytes_equal (system 2) (system 1) refl,
      (ne_of_bytes_equal (system 3) (system 1) refl, tt),
    );
  };
  reads = (refl, refl, (refl, refl, tt));
  light = record {
    edges = λ u v w e. omega (arith, Edge-metric u v w e);
    adjacencies = λ v w e. omega (arith, IsAdjacent-metric v w e);
  };
  small = omega arith;
  prefixes = (tt, (tt, (tt, tt)));
}

compute_spf-Computed_example :
    Returns (compute_spf node_a nil (system 1) intfs) (Computed node_a (system 1) intfs graph nil)
compute_spf-Computed_example =
    compute_spf-Computed node_a nil (system 1) intfs graph 10 node_a-Describes nil-IsAvl

Edge-IsSystem : (u v : List ℕ) (w : ℕ) → Edge graph u v w → IsSystem v
Edge-IsSystem u v w (inl (_, inl (e, _))) = subst IsSystem e (id_of-IsSystem 1 (omega arith))
Edge-IsSystem u v w (inl (_, inr (inl (e, _)))) = subst IsSystem e (id_of-IsSystem 3 (omega arith))
Edge-IsSystem u v w (inl (_, inr (inr e))) = absurd e
Edge-IsSystem u v w (inr (inl (_, inl (e, _)))) = subst IsSystem e (id_of-IsSystem 2 (omega arith))
Edge-IsSystem u v w (inr (inl (_, inr e))) = absurd e
Edge-IsSystem u v w (inr (inr e)) = absurd e

IsAdjacent-IsSystem : (v : List ℕ) (w : ℕ) → IsAdjacent intfs v w → IsSystem v
IsAdjacent-IsSystem v w (inl (_, e, _)) = subst IsSystem e (id_of-IsSystem 2 (omega arith))
IsAdjacent-IsSystem v w (inr e) = absurd e

-- C is two hops away, at distance 20.
Walk-to_c : Walk intfs graph (system 1) (system 3) 20
Walk-to_c =
    next (system 2) 10 10 (first (inl (refl, refl, refl))) (inl (refl, inr (inl (refl, refl)))) refl

compute_spf-Walk_example : Returns (compute_spf node_a nil (system 1) intfs) λ r.
    (t : Triple) × (search r.0 (system_id_to_key (system 3)) ≡ some t)
    × IsNearest (system 1) intfs graph (system 3) t
unfolding load_tent is_known bytes_equal system_id_to_string
compute_spf-Walk_example =
    compute_spf-Walk node_a nil (system 1) intfs graph 10 (system 3) 20 node_a-Describes nil-IsAvl
      (refl, (refl, tt))
      (record {
        of_local = id_of-IsSystem 1 (omega arith);
        of_adjacent = IsAdjacent-IsSystem;
        of_edge = Edge-IsSystem;
      })
      Walk-to_c

compute_spf-IsRouted_example :
    Returns
      (compute_spf node_a nil (system 1) intfs)
      λ r. All (IsRouted node_a intfs graph (system 1)) r.1
unfolding load_tent is_known bytes_equal system_id_to_string
compute_spf-IsRouted_example =
    compute_spf-IsRouted node_a nil (system 1) intfs graph 10 10 node_a-Describes nil-IsAvl
      (refl, (refl, tt)) (record { edges = Edge-metric; adjacencies = IsUsable-metric })

-- The distance at which a run has stored a system, and the routes that it asks for.
abbrev distance_of : Option Triple → ℕ
distance_of none = 0
distance_of (some t) = t.distance

network_run : Returns (compute_spf node_a nil (system 1) intfs) λ r.
    (distance_of (search r.0 (system_id_to_key (system 3))) ≡ 20)
    × (r.1
        ≡ (
          record { ip = 10 ∷ 2 ∷ 0 ∷ 0 ∷ []; ip_mask = 255 ∷ 255 ∷ 0 ∷ 0 ∷ [] },
          10 ∷ 0 ∷ 0 ∷ 2 ∷ [],
        )
          ∷ (
            record { ip = 10 ∷ 3 ∷ 0 ∷ 0 ∷ []; ip_mask = 255 ∷ 255 ∷ 0 ∷ 0 ∷ [] },
            10 ∷ 0 ∷ 0 ∷ 2 ∷ [],
          )
          ∷ [])
unfolding compute_spf search max_int rotate_left
network_run = (refl, refl)
