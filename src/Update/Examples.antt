-- ===== src/Update/Examples.antt =====
-- The update process on a small node: the theorems at it, and a run.
use go_is_is.Common.{ℕ, ◌≡◌, refl, List, [], ◌∷◌, true, false, none, inl, arith, Returns}
use Prim.Native.Nat.{max}
use Prim.Native.String.{String}
use go_is_is.Avl.{nil, node, search, get_height}
use go_is_is.Avl.Entries.{entries}
use go_is_is.Avl.Contract.{IsAvl}
use go_is_is.SystemId.{lsp_id_to_key}
use go_is_is.Lsp.{Lsp}
use go_is_is.Node.{Node, Intf, AdjState, init, up}
use go_is_is.Update.{process_lsp, update_input, update_round, generate_local_lsp, lsp_frame}
use go_is_is.Update.Database.{
  Processed, run, receive_all, level, received_level, process_lsp-Processed, run_refines,
  run-newest,
}
use go_is_is.Update.Send.{Contains, update_round-Contains}
use go_is_is.Update.Wire.{update_input-lsp_frame}
use go_is_is.Update.Local.{Generated, generate_local_lsp-Generated}

-- The LSP of a key with a sequence number.
abbrev lsp_at : ℕ → ℕ → Lsp
lsp_at k n = record {
  key = k;
  id = 0 ∷ 0 ∷ 0 ∷ 0 ∷ 0 ∷ 0 ∷ 0 ∷ k ∷ [];
  core_lsp = record {
    header = record {
      discriminator = 0x83;
      length_pdu = 0;
      protocol_id = 1;
      system_id_length = 0;
      type_pdu = 0x12;
      version = 1;
      reserved = 0;
      maximum_area_addresses = 0;
    };
    lsp_header = record {
      pdu_length = 0 ∷ 0 ∷ [];
      remaining_lifetime = 0 ∷ 0 ∷ [];
      lsp_id = 0 ∷ 0 ∷ 0 ∷ 0 ∷ 0 ∷ 0 ∷ 0 ∷ k ∷ [];
      sequence_number = 0 ∷ 0 ∷ 0 ∷ n ∷ [];
      checksum = 0 ∷ 0 ∷ [];
      p_att_ol_type = 0;
    };
    first_tlv = [];
  };
}

-- An interface on which the LSP of key 5 is to be sent.
abbrev intf_at : String → AdjState → Intf
intf_at name state = record {
  adj = record {
    state = state;
    neighbor_system_id = 1 ∷ 1 ∷ 1 ∷ 1 ∷ 1 ∷ 2 ∷ [];
    metric = 10;
    intf_name = name;
    neighbor_ip = none;
  };
  name = name;
  prefix = [];
  mask = [];
  routes = [];
  lsp_flood_states =
      (5, record { lsp_id_key = 5; lsp_id = 0 ∷ 5 ∷ []; srm = true; ssn = false }) ∷ [];
}

abbrev start : Node
start = record {
  update_db = node nil 5 (lsp_at 5 1) 1 nil;
  sequence_number = 0;
  config = record {
    sid = b'1' ∷ b'1' ∷ [];
    interfaces = intf_at "eth0" up ∷ intf_at "eth1" init ∷ [];
  };
}

start-IsAvl : IsAvl start.update_db
unfolding entries get_height
start-IsAvl = record { balanced = omega arith; ordered = omega arith }

process_lsp-Processed_example :
    Returns (process_lsp "eth0" (lsp_at 5 2) start) (Processed "eth0" (lsp_at 5 2) start)
process_lsp-Processed_example = process_lsp-Processed "eth0" (lsp_at 5 2) start start-IsAvl

-- Three LSPs on two interfaces, the last one old.
abbrev events : List (String × Lsp)
events = ("eth0", lsp_at 5 4) ∷ ("eth1", lsp_at 6 1) ∷ ("eth1", lsp_at 5 3) ∷ []

run_refines_example :
    Returns
      (run events start)
      λ n'. IsAvl n'.update_db × (search n'.update_db ≡ receive_all (search start.update_db) events)
run_refines_example = run_refines events start start-IsAvl

run-newest_example : Returns (run events start) λ n'.
    level (search n'.update_db 5) ≡ max (level (search start.update_db 5)) (received_level 5 events)
run-newest_example = run-newest events start 5 start-IsAvl

-- The destination of LSPs, and a source address for every interface.
abbrev multicast : List ℕ
multicast = 0x01 ∷ 0x80 ∷ 0xc2 ∷ 0x00 ∷ 0x00 ∷ 0x14 ∷ []

abbrev mac : String → List ℕ
mac name = 0xaa ∷ 0xbb ∷ 0xcc ∷ 0xdd ∷ 0xee ∷ 0xff ∷ []

update_round-Contains_example :
    Contains
      (lsp_frame multicast mac "eth0" (lsp_at 5 1))
      (update_round multicast mac start (intf_at "eth0" up)).0
unfolding search
update_round-Contains_example =
    update_round-Contains multicast mac start (intf_at "eth0" up) 5 (lsp_at 5 1) refl refl
      (inl (refl, refl, refl))

generate_local_lsp-Generated_example : Returns (generate_local_lsp start) (Generated start)
generate_local_lsp-Generated_example = generate_local_lsp-Generated start start-IsAvl

update_input-lsp_frame_example :
    Returns
      (update_input "eth1"
        (record { items = lsp_frame multicast mac "eth0" (lsp_at 6 2); spare = 0 ∷ [] })
        start)
      (Processed "eth1" (lsp_at 6 2) start)
unfolding lsp_id_to_key
update_input-lsp_frame_example =
    update_input-lsp_frame multicast mac "eth0" "eth1" (lsp_at 6 2) (0 ∷ []) start refl refl
      (record {
        key_of_id = refl;
        id_of_header = refl;
        sizes = record {
          size_length = refl;
          size_lifetime = refl;
          size_id = refl;
          size_sequence = refl;
          size_checksum = refl;
        };
        tlvs = tt;
      })
      start-IsAvl
