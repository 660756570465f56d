-- ===== src/Daemon/Exchange.antt =====
-- A node that receives what another node sends.
use go_is_is.Common.{
  ℕ, ◌≡◌, refl, List, [], ◌∷◌, ◌++◌, Bool, false, Option, none, some, ok, arith, length,
  length-append, get_elem?, Returns, Returns-bind,
}
use Prim.Native.String.{String}
use go_is_is.Bytes.{Slice, bytes_equal, copy_into}
use go_is_is.Avl.Contract.{IsAvl}
use go_is_is.SystemId.{system_id_to_string, system_id_to_bytes}
use go_is_is.Tlv.{Tlv, serialize_tlvs, build_ethernet_frame}
use go_is_is.Bytes.Slices.{length-copy_into}
use go_is_is.Lsp.{Lsp, serialize_lsp, write_lsp_header, write_pdu_header}
use go_is_is.Lsp.Codec.{length-write_lsp_header}
use go_is_is.Node.{Node, Intf}
use go_is_is.Hello.{build_l1_hello_pdu, serialize_hello, send_hello, regenerate}
use go_is_is.Hello.Frame.{
  heard, hello_frame, answer_tlvs, send_hello-hello_frame, send_hello-answer,
}
use go_is_is.Hello.Handshake.{with_neighbor, raise, hello_recv-send_hello, hello_recv-hello_frame}
use go_is_is.Update.{lsp_frame, update_input, generate_local_lsp}
use go_is_is.Update.Wire.{IsLsp, update_input-lsp_frame}
use go_is_is.Update.Local.{Generated, generate_local_lsp-Generated}
use go_is_is.Update.Database.{Processed}
use go_is_is.Daemon.{
  Daemon, Output, sent, recv_pdu, hello_chan, update_chan, received, step, set_intf, with_node,
  intf_step, deliver, act,
}
use go_is_is.Daemon.Dispatch.{recv_pdu-update, recv_pdu-hello}

-- What a step on a received LSP leaves.
pub record Taken (name : String) (lsp : Lsp) (d : Daemon) (r : Daemon × List Output) : Type 0 where
  pub spf : Bool
  pub processed : Processed name lsp d.node (r.0.node, spf)
  pub queued : r.0.triggers ≡ d.triggers ++ spf ∷ []
  pub same_topo : r.0.topo ≡ d.topo
  pub silent : r.1 ≡ []

-- What a step on a node that generates its LSP anew leaves.
pub record Renewed (node : Node) (d : Daemon) (r : Daemon × List Output) : Type 0 where
  pub generated : Generated node r.0.node
  pub same_topo : r.0.topo ≡ d.topo
  pub same_triggers : r.0.triggers ≡ d.triggers
  pub silent : r.1 ≡ []

act-Renewed :
    (d : Daemon) (node : Node) (intf : Intf)
    → IsAvl node.update_db
    → Returns (act (with_node d node) intf regenerate) (Renewed node d)
unfolding act
act-Renewed d node intf v =
    Returns-bind (generate_local_lsp node) _ (Generated node) _
      (generate_local_lsp-Generated node v)
      λ m g. record { generated = g; same_topo = refl; same_triggers = refl; silent = refl }

module _ (l1_multicast : List ℕ) (get_mac : String → List ℕ) (to4 : List ℕ → List ℕ) where
  recv_pdu-lsp_frame :
      (sender_mac : String → List ℕ) (name : String) (lsp : Lsp) (spare : List ℕ)
      → length l1_multicast ≡ 6
      → length (sender_mac name) ≡ 6
      → IsLsp lsp
      → lsp.core_lsp.header.discriminator ≡ 0x83
      → lsp.core_lsp.header.type_pdu ≡ 0x12
      → recv_pdu (record { items = lsp_frame l1_multicast sender_mac name lsp; spare = spare })
        ≡ ok update_chan
  unfolding lsp_frame serialize_lsp
  recv_pdu-lsp_frame sender_mac name lsp spare a b w d t =
      recv_pdu-update l1_multicast (sender_mac name) spare lsp.core_lsp.header _ a b d t (
        omega (
          arith,
          length-write_lsp_header lsp.core_lsp.lsp_header w.sizes,
          length-append (write_lsp_header lsp.core_lsp.lsp_header)
              (serialize_tlvs lsp.core_lsp.first_tlv),
        ))

  recv_pdu-send_hello :
      (i : Intf) (sid : List ℕ) (o : Option Tlv) (spare : List ℕ)
      → length l1_multicast ≡ 6
      → length (get_mac i.name) ≡ 6
      → recv_pdu (record { items = send_hello l1_multicast get_mac to4 i sid o; spare = spare })
        ≡ ok hello_chan
  unfolding send_hello serialize_hello build_l1_hello_pdu
  recv_pdu-send_hello i sid o spare a b =
      recv_pdu-hello l1_multicast (get_mac i.name) spare
        (build_l1_hello_pdu (system_id_to_bytes sid)).header _ a b refl refl

  pub step-lsp_frame :
      (sender_mac : String → List ℕ) (out : String) (lsp : Lsp) (spare : List ℕ) (d : Daemon)
      (n : ℕ) (intf : Intf)
      → length l1_multicast ≡ 6
      → length (sender_mac out) ≡ 6
      → IsLsp lsp
      → lsp.core_lsp.header.discriminator ≡ 0x83
      → lsp.core_lsp.header.type_pdu ≡ 0x12
      → get_elem? d.node.config.interfaces n ≡ some intf
      → IsAvl d.node.update_db
      → Returns
          (step l1_multicast get_mac to4 d (
            received n
              (record { items = lsp_frame l1_multicast sender_mac out lsp; spare = spare })))
          (Taken intf.name lsp d)
  unfolding step intf_step deliver
  step-lsp_frame sender_mac out lsp spare d n intf a b w disc type e v =
      let raw : Slice = record {
        items = lsp_frame l1_multicast sender_mac out lsp;
        spare = spare;
      } in
      rw (e, recv_pdu-lsp_frame sender_mac out lsp spare a b w disc type)
        (Returns-bind (update_input intf.name raw d.node) _ (Processed intf.name lsp d.node) _
          (update_input-lsp_frame l1_multicast sender_mac out intf.name lsp spare d.node a b w v)
          λ r p. record {
            spf = r.1;
            processed = p;
            queued = refl;
            same_topo = refl;
            silent = refl;
          })

  -- Addresses have six bytes, the system IDs of the two nodes differ, the database is a balanced
  -- search tree. When the other node's answer to a hello of the interface comes in there, the
  -- adjacency goes up with the other node's system ID and interface address, and the node's LSP is
  -- generated from that and stands in the database, marked for sending on every interface.
  pub step-send_hello :
      (sid : List ℕ) (j : Intf) (spare : List ℕ) (d : Daemon) (n : ℕ) (i : Intf)
      → length l1_multicast ≡ 6
      → length (get_mac i.name) ≡ 6
      → length (get_mac j.name) ≡ 6
      → bytes_equal (system_id_to_string (system_id_to_bytes sid)) d.node.config.sid ≡ false
      → bytes_equal (system_id_to_string (system_id_to_bytes d.node.config.sid)) sid ≡ false
      → get_elem? d.node.config.interfaces n ≡ some i
      → IsAvl d.node.update_db
      → let answer = send_hello l1_multicast get_mac to4 j sid (some (heard (get_mac i.name))) in
        let node =
          set_intf d.node n
            (with_neighbor i (system_id_to_bytes sid) (copy_into 4 (to4 j.prefix))) in
        Returns
          (step l1_multicast get_mac to4 d (received n (record { items = answer; spare = spare })))
          (Renewed node d)
  unfolding step intf_step deliver
  step-send_hello sid j spare d n i a b c other other' e v =
      let up = with_neighbor i (system_id_to_bytes sid) (copy_into 4 (to4 j.prefix)) in
      rw
        (
          e,
          recv_pdu-send_hello j sid (some (heard (get_mac i.name))) spare a c,
          (hello_recv-send_hello l1_multicast get_mac to4 d.node.config.sid sid i j spare a b c
              other' other).1,
        )
        (act-Renewed d (set_intf d.node n up) up v)

  recv_pdu-hello_frame :
      (mac id tlvs spare : List ℕ)
      → length l1_multicast ≡ 6
      → length mac ≡ 6
      → recv_pdu (record { items = hello_frame l1_multicast mac id tlvs; spare = spare })
        ≡ ok hello_chan
  unfolding build_l1_hello_pdu build_ethernet_frame write_pdu_header
  recv_pdu-hello_frame mac id tlvs spare a b =
      recv_pdu-hello l1_multicast mac spare (build_l1_hello_pdu id).header _ a b refl refl

  -- A hello without TLVs comes in on an interface, whatever node has sent it, with the multicast
  -- address, a MAC address and a system ID of six bytes each, and an ID that is not that of the node.
  -- Then exactly one frame is sent, on that interface, and it is byte by byte the answer: a hello
  -- from the interface's MAC address and the node's ID with two TLVs, of type 6 with the MAC address
  -- that was heard and of type 132 with the interface's address. An adjacency that was new is then in
  -- INIT, one in INIT or UP stays so, and nothing else of the node changes.
  pub step-first_hello :
      (mac id spare : List ℕ) (d : Daemon) (n : ℕ) (j : Intf)
      → length l1_multicast ≡ 6
      → length mac ≡ 6
      → length id ≡ 6
      → bytes_equal (system_id_to_string id) d.node.config.sid ≡ false
      → get_elem? d.node.config.interfaces n ≡ some j
      → let answer =
          hello_frame l1_multicast
            (get_mac j.name)
            (system_id_to_bytes d.node.config.sid)
            (answer_tlvs mac (copy_into 4 (to4 j.prefix))) in
        step l1_multicast get_mac to4 d
          (received n (record { items = hello_frame l1_multicast mac id []; spare = spare }))
        ≡ ok (with_node d (set_intf d.node n (raise j)), sent j.name answer ∷ [])
  unfolding step intf_step deliver act
  step-first_hello mac id spare d n j a b c other e = rw (
    e,
    recv_pdu-hello_frame mac id [] spare a b,
    hello_recv-hello_frame l1_multicast get_mac to4 d.node.config.sid mac id j spare a b c other,
  )

  -- The same for the hello that `sendHello` makes without TLVs.
  pub step-send_hello-none :
      (sid : List ℕ) (i : Intf) (spare : List ℕ) (d : Daemon) (n : ℕ) (j : Intf)
      → length l1_multicast ≡ 6
      → length (get_mac i.name) ≡ 6
      → bytes_equal (system_id_to_string (system_id_to_bytes sid)) d.node.config.sid ≡ false
      → get_elem? d.node.config.interfaces n ≡ some j
      → let hello = send_hello l1_multicast get_mac to4 i sid none in
        let answer =
          send_hello l1_multicast get_mac to4 j d.node.config.sid (some (heard (get_mac i.name))) in
        step l1_multicast get_mac to4 d (received n (record { items = hello; spare = spare }))
        ≡ ok (with_node d (set_intf d.node n (raise j)), sent j.name answer ∷ [])
  unfolding serialize_tlvs system_id_to_bytes
  step-send_hello-none sid i spare d n j a b other e =
      rw
        (
          send_hello-hello_frame l1_multicast get_mac to4 sid i none,
          send_hello-answer l1_multicast get_mac to4 d.node.config.sid j (get_mac i.name),
        )
        (step-first_hello (get_mac i.name) (system_id_to_bytes sid) spare d n j a b
          (length-copy_into 6 _) other e)
