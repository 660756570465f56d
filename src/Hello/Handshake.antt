-- ===== src/Hello/Handshake.antt =====
-- Two exchanged hellos bring an adjacency up.
use go_is_is.Common.{
  ℕ, ◌≡◌, refl, List, [], ◌∷◌, false, Option, none, some, ok, ap, ◌∙◌, Bool-cases, inl, inr,
  if◌then◌else◌, Returns-cases, length,
}
use Prim.Native.String.{String}
use go_is_is.Bytes.{Slice, copy_into, bytes_equal}
use go_is_is.Bytes.Equal.{bytes_equal_refl}
use go_is_is.Bytes.Slices.{copy_into_self}
use go_is_is.Tlv.{serialize_tlvs}
use go_is_is.Bytes.Slices.{length-copy_into}
use go_is_is.SystemId.{system_id_to_string, system_id_to_bytes}
use go_is_is.Node.{Intf, AdjState, new, init, up, is_up}
use go_is_is.Hello.Frame.{
  heard, hello_frame, answer_tlvs, IsResponse, recv-hello_frame, recv-send_hello, send_hello-answer,
}
use go_is_is.Hello.{
  HelloResponse, reply, regenerate, send_hello, recv_hello, hello_recv, process_hello, answer_hello,
  establish, initialize, get_interface_tlv,
}

-- The interface with its adjacency up.
abbrev pub with_neighbor : Intf → List ℕ → List ℕ → Intf
with_neighbor i id ip = record i {
  adj = record i.adj { state = up; metric = 10; neighbor_system_id = id; neighbor_ip = some ip };
}

-- The state of an adjacency on which a hello has come in.
abbrev pub raised : AdjState → AdjState
raised new = init
raised init = init
raised up = up

-- The interface with the state of its adjacency raised.
abbrev pub raise : Intf → Intf
raise i = record i { adj = record i.adj { state = raised i.adj.state } }

raised-eq : (s : AdjState) → (if is_up s then s else init) ≡ raised s
raised-eq new = refl
raised-eq init = refl
raised-eq up = refl

initialize-eq : (i : Intf) → initialize i ≡ raise i
initialize-eq i =
    both
    ∙ ap (λ (s : AdjState). record i { adj = record i.adj { state = s } }) (raised-eq i.adj.state)
  where
    both : initialize i ≡ record i {
      adj = record i.adj { state = if is_up i.adj.state then i.adj.state else init };
    }
    both = elim (Bool-cases (is_up i.adj.state)) [ inl e ↦ rw e refl | inr e ↦ rw e refl ]

module _ (l1_multicast : List ℕ) (get_mac : String → List ℕ) (to4 : List ℕ → List ℕ) where
  first_response :
      (sid id mac : List ℕ) (j : Intf) (o : Option HelloResponse)
      → bytes_equal (system_id_to_string id) sid ≡ false
      → IsResponse l1_multicast get_mac to4 mac id [] o
      → process_hello l1_multicast get_mac to4 sid j o
        ≡ ok (raise j, reply (send_hello l1_multicast get_mac to4 j sid (some (heard mac))))
  unfolding process_hello answer_hello
  first_response sid id mac j none other r = absurd r
  first_response sid id mac j (some rsp) other (e, (f, g)) =
      rw (f, other, g, e, initialize-eq j) refl

  reply_response :
      (sid id mac ip : List ℕ) (i : Intf) (o : Option HelloResponse)
      → bytes_equal (system_id_to_string id) sid ≡ false
      → length id ≡ 6
      → length ip ≡ 4
      → IsResponse l1_multicast get_mac to4 mac id
          (heard (get_mac i.name) ∷ record { type_tlv = 132; length_tlv = 4; value_tlv = ip } ∷ [])
          o
      → process_hello l1_multicast get_mac to4 sid i o ≡ ok (with_neighbor i id ip, regenerate)
  unfolding process_hello answer_hello establish
  reply_response sid id mac ip i none other m n r = absurd r
  reply_response sid id mac ip i (some rsp) other m n (e, (f, g)) =
      rw
        (
          f,
          other,
          g,
          bytes_equal_refl (get_mac i.name),
          copy_into_self id 6 m,
          copy_into_self ip 4 n,
        )
        refl

  -- A hello without TLVs, of any sender.
  pub hello_recv-hello_frame :
      (sid mac id : List ℕ) (j : Intf) (spare : List ℕ)
      → length l1_multicast ≡ 6
      → length mac ≡ 6
      → length id ≡ 6
      → bytes_equal (system_id_to_string id) sid ≡ false
      → hello_recv l1_multicast get_mac to4 sid j
          (record { items = hello_frame l1_multicast mac id []; spare = spare })
        ≡ ok (
          raise j,
          reply (
              hello_frame l1_multicast
                (get_mac j.name)
                (system_id_to_bytes sid)
                (answer_tlvs mac (copy_into 4 (to4 j.prefix)))),
        )
  unfolding hello_recv serialize_tlvs
  hello_recv-hello_frame sid mac id j spare a b size other =
      let raw : Slice = record { items = hello_frame l1_multicast mac id []; spare = spare } in
      let (o, e, r) =
        Returns-cases (recv_hello l1_multicast get_mac to4 raw) _
          (recv-hello_frame l1_multicast get_mac to4 mac id spare [] a b size tt) in
      rw (e, ← send_hello-answer l1_multicast get_mac to4 sid j mac)
        (first_response sid id mac j o other r)

  -- For addresses of six bytes and nodes of different system IDs: the node with interface `j`, that
  -- hears the hello without TLVs of the node with interface `i`, answers it with that one's MAC
  -- address and leaves its adjacency at least initialized; and the node with `i`, that hears the
  -- answer, brings its adjacency up, with the other one's system ID and interface address, and
  -- generates its LSP anew.
  pub hello_recv-send_hello :
      (sid sid' : List ℕ) (i j : Intf) (spare : List ℕ)
      → length l1_multicast ≡ 6
      → length (get_mac i.name) ≡ 6
      → length (get_mac j.name) ≡ 6
      → bytes_equal (system_id_to_string (system_id_to_bytes sid)) sid' ≡ false
      → bytes_equal (system_id_to_string (system_id_to_bytes sid')) sid ≡ false
      → let answer = send_hello l1_multicast get_mac to4 j sid' (some (heard (get_mac i.name))) in
        (hello_recv l1_multicast get_mac to4 sid' j
            (record { items = send_hello l1_multicast get_mac to4 i sid none; spare = spare })
          ≡ ok (raise j, reply answer))
        × (hello_recv l1_multicast get_mac to4 sid i (record { items = answer; spare = spare })
            ≡ ok (
              with_neighbor i (system_id_to_bytes sid') (copy_into 4 (to4 j.prefix)),
              regenerate,
            ))
  unfolding hello_recv get_interface_tlv system_id_to_bytes
  hello_recv-send_hello sid sid' i j spare a b c other other' =
      let answer = send_hello l1_multicast get_mac to4 j sid' (some (heard (get_mac i.name))) in
      let hello = send_hello l1_multicast get_mac to4 i sid none in
      let (o, e, r) =
        Returns-cases
          (recv_hello l1_multicast get_mac to4 (record { items = hello; spare = spare })) _
          (recv-send_hello l1_multicast get_mac to4 sid i none spare a b tt) in
      let size = length-copy_into 4 (to4 j.prefix) in
      let (o', e', r') =
        Returns-cases
          (recv_hello l1_multicast get_mac to4 (record { items = answer; spare = spare })) _
          (recv-send_hello l1_multicast get_mac to4 sid' j (some (heard (get_mac i.name))) spare a c
            (b, (size, tt))) in
      (
        rw e (first_response sid' (system_id_to_bytes sid) (get_mac i.name) j o other r),
        rw e' (
            reply_response sid (system_id_to_bytes sid') (get_mac j.name)
              (copy_into 4 (to4 j.prefix)) i o' other' (length-copy_into 6 _) size r'),
      )
