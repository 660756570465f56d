-- ===== src/Hello/Frame.antt =====
-- What a hello is on the wire, and what is read of it.
use go_is_is.Common.{
  ℕ, ◌≡◌, refl, sym, List, [], ◌∷◌, ◌++◌, append_assoc, true, Option, none, some, ok, arith, leb,
  Returns, Returns-cases, length, length-append, take, drop, All, replicate,
}
use Prim.Native.String.{String}
use go_is_is.Bytes.{Slice, slice, copy_into}
use go_is_is.Bytes.Equal.{bytes_equal_refl}
use go_is_is.Bytes.Slices.{slice-append, drop-length, take-length}
use go_is_is.Tlv.{Tlv, parse_tlvs, serialize_tlvs, build_ethernet_frame}
use go_is_is.Tlv.RoundTrip.{IsWellFormed, parse_tlvs-serialize_tlvs}
use go_is_is.Bytes.Slices.{length-copy_into}
use go_is_is.SystemId.{system_id_to_bytes}
use go_is_is.Lsp.{write_pdu_header, after_read}
use go_is_is.Lsp.Codec.{drop_next, read_bytes-append}
use go_is_is.Node.{Intf}
use go_is_is.Hello.{
  HelloPdu, HelloResponse, build_l1_hello_pdu, write_hello_header, serialize_hello,
  deserialize_hello, send_hello, recv_hello, hello_tlvs, get_interface_tlv,
}

-- What is read of a hello: the source's system ID and the TLVs.
abbrev pub IsHello : List ℕ → List Tlv → HelloPdu → Type 0
IsHello id ts pdu = (pdu.lan_hello_header.source_system_id ≡ id) × (pdu.first_tlv ≡ ts)

deserialize_source :
    (dst src common header id spare : List ℕ) (ts : List Tlv)
    → length dst ≡ 6
    → length src ≡ 6
    → length common ≡ 8
    → length header ≡ 20
    → take 6 (drop 1 header) ≡ id
    → All IsWellFormed ts
    → Returns
        (deserialize_hello (record {
          items = build_ethernet_frame dst src (common ++ (header ++ serialize_tlvs ts));
          spare = spare;
        }))
        (IsHello id ts)
unfolding deserialize_hello after_read build_ethernet_frame
deserialize_source dst src common header id spare ts a b d e f w =
    let tail = serialize_tlvs ts in
    let payload = common ++ (header ++ tail) in
    let typed = 0x08 ∷ 0x00 ∷ payload in
    let bytes = dst ++ (src ++ typed) in
    let behind : drop 14 bytes ≡ payload =
      drop_next 12 2 bytes (0x08 ∷ 0x00 ∷ []) payload refl
        (drop_next 6 6 bytes src typed b (drop_next 0 6 bytes dst (src ++ typed) a refl)) in
    let long : leb 14 (length bytes) ≡ true =
      ground (arith, length-append dst (src ++ typed), length-append src typed) in
    let pre = dst ++ (src ++ 0x08 ∷ 0x00 ∷ (common ++ header)) in
    let at : length pre ≡ 42 = omega (
      arith,
      length-append dst (src ++ 0x08 ∷ 0x00 ∷ (common ++ header)),
      length-append src (0x08 ∷ 0x00 ∷ (common ++ header)),
      length-append common header,
    ) in
    let parsed : parse_tlvs (record { items = bytes; spare = spare }) 42 ≡ ok ts =
      rw at at (simp append_assoc at (parse_tlvs-serialize_tlvs ts pre spare w)) in
    rw (long, parsed)
      (
        rw
            (
              behind,
              drop-length common (header ++ tail) 8 (sym d),
              read_bytes-append header tail 20 e,
            )
            f,
        refl,
      )

-- The neighbors TLV with a MAC address.
abbrev pub heard : List ℕ → Tlv
heard mac = record { type_tlv = 6; length_tlv = 6; value_tlv = mac }

-- A hello on the wire, byte by byte: to the multicast address, from a MAC address and a system ID,
-- with the bytes of its TLVs.
abbrev pub hello_frame : List ℕ → List ℕ → List ℕ → List ℕ → List ℕ
hello_frame dst mac id tlvs =
    dst
    ++ (mac
        ++ (0x08
            ∷ 0x00
            ∷ 0x83
            ∷ 0x00
            ∷ 0x01
            ∷ 0x00
            ∷ 0x0f
            ∷ 0x01
            ∷ 0x00
            ∷ 0x00
            ∷ 0x01
            ∷ (id
                ++ (0x3c ∷ 0x00 ∷ 0x00 ∷ 0x00 ∷ 0x00 ∷ 0x40 ∷ 0x00 ∷ 0x00 ∷ 0x00 ∷ 0x00 ∷ 0x00
                    ∷ 0x00 ∷ 0x00 ∷ tlvs))))

-- The TLVs of an answer: the MAC address that was heard, and the address of the interface.
abbrev pub answer_tlvs : List ℕ → List ℕ → List ℕ
answer_tlvs mac ip = 0x06 ∷ 0x06 ∷ (mac ++ (0x84 ∷ 0x04 ∷ (ip ++ [])))

module _ (l1_multicast : List ℕ) (get_mac : String → List ℕ) (to4 : List ℕ → List ℕ) where
  pub send_hello-hello_frame :
      (sid : List ℕ) (i : Intf) (o : Option Tlv)
      → send_hello l1_multicast get_mac to4 i sid o
        ≡ hello_frame l1_multicast
            (get_mac i.name)
            (system_id_to_bytes sid)
            (serialize_tlvs (hello_tlvs l1_multicast get_mac to4 i o))
  unfolding send_hello build_l1_hello_pdu serialize_hello write_hello_header build_ethernet_frame
      write_pdu_header
  send_hello-hello_frame sid i o = simp append_assoc

  -- What a node sends when it has heard a MAC address.
  pub send_hello-answer :
      (sid : List ℕ) (i : Intf) (mac : List ℕ)
      → send_hello l1_multicast get_mac to4 i sid (some (heard mac))
        ≡ hello_frame l1_multicast
            (get_mac i.name)
            (system_id_to_bytes sid)
            (answer_tlvs mac (copy_into 4 (to4 i.prefix)))
  unfolding serialize_tlvs get_interface_tlv
  send_hello-answer sid i mac = send_hello-hello_frame sid i (some (heard mac))

  -- A response with the given source address and contents.
  abbrev pub IsResponse : List ℕ → List ℕ → List Tlv → Option HelloResponse → Type 0
  IsResponse mac id ts none = ⊥
  IsResponse mac id ts (some rsp) = (rsp.source_mac ≡ mac) × IsHello id ts rsp.lan_hello_pdu

  recv_hello-IsResponse :
      (raw : Slice) (mac id : List ℕ) (ts : List Tlv)
      → slice raw 0 6 ≡ ok l1_multicast
      → slice raw 6 6 ≡ ok mac
      → Returns (deserialize_hello raw) (IsHello id ts)
      → Returns (recv_hello l1_multicast get_mac to4 raw) (IsResponse mac id ts)
  unfolding recv_hello
  recv_hello-IsResponse raw mac id ts a b r =
      let (pdu, e, h) = Returns-cases (deserialize_hello raw) _ r in
      rw (a, bytes_equal_refl l1_multicast, e, b) (refl, h)

  pub recv-hello_frame :
      (mac id spare : List ℕ) (ts : List Tlv)
      → length l1_multicast ≡ 6
      → length mac ≡ 6
      → length id ≡ 6
      → All IsWellFormed ts
      → Returns
          (recv_hello l1_multicast get_mac to4
            (record { items = hello_frame l1_multicast mac id (serialize_tlvs ts); spare = spare }))
          (IsResponse mac id ts)
  unfolding build_ethernet_frame
  recv-hello_frame mac id spare ts a b size w =
      let common : List ℕ = 0x83 ∷ 0x00 ∷ 0x01 ∷ 0x00 ∷ 0x0f ∷ 0x01 ∷ 0x00 ∷ 0x00 ∷ [] in
      let last : List ℕ = 0x3c ∷ 0x00 ∷ 0x00 ∷ 0x00 ∷ 0x00 ∷ 0x40 ∷ replicate 7 0x00 in
      let header : List ℕ = 0x01 ∷ (id ++ last) in
      let typed = 0x08 ∷ 0x00 ∷ (common ++ (0x01 ∷ (id ++ (last ++ serialize_tlvs ts)))) in
      recv_hello-IsResponse _ mac id ts
        (slice-append [] l1_multicast (mac ++ typed) spare 0 6 refl (sym a))
        (slice-append l1_multicast mac typed spare 6 6 (sym a) (sym b))
        (simp append_assoc at (
          deserialize_source l1_multicast mac common header id spare ts a b refl
            (omega (arith, size, length-append id last)) (take-length id last 6 (sym size)) w))

  pub recv-send_hello :
      (sid : List ℕ) (i : Intf) (o : Option Tlv) (spare : List ℕ)
      → length l1_multicast ≡ 6
      → length (get_mac i.name) ≡ 6
      → All IsWellFormed (hello_tlvs l1_multicast get_mac to4 i o)
      → Returns
          (recv_hello l1_multicast get_mac to4
            (record { items = send_hello l1_multicast get_mac to4 i sid o; spare = spare }))
          (IsResponse
            (get_mac i.name)
            (system_id_to_bytes sid)
            (hello_tlvs l1_multicast get_mac to4 i o))
  unfolding system_id_to_bytes
  recv-send_hello sid i o spare a b w = rw (send_hello-hello_frame sid i o) (
      recv-hello_frame (get_mac i.name) (system_id_to_bytes sid) spare
        (hello_tlvs l1_multicast get_mac to4 i o) a b (length-copy_into 6 _) w)
