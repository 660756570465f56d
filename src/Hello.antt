-- ===== src/Hello.antt =====
-- hello.go: the hello packets and the adjacency that they establish on an interface.
--
-- The IS neighbors TLV of a hello holds the MAC address of the node that is heard.
pub mod Frame
pub mod Handshake
pub mod Ends
mod Examples
use go_is_is.Common.{
  ℕ, zero, suc, ◌+◌, List, [], ◌∷◌, ◌++◌, Bool, true, false, Option, none, some, Go, ok, panic,
  ◌>>=◌, leb, if◌then◌else◌, length, take, drop, replicate,
}
use Prim.Native.String.{String}
use go_is_is.Bytes.{Slice, slice, copy_into, bytes_equal}
use go_is_is.Tlv.{Tlv, parse_tlvs, serialize_tlvs, build_ethernet_frame}
use go_is_is.SystemId.{system_id_to_string, system_id_to_bytes}
use go_is_is.Lsp.{PduHeader, write_pdu_header, read_bytes, after_read}
use go_is_is.Node.{Intf, Adjacency, AdjState, new, init, up, is_up}

pub record HelloHeader : Type 0 where
  pub circuit_type : ℕ
  pub source_system_id : List ℕ
  pub holding_time : List ℕ
  pub length_pdu : List ℕ
  pub priority : List ℕ
  pub lan_dis : List ℕ

pub record HelloPdu : Type 0 where
  pub header : PduHeader
  pub lan_hello_header : HelloHeader
  pub first_tlv : List Tlv

-- The field `intf` of the source is never set.
pub record HelloResponse : Type 0 where
  pub lan_hello_pdu : HelloPdu
  pub source_mac : List ℕ

unfoldable pub build_l1_hello_pdu : List ℕ → HelloPdu
build_l1_hello_pdu src_system_id = record {
  header = record {
    discriminator = 0x83;
    length_pdu = 0x00;
    protocol_id = 0x01;
    system_id_length = 0x00;
    type_pdu = 0x0f;
    version = 0x01;
    reserved = 0x00;
    maximum_area_addresses = 0x00;
  };
  lan_hello_header = record {
    circuit_type = 0x01;
    source_system_id = src_system_id;
    holding_time = 0x3c ∷ 0x00 ∷ [];
    length_pdu = 0x00 ∷ 0x00 ∷ [];
    priority = 0x00 ∷ 0x40 ∷ [];
    lan_dis = replicate 7 0x00;
  };
  first_tlv = [];
}

unfoldable pub write_hello_header : HelloHeader → List ℕ
write_hello_header h =
    h.circuit_type
    ∷ (h.source_system_id ++ (h.holding_time ++ (h.length_pdu ++ (h.priority ++ h.lan_dis))))

unfoldable pub serialize_hello : HelloPdu → List ℕ
unfolding write_pdu_header write_hello_header serialize_tlvs
serialize_hello pdu =
    write_pdu_header pdu.header
    ++ (write_hello_header pdu.lan_hello_header ++ serialize_tlvs pdu.first_tlv)

-- Of the headers only the source's system ID is kept, all else is zero. The sizes are 14 for the
-- Ethernet header, 8 for `IsisPDUHeader` and 20 for `IsisLanHelloHeader`.
unfoldable pub deserialize_hello : Slice → Go HelloPdu
unfolding read_bytes after_read parse_tlvs
deserialize_hello raw =
    let hello_header = read_bytes 20 (after_read 8 (drop 14 raw.items)) in
    if leb 14 (length raw.items)
    then (parse_tlvs raw 42 >>= λ tlvs. ok (record {
      header = record {
        discriminator = 0;
        length_pdu = 0;
        protocol_id = 0;
        system_id_length = 0;
        type_pdu = 0;
        version = 0;
        reserved = 0;
        maximum_area_addresses = 0;
      };
      lan_hello_header = record {
        circuit_type = 0;
        source_system_id = take 6 (drop 1 hello_header);
        holding_time = replicate 2 0;
        length_pdu = replicate 2 0;
        priority = replicate 2 0;
        lan_dis = replicate 7 0;
      };
      first_tlv = tlvs;
    }))
    else panic

-- What a round of `isisHelloRecv` does besides changing the adjacency: nothing, send a frame, or
-- generate the local LSP anew.
pub data Action : Type 0 where
  nothing : Action
  reply : List ℕ → Action
  regenerate : Action

abbrev pub initialize : Intf → Intf
initialize intf =
    if is_up intf.adj.state then intf else record intf { adj = record intf.adj { state = init } }

-- Our MAC address came back; without a second TLV a nil pointer is dereferenced.
unfoldable pub establish : Intf → HelloResponse → List Tlv → Go (Intf × Action)
unfolding copy_into
establish intf rsp [] = panic
establish intf rsp (second ∷ ts) = ok (
  record intf {
    adj = record intf.adj {
      state = up;
      metric = 10;
      neighbor_system_id = copy_into 6 rsp.lan_hello_pdu.lan_hello_header.source_system_id;
      neighbor_ip = some (copy_into 4 second.value_tlv);
    };
  },
  regenerate,
)

-- `net.IP.To4` is a parameter.
module _ (l1_multicast : List ℕ) (get_mac : String → List ℕ) (to4 : List ℕ → List ℕ) where
  unfoldable pub get_interface_tlv : Intf → Tlv
  unfolding copy_into
  get_interface_tlv intf = record {
    type_tlv = 132;
    length_tlv = 4;
    value_tlv = copy_into 4 (to4 intf.prefix);
  }

  abbrev pub hello_tlvs : Intf → Option Tlv → List Tlv
  hello_tlvs intf none = []
  hello_tlvs intf (some t) = t ∷ get_interface_tlv intf ∷ []

  -- The frame that `sendHello` puts on the send channel.
  unfoldable pub send_hello : Intf → List ℕ → Option Tlv → List ℕ
  unfolding build_ethernet_frame serialize_hello build_l1_hello_pdu system_id_to_bytes
  send_hello intf sid neighbors_tlv = build_ethernet_frame l1_multicast (get_mac intf.name) (
      serialize_hello (record (build_l1_hello_pdu (system_id_to_bytes sid)) {
        first_tlv = hello_tlvs intf neighbors_tlv;
      }))

  -- `none` is the nil of a frame to another address.
  unfoldable pub recv_hello : Slice → Go (Option HelloResponse)
  unfolding slice bytes_equal deserialize_hello
  recv_hello hello = slice hello 0 6 >>= λ dst.
      let response = deserialize_hello hello >>= λ pdu.
      slice hello 6 6 >>= λ mac. ok (some (record { lan_hello_pdu = pdu; source_mac = mac })) in
      if bytes_equal dst l1_multicast then response else ok none

  -- A round of `isisHelloSend`: the frame, if one is sent.
  unfoldable pub hello_send : List ℕ → Intf → Option (List ℕ)
  unfolding send_hello
  hello_send [] intf = none
  hello_send (c ∷ sid) intf =
      if is_up intf.adj.state then none else some (send_hello intf (c ∷ sid) none)

  -- The hello of another node, by its TLVs.
  unfoldable pub answer_hello : List ℕ → Intf → HelloResponse → List Tlv → Go (Intf × Action)
  unfolding send_hello bytes_equal establish
  answer_hello sid intf rsp [] = ok (
    initialize intf,
    reply (
        send_hello intf sid
          (some (record { type_tlv = 6; length_tlv = 6; value_tlv = rsp.source_mac }))),
  )
  answer_hello sid intf rsp (t ∷ ts) =
      if bytes_equal t.value_tlv (get_mac intf.name)
      then establish intf rsp ts
      else ok (intf, nothing)

  unfoldable pub process_hello : List ℕ → Intf → Option HelloResponse → Go (Intf × Action)
  unfolding bytes_equal answer_hello system_id_to_string
  process_hello sid intf none = ok (intf, nothing)
  process_hello sid intf (some rsp) =
      let pdu = rsp.lan_hello_pdu in
      if bytes_equal (system_id_to_string pdu.lan_hello_header.source_system_id) sid
      then ok (intf, nothing)
      else answer_hello sid intf rsp pdu.first_tlv

  -- A round of `isisHelloRecv` on an interface.
  unfoldable pub hello_recv : List ℕ → Intf → Slice → Go (Intf × Action)
  unfolding recv_hello process_hello
  hello_recv sid intf hello = recv_hello hello >>= λ rsp. process_hello sid intf rsp
