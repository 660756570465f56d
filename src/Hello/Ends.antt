-- ===== src/Hello/Ends.antt =====
-- A round of `isisHelloRecv` ends on every frame.
use go_is_is.Common.{
  ℕ, List, [], ◌∷◌, Option, none, some, Ends, Ends-bind, Bool-cases, inl, inr, leb, length,
}
use Prim.Native.String.{String}
use go_is_is.Bytes.{Slice, bytes_equal}
use go_is_is.Tlv.{Tlv}
use go_is_is.Tlv.RoundTrip.{slice-Ends, parse_tlvs-Ends}
use go_is_is.SystemId.{system_id_to_string}
use go_is_is.Node.{Intf}
use go_is_is.Hello.{
  HelloResponse, deserialize_hello, recv_hello, establish, answer_hello, process_hello, hello_recv,
}

deserialize_hello-Ends : (raw : Slice) → Ends (deserialize_hello raw)
unfolding deserialize_hello
deserialize_hello-Ends raw = elim (Bool-cases (leb 14 (length raw.items))) [
  | inr e ↦ rw e tt
  | inl e ↦ rw e (Ends-bind _ _ (parse_tlvs-Ends raw 42) λ tlvs. tt)
]

establish-Ends : (intf : Intf) (rsp : HelloResponse) (ts : List Tlv) → Ends (establish intf rsp ts)
unfolding establish
establish-Ends intf rsp [] = tt
establish-Ends intf rsp (t ∷ ts) = tt

module _ (l1_multicast : List ℕ) (get_mac : String → List ℕ) (to4 : List ℕ → List ℕ) where
  recv_hello-Ends : (hello : Slice) → Ends (recv_hello l1_multicast get_mac to4 hello)
  unfolding recv_hello
  recv_hello-Ends hello = Ends-bind _ _ (slice-Ends hello 0 6) λ dst.
      elim (Bool-cases (bytes_equal dst l1_multicast)) [
        | inr e ↦ rw e tt
        | inl e ↦ rw e (
            Ends-bind _ _ (deserialize_hello-Ends hello)
              λ pdu. Ends-bind _ _ (slice-Ends hello 6 6) λ mac. tt)
      ]

  answer_hello-Ends :
      (sid : List ℕ) (intf : Intf) (rsp : HelloResponse) (ts : List Tlv)
      → Ends (answer_hello l1_multicast get_mac to4 sid intf rsp ts)
  unfolding answer_hello
  answer_hello-Ends sid intf rsp [] = tt
  answer_hello-Ends sid intf rsp (t ∷ ts) =
      elim (Bool-cases (bytes_equal t.value_tlv (get_mac intf.name))) [
        | inl e ↦ rw e (establish-Ends intf rsp ts)
        | inr e ↦ rw e tt
      ]

  process_hello-Ends :
      (sid : List ℕ) (intf : Intf) (rsp : Option HelloResponse)
      → Ends (process_hello l1_multicast get_mac to4 sid intf rsp)
  unfolding process_hello
  process_hello-Ends sid intf none = tt
  process_hello-Ends sid intf (some rsp) =
      let pdu = rsp.lan_hello_pdu in
      elim (Bool-cases
        (bytes_equal (system_id_to_string pdu.lan_hello_header.source_system_id) sid)) [
          | inl e ↦ rw e tt
          | inr e ↦ rw e (answer_hello-Ends sid intf rsp pdu.first_tlv)
        ]

  pub hello_recv-Ends :
      (sid : List ℕ) (intf : Intf) (hello : Slice)
      → Ends (hello_recv l1_multicast get_mac to4 sid intf hello)
  unfolding hello_recv
  hello_recv-Ends sid intf hello =
      Ends-bind _ _ (recv_hello-Ends hello) λ rsp. process_hello-Ends sid intf rsp
