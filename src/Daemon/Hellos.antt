-- ===== src/Daemon/Hellos.antt =====
-- What a hello does to the interface it comes in on.
use go_is_is.Common.{
  ℕ, refl, List, [], ◌∷◌, Option, none, some, Ensures, Ensures-bind, Bool-cases, inl, inr, always,
}
use Prim.Native.String.{String}
use go_is_is.Bytes.{Slice, bytes_equal}
use go_is_is.SystemId.{system_id_to_string}
use go_is_is.Tlv.{Tlv}
use go_is_is.Node.{Intf, is_up}
use go_is_is.Bytes.Slices.{length-copy_into}
use go_is_is.Daemon.Kept.{Keeps, Keeps-refl}
use go_is_is.Hello.{
  hello_recv, recv_hello, HelloResponse, establish, initialize, answer_hello, process_hello,
}

establish-Keeps :
    (intf : Intf) (rsp : HelloResponse) (ts : List Tlv)
    → Ensures (establish intf rsp ts) λ r. Keeps intf r.0
unfolding establish
establish-Keeps intf rsp [] = tt
establish-Keeps intf rsp (t ∷ ts) = record {
  same_name = refl;
  same_routes = refl;
  stays_up = λ u. refl;
  has_id = λ h u. length-copy_into 6 rsp.lan_hello_pdu.lan_hello_header.source_system_id;
  own_keys = λ h. h;
}

initialize-Keeps : (intf : Intf) → Keeps intf (initialize intf)
initialize-Keeps intf = elim (Bool-cases (is_up intf.adj.state)) [
  | inl e ↦ rw e (Keeps-refl intf)
  | inr e ↦ rw e (record {
    same_name = refl;
    same_routes = refl;
    stays_up = λ u. cc;
    has_id = λ h u. cc;
    own_keys = λ h. h;
  })
]

module _ (l1_multicast : List ℕ) (get_mac : String → List ℕ) (to4 : List ℕ → List ℕ) where
  answer_hello-Keeps :
      (sid : List ℕ) (intf : Intf) (rsp : HelloResponse) (ts : List Tlv)
      → Ensures (answer_hello l1_multicast get_mac to4 sid intf rsp ts) λ r. Keeps intf r.0
  unfolding answer_hello
  answer_hello-Keeps sid intf rsp [] = initialize-Keeps intf
  answer_hello-Keeps sid intf rsp (t ∷ ts) =
      elim (Bool-cases (bytes_equal t.value_tlv (get_mac intf.name))) [
        | inl e ↦ rw e (establish-Keeps intf rsp ts)
        | inr e ↦ rw e (Keeps-refl intf)
      ]

  process_hello-Keeps :
      (sid : List ℕ) (intf : Intf) (rsp : Option HelloResponse)
      → Ensures (process_hello l1_multicast get_mac to4 sid intf rsp) λ r. Keeps intf r.0
  unfolding process_hello
  process_hello-Keeps sid intf none = Keeps-refl intf
  process_hello-Keeps sid intf (some rsp) =
      let pdu = rsp.lan_hello_pdu in
      elim (Bool-cases
        (bytes_equal (system_id_to_string pdu.lan_hello_header.source_system_id) sid)) [
          | inl e ↦ rw e (Keeps-refl intf)
          | inr e ↦ rw e (answer_hello-Keeps sid intf rsp pdu.first_tlv)
        ]

  pub hello_recv-Keeps :
      (sid : List ℕ) (intf : Intf) (hello : Slice)
      → Ensures (hello_recv l1_multicast get_mac to4 sid intf hello) λ r. Keeps intf r.0
  unfolding hello_recv
  hello_recv-Keeps sid intf hello =
      let rsp = recv_hello l1_multicast get_mac to4 hello in
      Ensures-bind rsp _ (λ _. Unit {0}) _ (always rsp _ (λ _. tt))
        λ r _. process_hello-Keeps sid intf r
