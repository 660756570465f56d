-- ===== src/Hello/Examples.antt =====
-- Two nodes that hear each other: the theorem on the exchange of hellos at them.
use go_is_is.Common.{ℕ, ◌≡◌, refl, List, [], ◌∷◌, none, some, ok}
use Prim.Native.String.{String}
use go_is_is.Bytes.{copy_into, bytes_equal}
use go_is_is.SystemId.{system_id_to_string, system_id_to_bytes}
use go_is_is.Node.{Intf, new}
use go_is_is.Hello.{hello_recv, send_hello, reply, regenerate}
use go_is_is.Hello.Frame.{heard}
use go_is_is.Hello.Handshake.{with_neighbor, raise, hello_recv-send_hello}

abbrev intf_of : String → ℕ → Intf
intf_of name b = record {
  adj = record {
    state = new;
    neighbor_system_id = [];
    metric = 0;
    intf_name = name;
    neighbor_ip = none;
  };
  name = name;
  prefix = 10 ∷ 0 ∷ 0 ∷ b ∷ [];
  mask = [];
  routes = [];
  lsp_flood_states = [];
}

abbrev multicast : List ℕ
multicast = 0x01 ∷ 0x80 ∷ 0xc2 ∷ 0x00 ∷ 0x00 ∷ 0x14 ∷ []

abbrev mac : String → List ℕ
mac name = 0xaa ∷ 0xbb ∷ 0xcc ∷ 0xdd ∷ 0xee ∷ 0xff ∷ []

abbrev same : List ℕ → List ℕ
same ip = ip

-- The system IDs `1111.1111.1111` and `1111.1111.1112`.
abbrev sid_a : List ℕ
sid_a = system_id_to_string (0x11 ∷ 0x11 ∷ 0x11 ∷ 0x11 ∷ 0x11 ∷ 0x11 ∷ [])

abbrev sid_b : List ℕ
sid_b = system_id_to_string (0x11 ∷ 0x11 ∷ 0x11 ∷ 0x11 ∷ 0x11 ∷ 0x12 ∷ [])

abbrev answer : List ℕ
answer = send_hello multicast mac same (intf_of "eth1" 2) sid_b (some (heard (mac "eth0")))

hello_recv-send_hello_example :
    (hello_recv multicast mac same sid_b
        (intf_of "eth1" 2)
        (record { items = send_hello multicast mac same (intf_of "eth0" 1) sid_a none; spare = [] })
      ≡ ok (raise (intf_of "eth1" 2), reply answer))
    × (hello_recv multicast mac same sid_a
          (intf_of "eth0" 1)
          (record { items = answer; spare = [] })
        ≡ ok (
          with_neighbor
              (intf_of "eth0" 1)
              (system_id_to_bytes sid_b)
              (copy_into 4 (10 ∷ 0 ∷ 0 ∷ 2 ∷ [])),
          regenerate,
        ))
unfolding system_id_to_string system_id_to_bytes bytes_equal
hello_recv-send_hello_example =
    hello_recv-send_hello multicast mac same sid_a sid_b (intf_of "eth0" 1) (intf_of "eth1" 2) []
      refl refl refl refl refl
