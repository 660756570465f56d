-- ===== src/Sockets/Examples.antt =====
-- The sockets of two interfaces, of which one was not opened.
use go_is_is.Common.{
  ℕ, ◌≡◌, refl, List, [], ◌∷◌, some, none, ok, panic, length, ltb, if◌then◌else◌, replicate,
}
use text.Mathlib.Text.{◌==◌ as str_eq}
use go_is_is.Bytes.{bytes_equal}
use go_is_is.Sockets.{
  Answers, NetIntf, Sockets, sendto, send_frame, ethernet_intf_init, recv_on, reads_of, socks_of,
}
use go_is_is.Sockets.Open.{sent_on, send_frame-ethernet_intf_init}

abbrev intf : NetIntf
intf = record { index = 3; hardware_addr = 0xaa ∷ 0xbb ∷ 0xcc ∷ 0xdd ∷ 0xee ∷ 0xff ∷ [] }

abbrev good : Answers
good = record { looked_up = some intf; opened = some 7; bound = 0 }

abbrev failed_open : Answers
failed_open = record { looked_up = some intf; opened = none; bound = 0 }

abbrev socks : Sockets
socks = ethernet_intf_init "eth1" failed_open good []

abbrev frame : List ℕ
frame = 1 ∷ 2 ∷ 3 ∷ 4 ∷ 5 ∷ 6 ∷ 7 ∷ 8 ∷ 9 ∷ []

send_frame-ethernet_intf_init_example :
    send_frame (ethernet_intf_init "eth0" good good socks) "eth0" frame 0 9 ≡ (
      if str_eq "eth0" "eth0"
      then (if ltb (length frame) 8 then panic else sent_on good frame)
      else send_frame socks "eth0" frame 0 9)
send_frame-ethernet_intf_init_example =
    send_frame-ethernet_intf_init socks "eth0" "eth0" good good frame 0 9

sent_whole :
    send_frame (ethernet_intf_init "eth0" good good socks) "eth0" frame 0 9
    ≡ ok (
        sendto 7 frame (record {
          family = 0;
          protocol = 0;
          ifindex = 3;
          addr = 1 ∷ 2 ∷ 3 ∷ 4 ∷ 5 ∷ 6 ∷ 7 ∷ 8 ∷ [];
          halen = 6;
        }))
unfolding send_frame ethernet_intf_init
sent_whole = refl

-- The socket of the other interface is a nil pointer.
not_opened : send_frame (ethernet_intf_init "eth0" good good socks) "eth1" frame 0 9 ≡ panic
unfolding send_frame ethernet_intf_init
not_opened = refl

-- After an error the next frame is read.
read_second :
    recv_on
      (socks_of socks "eth1").1
      intf.hardware_addr
      (replicate 6 0)
      (reads_of ((4, []) ∷ (0, frame) ∷ []))
    ≡ ok (some (frame, []))
unfolding recv_on reads_of socks_of ethernet_intf_init bytes_equal
read_second = refl
