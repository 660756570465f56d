-- ===== src/Daemon/Examples.antt =====
-- A node with one interface that hears from another: the theorems at it.
use go_is_is.Common.{
  arith, Ends, ◌≡◌, refl, [], ◌∷◌, some, Go, ok, panic, out_of_fuel, ◌>>=◌, Returns, Ensures,
  replicate,
}
use Prim.Native.String.{String}
use go_is_is.Bytes.{bytes_equal, copy_into}
use go_is_is.Avl.{search}
use go_is_is.Avl.Contract.{nil-IsAvl}
use go_is_is.SystemId.{system_id_to_string, system_id_to_bytes}
use go_is_is.Boot.{boot}
use go_is_is.Hello.{send_hello, get_interface_tlv}
use go_is_is.Hello.Frame.{hello_frame, answer_tlvs}
use go_is_is.Hello.Handshake.{with_neighbor, raise}
use go_is_is.Update.{lsp_frame}
use go_is_is.Daemon.{configure, received, idle, set_intf, step, run, sent}
use go_is_is.Daemon.Safety.{After, run-After}
use go_is_is.Daemon.Ends.{run-Ends}
use go_is_is.Daemon.Start.{run-boot, run-boot-IsSound}
use go_is_is.Daemon.Lookup.{IsUpAt}
use go_is_is.Daemon.Meet.{exchange, exchange-IsUpAt}
use go_is_is.Daemon.Exchange.{Taken, Renewed, step-send_hello, step-first_hello}
use go_is_is.Daemon.Samples.{
  multicast, mac, same, iface, intf_of, sid_a, sid_b, start, start-Inv, answer, events, other_lsp,
  other, other-Inv, neighbors-Ready, other_lsp-IsSendable, marked, marked_intf, marked-IsSound,
  start-IsSound, ifaces-HasRoom,
}
use go_is_is.Sockets.{RawSock}
use go_is_is.Sockets.Link.{carry, carry-lsp_frame}
use go_is_is.Daemon.Spread.{spread, UpToDate, spread-UpToDate}
use go_is_is.Daemon.Sound.{IsSound, IsLong}
use go_is_is.Daemon.Announce.{announce, Announced, announce-Announced}

run-After_example : Ensures (run multicast mac same events start) λ r. After start r.0
run-After_example = run-After multicast mac same events start start-Inv

run-boot_example : Ensures (boot same (iface "lo" 9 ∷ iface "eth0" 1 ∷ [])) λ n.
    Ensures (run multicast mac same (configure sid_a ∷ events) (idle n)) λ r. After (idle n) r.0
run-boot_example =
    run-boot multicast mac same (iface "lo" 9 ∷ iface "eth0" 1 ∷ []) (configure sid_a ∷ events)

step-send_hello_example : Returns (step multicast mac same start (received 0 answer)) (
    Renewed
      (set_intf start.node 0 (
        with_neighbor
          (intf_of "eth0" 1)
          (system_id_to_bytes sid_b)
          (copy_into 4 (10 ∷ 0 ∷ 0 ∷ 2 ∷ []))))
      start)
unfolding system_id_to_string system_id_to_bytes bytes_equal
step-send_hello_example =
    step-send_hello multicast mac same sid_b (intf_of "eth1" 2) [] start 0 (intf_of "eth0" 1) refl
      refl refl refl refl refl nil-IsAvl

abbrev out_sock : RawSock
out_sock = record { fd = 7; intf = record { index = 3; hardware_addr = mac "eth1" } }

abbrev in_sock : RawSock
in_sock = record { fd = 8; intf = record { index = 2; hardware_addr = mac "eth0" } }

step-first_hello_example :
    step multicast mac same start (
      received 0 (record {
        items =
            hello_frame multicast
              (1 ∷ 2 ∷ 3 ∷ 4 ∷ 5 ∷ 6 ∷ [])
              (0x11 ∷ 0x11 ∷ 0x11 ∷ 0x11 ∷ 0x11 ∷ 0x12 ∷ [])
              [];
        spare = [];
      }))
    ≡ ok (
      idle (set_intf start.node 0 (raise (intf_of "eth0" 1))),
      sent "eth0" (
            hello_frame multicast
              (mac "eth0")
              (system_id_to_bytes sid_a)
              (answer_tlvs (1 ∷ 2 ∷ 3 ∷ 4 ∷ 5 ∷ 6 ∷ []) (copy_into 4 (10 ∷ 0 ∷ 0 ∷ 1 ∷ []))))
          ∷ [],
    )
unfolding system_id_to_string bytes_equal
step-first_hello_example =
    step-first_hello multicast mac same (1 ∷ 2 ∷ 3 ∷ 4 ∷ 5 ∷ 6 ∷ [])
      (0x11 ∷ 0x11 ∷ 0x11 ∷ 0x11 ∷ 0x11 ∷ 0x12 ∷ []) [] start 0 (intf_of "eth0" 1) refl refl refl
      refl refl

exchange-IsUpAt_example :
    Returns
      (exchange multicast mac same start 0 other 0 >>= λ r. exchange multicast mac same r.1 0 r.0 0)
      λ r. IsUpAt r.0 0 × IsUpAt r.1 0
exchange-IsUpAt_example =
    exchange-IsUpAt multicast mac same refl (λ name. refl) start 0 other 0 neighbors-Ready

abbrev outcome : {A : Type 0} → Go A → String
outcome (ok a) = "ok"
outcome panic = "panic"
outcome out_of_fuel = "out of fuel"

-- None of these rounds panics.
run_ok : outcome (run multicast mac same events start) ≡ "ok"
unfolding run get_interface_tlv
run_ok = refl

spread-UpToDate_example :
    Returns (spread multicast mac same marked 0 other 0) λ r. UpToDate marked marked_intf other r.1
spread-UpToDate_example =
    spread-UpToDate multicast mac same refl (λ name. refl) marked 0 other 0 marked_intf
      (intf_of "eth1" 2) marked-IsSound other-Inv refl refl refl

run-boot-IsSound_example :
    Ensures
      (boot same (iface "lo" 9 ∷ iface "eth0" 1 ∷ []))
      λ n. Ensures (run multicast mac same (configure sid_a ∷ events) (idle n)) λ r. IsSound r.0
unfolding IsLong send_hello
run-boot-IsSound_example =
    run-boot-IsSound multicast mac same (iface "lo" 9 ∷ iface "eth0" 1 ∷ [])
      (configure sid_a ∷ events) ifaces-HasRoom (tt, (tt, (omega arith, (tt, (tt, tt)))))

announce-Announced_example : Returns (announce multicast mac same start 0 answer other 0) λ r.
    Announced start
      (set_intf start.node 0 (
        with_neighbor
          (intf_of "eth0" 1)
          (system_id_to_bytes sid_b)
          (copy_into 4 (10 ∷ 0 ∷ 0 ∷ 2 ∷ []))))
      r.1
unfolding system_id_to_string system_id_to_bytes bytes_equal search
announce-Announced_example =
    announce-Announced multicast mac same refl (λ name. refl) sid_b (intf_of "eth1" 2) [] start 0
      other 0 (intf_of "eth0" 1) (intf_of "eth1" 2) start-IsSound other-Inv refl refl refl refl
      (omega arith)

run-Ends_example : Ends (run multicast mac same events start)
run-Ends_example = run-Ends multicast mac same events start start-Inv

-- Two reads fail first.
carry-lsp_frame_example :
    Returns
      (carry multicast mac same
        (some out_sock)
        (lsp_frame multicast mac "eth1" other_lsp)
        (some in_sock)
        (mac "eth0")
        (replicate 6 0)
        (4 ∷ 11 ∷ [])
        (0 ∷ [])
        start
        0)
      (Taken "eth0" other_lsp start)
unfolding bytes_equal lsp_frame
carry-lsp_frame_example =
    carry-lsp_frame multicast mac same out_sock in_sock mac "eth1" other_lsp (mac "eth0")
      (replicate 6 0) (4 ∷ 11 ∷ []) (0 ∷ []) start 0 (intf_of "eth0" 1) refl refl
      other_lsp-IsSendable (omega arith) (omega arith, (omega arith, tt)) refl refl nil-IsAvl
