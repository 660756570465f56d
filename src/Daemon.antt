-- ===== src/Daemon.antt =====
-- ethernet.go and main.go: how frames reach the goroutines, and the goroutines together.
--
-- A round of a goroutine is one step, on an event: a frame that comes in, a timer that fires, the
-- reception of a trigger, a call over gRPC. Rounds follow one another in any order.
pub mod Kept
pub mod Databases
pub mod Hellos
pub mod Safety
pub mod Start
pub mod Dispatch
pub mod Exchange
pub mod Lookup
pub mod Meet
pub mod Fits
pub mod Sorted
pub mod Sound
pub mod Ends
pub mod Marked
pub mod Spread
pub mod Announce
pub mod Relay
pub mod Chain
mod Samples
mod PathExamples
mod Examples
use go_is_is.Common.{
  ℕ, zero, suc, ◌+◌, List, [], ◌∷◌, ◌++◌, map, Bool, true, false, Option, none, some, Go, ok, panic,
  ◌>>=◌, ◌==◌, if◌then◌else◌, get_elem?,
}
use Prim.Native.String.{String}
use go_is_is.Avl.{Avl, nil}
use go_is_is.Bytes.{Slice, index, slice, bytes_equal}
use go_is_is.Node.{Node, Intf, configure_system_id}
use go_is_is.Update.{update_input, update_round, generate_local_lsp, with_interfaces}
use go_is_is.Hello.{Action, nothing, reply, regenerate, hello_send, hello_recv}
use go_is_is.Decision.{Triple, Route, isis_decision}

-- What a read of a raw socket returns: an error, or the bytes of a frame.
pub data Read : Type 0 where
  failed : Read
  got : List ℕ → Read

-- `recvFrame` over the reads to come: its result and the reads left, `none` if it still waits. It
-- compares the address of the interface with what the memory of its emptied buffer holds in the
-- place of a source address, `stale`, and only then writes the frame to the buffer.
unfoldable pub recv_frame : List ℕ → List ℕ → List Read → Option (List ℕ × List Read)
unfolding bytes_equal
recv_frame src stale [] = none
recv_frame src stale (failed ∷ reads) = recv_frame src stale reads
recv_frame src stale (got frame ∷ reads) =
    let next = recv_frame src stale reads in
    if bytes_equal stale src then next else some (frame, reads)

-- The channel that `recvPdus` puts a frame on.
pub data Channel : Type 0 where
  no_channel hello_chan update_chan : Channel

-- The system ID of an LSP is logged, so its bytes are read too.
unfoldable pub recv_pdu : Slice → Go Channel
unfolding index slice
recv_pdu buf = index buf 14 >>= λ discriminator.
    let pdu = index buf 18 >>= λ pdu_type.
    if pdu_type == 0x0f
    then ok hello_chan
    else if pdu_type == 0x12
    then (slice buf 26 6 >>= λ id. ok update_chan)
    else ok no_channel in
    if discriminator == 0x83 then pdu else ok no_channel

-- The node, the topology database, and the triggers that wait to be received.
pub record Daemon : Type 0 where
  pub node : Node
  pub topo : Avl Triple
  pub triggers : List Bool

-- An interface is given by its index.
pub data Event : Type 0 where
  configure : List ℕ → Event
  received : ℕ → Slice → Event
  hello_timer : ℕ → Event
  update_timer : ℕ → Event
  decide : Event

-- What a step gives to the outside: frames on an interface, and routes.
pub data Output : Type 0 where
  sent : String → List ℕ → Output
  route : Route → Output

abbrev pub set_at : List Intf → ℕ → Intf → List Intf
set_at [] i intf = []
set_at (x ∷ xs) zero intf = intf ∷ xs
set_at (x ∷ xs) (suc i) intf = x ∷ set_at xs i intf

abbrev pub set_intf : Node → ℕ → Intf → Node
set_intf n i intf = with_interfaces n (set_at n.config.interfaces i intf)

abbrev pub with_node : Daemon → Node → Daemon
with_node d n = record d { node = n }

-- The rest of a round of `isisHelloRecv`, by what it does.
unfoldable pub act : Daemon → Intf → Action → Go (Daemon × List Output)
unfolding generate_local_lsp
act d intf nothing = ok (d, [])
act d intf (reply frame) = ok (d, sent intf.name frame ∷ [])
act d intf regenerate = generate_local_lsp d.node >>= λ n. ok (with_node d n, [])

abbrev pub sent_by : Intf → Option (List ℕ) → List Output
sent_by intf none = []
sent_by intf (some frame) = sent intf.name frame ∷ []

module _ (l1_multicast : List ℕ) (get_mac : String → List ℕ) (to4 : List ℕ → List ℕ) where
  -- A frame on an interface: the round of `recvPdus`, and that of the goroutine on the channel.
  unfoldable pub deliver : Daemon → ℕ → Intf → Slice → Channel → Go (Daemon × List Output)
  unfolding hello_recv update_input act
  deliver d i intf raw no_channel = ok (d, [])
  deliver d i intf raw hello_chan =
      hello_recv l1_multicast get_mac to4 d.node.config.sid intf raw >>= λ (intf', action).
      act (with_node d (set_intf d.node i intf')) intf' action
  deliver d i intf raw update_chan = update_input intf.name raw d.node >>= λ (n, spf).
      ok (record d { node = n; triggers = d.triggers ++ spf ∷ [] }, [])

  -- The round of a goroutine of an interface.
  unfoldable pub intf_step : Daemon → Event → ℕ → Option Intf → Go (Daemon × List Output)
  unfolding deliver recv_pdu hello_send update_round
  intf_step d e i none = ok (d, [])
  intf_step d (received _ raw) i (some intf) =
      recv_pdu raw >>= λ channel. deliver d i intf raw channel
  intf_step d (hello_timer _) i (some intf) =
      ok (d, sent_by intf (hello_send l1_multicast get_mac to4 d.node.config.sid intf))
  intf_step d (update_timer _) i (some intf) =
      let (frames, intf') = update_round l1_multicast get_mac d.node intf in
      ok (with_node d (set_intf d.node i intf'), map (λ frame. sent intf.name frame) frames)
  intf_step d (configure _) i (some intf) = ok (d, [])
  intf_step d decide i (some intf) = ok (d, [])

  -- The round of `isisDecision` on the first trigger.
  unfoldable pub decide_step : Daemon → List Bool → Go (Daemon × List Output)
  unfolding isis_decision
  decide_step d [] = ok (d, [])
  decide_step d (spf ∷ triggers) = isis_decision spf d.node d.topo >>= λ (topo, routes).
      ok (record d { topo = topo; triggers = triggers }, map (λ r. route r) routes)

  unfoldable pub step : Daemon → Event → Go (Daemon × List Output)
  unfolding intf_step decide_step configure_system_id
  step d (configure sid) = ok (with_node d (configure_system_id sid d.node), [])
  step d (received i raw) = intf_step d (received i raw) i (get_elem? d.node.config.interfaces i)
  step d (hello_timer i) = intf_step d (hello_timer i) i (get_elem? d.node.config.interfaces i)
  step d (update_timer i) = intf_step d (update_timer i) i (get_elem? d.node.config.interfaces i)
  step d decide = decide_step d d.triggers

  -- Any sequence of rounds.
  unfoldable pub run : List Event → Daemon → Go (Daemon × List Output)
  unfolding step
  run [] d = ok (d, [])
  run (e ∷ events) d =
      step d e >>= λ (d', out). run events d' >>= λ (d'', more). ok (d'', out ++ more)

-- The state in which the goroutines start: no topology, and no trigger.
abbrev pub idle : Node → Daemon
idle n = record { node = n; topo = nil; triggers = [] }
