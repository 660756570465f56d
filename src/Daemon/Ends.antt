-- ===== src/Daemon/Ends.antt =====
-- Every round of every goroutine ends.
use go_is_is.Common.{
  ℕ, List, [], ◌∷◌, Bool, Option, none, some, Ends, Ends-bind, Ends-bind_Ensures, Returns-Ends,
  Bool-cases, inl, inr, leb, length, ◌==◌,
}
use Prim.Native.String.{String}
use go_is_is.Bytes.{Slice}
use go_is_is.Tlv.RoundTrip.{index-Ends, slice-Ends, parse_tlvs-Ends}
use go_is_is.Avl.Contract.{IsAvl}
use go_is_is.Lsp.{deserialize_lsp}
use go_is_is.Node.{Node, Intf, configure_system_id}
use go_is_is.Update.{process_lsp, update_input, generate_local_lsp}
use go_is_is.Update.Database.{Processed, process_lsp-Processed}
use go_is_is.Update.Local.{Generated, generate_local_lsp-Generated}
use go_is_is.Hello.{Action, nothing, reply, regenerate}
use go_is_is.Hello.Ends.{hello_recv-Ends}
use go_is_is.Decision.Ends.{isis_decision-Ends}
use go_is_is.Daemon.{
  Daemon, Event, configure, received, hello_timer, update_timer, decide, Channel, no_channel,
  hello_chan, update_chan, with_node, set_intf, act, deliver, intf_step, decide_step, step, run,
  recv_pdu,
}
use go_is_is.Daemon.Safety.{Inv, After, step-After}

recv_pdu-Ends : (raw : Slice) → Ends (recv_pdu raw)
unfolding recv_pdu
recv_pdu-Ends raw = Ends-bind _ _ (index-Ends raw 14) λ b. elim (Bool-cases (b == 0x83)) [
  | inr e ↦ rw e tt
  | inl e ↦ rw e (
      Ends-bind _ _ (index-Ends raw 18) λ c. elim (Bool-cases (c == 0x0f)) [
        | inl k ↦ rw k tt
        | inr k ↦ rw k (elim (Bool-cases (c == 0x12)) [
          | inr m ↦ rw m tt
          | inl m ↦ rw m (Ends-bind _ _ (slice-Ends raw 26 6) λ id. tt)
        ])
      ])
]

deserialize_lsp-Ends : (raw : Slice) → Ends (deserialize_lsp raw)
unfolding deserialize_lsp
deserialize_lsp-Ends raw = elim (Bool-cases (leb 14 (length raw.items))) [
  | inr e ↦ rw e tt
  | inl e ↦ rw e (Ends-bind _ _ (parse_tlvs-Ends raw 41) λ tlvs. tt)
]

update_input-Ends :
    (name : String) (raw : Slice) (n : Node) → IsAvl n.update_db → Ends (update_input name raw n)
unfolding update_input
update_input-Ends name raw n a = Ends-bind _ _ (deserialize_lsp-Ends raw) λ lsp.
    Returns-Ends (process_lsp name lsp n) (Processed name lsp n)
      (process_lsp-Processed name lsp n a)

act-Ends : (d : Daemon) (intf : Intf) (a : Action) → IsAvl d.node.update_db → Ends (act d intf a)
unfolding act
act-Ends d intf nothing v = tt
act-Ends d intf (reply frame) v = tt
act-Ends d intf regenerate v =
    Ends-bind _ _
      (Returns-Ends (generate_local_lsp d.node) (Generated d.node)
        (generate_local_lsp-Generated d.node v))
      λ n. tt

module _ (l1_multicast : List ℕ) (get_mac : String → List ℕ) (to4 : List ℕ → List ℕ) where
  deliver-Ends :
      (d : Daemon) (i : ℕ) (intf : Intf) (raw : Slice) (c : Channel)
      → IsAvl d.node.update_db
      → Ends (deliver l1_multicast get_mac to4 d i intf raw c)
  unfolding deliver
  deliver-Ends d i intf raw no_channel v = tt
  deliver-Ends d i intf raw hello_chan v =
      Ends-bind _ _ (hello_recv-Ends l1_multicast get_mac to4 d.node.config.sid intf raw)
        λ r. act-Ends (with_node d (set_intf d.node i r.0)) r.0 r.1 v
  deliver-Ends d i intf raw update_chan v =
      Ends-bind _ _ (update_input-Ends intf.name raw d.node v) λ r. tt

  intf_step-Ends :
      (d : Daemon) (ev : Event) (i : ℕ) (found : Option Intf)
      → IsAvl d.node.update_db
      → Ends (intf_step l1_multicast get_mac to4 d ev i found)
  unfolding intf_step
  intf_step-Ends d ev i none v = tt
  intf_step-Ends d (received _ raw) i (some intf) v =
      Ends-bind _ _ (recv_pdu-Ends raw) λ c. deliver-Ends d i intf raw c v
  intf_step-Ends d (hello_timer _) i (some intf) v = tt
  intf_step-Ends d (update_timer _) i (some intf) v = tt
  intf_step-Ends d (configure _) i (some intf) v = tt
  intf_step-Ends d decide i (some intf) v = tt

  decide_step-Ends :
      (d : Daemon) (triggers : List Bool)
      → IsAvl d.topo
      → Ends (decide_step l1_multicast get_mac to4 d triggers)
  unfolding decide_step
  decide_step-Ends d [] a = tt
  decide_step-Ends d (spf ∷ triggers) a =
      Ends-bind _ _ (isis_decision-Ends spf d.node d.topo a) λ r. tt

  step-Ends : (d : Daemon) (ev : Event) → Inv d → Ends (step l1_multicast get_mac to4 d ev)
  unfolding step configure_system_id
  step-Ends d (configure sid) v = tt
  step-Ends d (received i raw) v = intf_step-Ends d (received i raw) i _ v.db
  step-Ends d (hello_timer i) v = intf_step-Ends d (hello_timer i) i _ v.db
  step-Ends d (update_timer i) v = intf_step-Ends d (update_timer i) i _ v.db
  step-Ends d decide v = decide_step-Ends d d.triggers v.topology

  -- From any state of a node in which both databases are balanced search trees and every LSP stands
  -- under its own key, whatever frames come in and whatever they hold, every one of any sequence of
  -- rounds ends, in a result or in a panic: no loop needs more rounds than the model gives it.
  pub run-Ends :
      (events : List Event) (d : Daemon) → Inv d → Ends (run l1_multicast get_mac to4 events d)
  unfolding run
  run-Ends [] d v = tt
  run-Ends (ev ∷ events) d v =
      Ends-bind_Ensures (step l1_multicast get_mac to4 d ev) _ (λ r. After d r.0) (step-Ends d ev v)
        (step-After l1_multicast get_mac to4 d ev v)
        λ r a. Ends-bind _ _ (run-Ends events r.0 a.0) λ q. tt
