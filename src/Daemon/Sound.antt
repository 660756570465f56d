-- ===== src/Daemon/Sound.antt =====
-- What stands in the LSP database of a node, after any sequence of rounds.
use go_is_is.Common.{
  ℕ, ◌≤◌, ◌≡◌, refl, sym, ◌∙◌, List, [], ◌∷◌, Bool, true, false, Option, none, some, Ensures,
  Ensures-bind, Ensures-and, Ensures-imp, Returns-Ensures, always, get_elem?, if◌then◌else◌, ◌==◌,
  ◌&&◌, length, All,
}
use Prim.Native.String.{String}
use go_is_is.Bytes.{Slice}
use go_is_is.Avl.{search}
use go_is_is.Lsp.{Lsp, deserialize_lsp}
use go_is_is.Node.{Node, Intf, configure_system_id}
use go_is_is.Update.{process_lsp, update_input, generate_local_lsp, local_lsp, update_round}
use go_is_is.Update.Wire.{IsSendable}
use go_is_is.Update.Arrived.{Arrived, deserialize_lsp-Arrived}
use go_is_is.Update.Database.{Processed, process_lsp-Processed, is_newer}
use go_is_is.Update.Local.{Generated, generate_local_lsp-Generated}
use go_is_is.Hello.{Action, nothing, reply, regenerate, hello_recv}
use go_is_is.Daemon.{
  Daemon, Event, configure, received, hello_timer, update_timer, decide, Channel, no_channel,
  hello_chan, update_chan, with_node, set_intf, act, deliver, intf_step, decide_step, step, run,
  recv_pdu,
}
use go_is_is.Decision.{isis_decision}
use go_is_is.Daemon.Sorted.{IsLspFrame, Sorted, recv_pdu-Sorted}
use go_is_is.Daemon.Kept.{Keeps}
use go_is_is.Daemon.Hellos.{hello_recv-Keeps}
use go_is_is.Daemon.Fits.{Fits, Fits-Kept, local_lsp-IsSendable}
use go_is_is.Daemon.Safety.{Inv, After, After-set_intf, step-After}

-- Every LSP in the database survives the way over a link.
abbrev pub Stored : (ℕ → Option Lsp) → Type 0
Stored db = (k : ℕ) (lsp : Lsp) → db k ≡ some lsp → IsSendable lsp

-- A sound node: the databases are in order, its own LSP has room for what it advertises, and what it
-- stores survives the way over a link.
pub record IsSound (d : Daemon) : Type 0 where
  pub inv : Inv d
  pub fits : Fits d.node.config.interfaces
  pub stored : Stored (search d.node.update_db)

-- A frame holds at least the Ethernet header and the common header of a PDU.
unfoldable pub IsLong : Event → Type 0
IsLong (configure sid) = Unit
IsLong (received i raw) = 22 ≤ length raw.items
IsLong (hello_timer i) = Unit
IsLong (update_timer i) = Unit
IsLong decide = Unit

put-Stored :
    (db : ℕ → Option Lsp) (lsp : Lsp) (k : ℕ) (at_key : Bool)
    → IsSendable lsp
    → Stored db
    → (l : Lsp) → (if at_key then some lsp else db k) ≡ some l
    → IsSendable l
put-Stored db lsp k true new old l e = rw (same e) at new
  where
    same : some lsp ≡ some l → lsp ≡ l
    same p = cc
put-Stored db lsp k false new old l e = old k l e

Stored-Processed :
    (name : String) (lsp : Lsp) (n : Node) (r : Node × Bool)
    → Processed name lsp n r
    → IsSendable lsp
    → Stored (search n.update_db)
    → Stored (search r.0.update_db)
Stored-Processed name lsp n r p new old k l e =
    put-Stored (search n.update_db) lsp k
      (lsp.key == k && is_newer (search n.update_db lsp.key) lsp) new old l (sym (p.stored k) ∙ e)

Stored-Generated :
    (n n' : Node)
    → Generated n n'
    → Fits n.config.interfaces
    → Stored (search n.update_db)
    → Stored (search n'.update_db)
Stored-Generated n n' g f old k l e =
    put-Stored (search n.update_db) (local_lsp n) k _ (local_lsp-IsSendable n f) old l
      (sym (g.stored k) ∙ e)

-- A received frame that goes to the update process is that of an LSP.
update_input-Stored :
    (d : Daemon) (name : String) (raw : Slice)
    → IsSound d
    → 22 ≤ length raw.items
    → IsLspFrame raw.items
    → Ensures (update_input name raw d.node) λ r. Stored (search r.0.update_db)
unfolding update_input
update_input-Stored d name raw s long (p, q) =
    Ensures-bind (deserialize_lsp raw) _ (Arrived raw.items) _ (deserialize_lsp-Arrived raw)
      λ lsp a.
        let new : IsSendable lsp = record {
          well_formed = a.well_formed;
          discriminator = a.discriminator long ∙ p;
          type_pdu = a.type_pdu long ∙ q;
        } in
        Ensures-imp (process_lsp name lsp d.node) (Processed name lsp d.node) _
          (λ r t. Stored-Processed name lsp d.node r t new s.stored)
          (Returns-Ensures (process_lsp name lsp d.node) (Processed name lsp d.node)
            (process_lsp-Processed name lsp d.node s.inv.db))

act-Stored :
    (d : Daemon) (intf : Intf) (a : Action)
    → Inv d
    → Fits d.node.config.interfaces
    → Stored (search d.node.update_db)
    → Ensures (act d intf a) λ r. Stored (search r.0.node.update_db)
unfolding act
act-Stored d intf nothing v f s = s
act-Stored d intf (reply frame) v f s = s
act-Stored d intf regenerate v f s =
    Ensures-bind (generate_local_lsp d.node) _ (Generated d.node) _
      (Returns-Ensures (generate_local_lsp d.node) (Generated d.node)
        (generate_local_lsp-Generated d.node v.db))
      λ n g. Stored-Generated d.node n g f s

module _ (l1_multicast : List ℕ) (get_mac : String → List ℕ) (to4 : List ℕ → List ℕ) where
  decide_step-Stored :
      (d : Daemon) (triggers : List Bool)
      → Stored (search d.node.update_db)
      → Ensures
          (decide_step l1_multicast get_mac to4 d triggers)
          λ r. Stored (search r.0.node.update_db)
  unfolding decide_step
  decide_step-Stored d [] s = s
  decide_step-Stored d (spf ∷ triggers) s =
      Ensures-bind (isis_decision spf d.node d.topo) _ (λ _. Unit {0}) _
        (always (isis_decision spf d.node d.topo) _ (λ _. tt)) λ r _. s

  deliver-Stored :
      (d : Daemon) (i : ℕ) (intf : Intf) (raw : Slice) (c : Channel)
      → get_elem? d.node.config.interfaces i ≡ some intf
      → IsSound d
      → 22 ≤ length raw.items
      → Sorted raw.items c
      → Ensures
          (deliver l1_multicast get_mac to4 d i intf raw c)
          λ r. Stored (search r.0.node.update_db)
  unfolding deliver
  deliver-Stored d i intf raw no_channel e s long c = s.stored
  deliver-Stored d i intf raw hello_chan e s long c =
      let sid = d.node.config.sid in
      Ensures-bind (hello_recv l1_multicast get_mac to4 sid intf raw) _ (λ r. Keeps intf r.0) _
        (hello_recv-Keeps l1_multicast get_mac to4 sid intf raw)
        λ r k.
          let d' = with_node d (set_intf d.node i r.0) in
          let (v, kept) = After-set_intf d i intf r.0 e k s.inv in
          act-Stored d' r.0 r.1 v
            (Fits-Kept d.node.config.interfaces d'.node.config.interfaces kept s.fits) s.stored
  deliver-Stored d i intf raw update_chan e s long c =
      Ensures-bind (update_input intf.name raw d.node) _ _ _
        (update_input-Stored d intf.name raw s long c) λ r a. a

  intf_step-Stored :
      (d : Daemon) (ev : Event) (i : ℕ) (found : Option Intf)
      → get_elem? d.node.config.interfaces i ≡ found
      → IsLong ev
      → IsSound d
      → Ensures
          (intf_step l1_multicast get_mac to4 d ev i found)
          λ r. Stored (search r.0.node.update_db)
  unfolding intf_step update_round IsLong
  intf_step-Stored d ev i none e long s = s.stored
  intf_step-Stored d (received _ raw) i (some intf) e long s =
      Ensures-bind (recv_pdu raw) _ (Sorted raw.items) _ (recv_pdu-Sorted raw)
        λ c h. deliver-Stored d i intf raw c e s long h
  intf_step-Stored d (hello_timer _) i (some intf) e long s = s.stored
  intf_step-Stored d (update_timer _) i (some intf) e long s = s.stored
  intf_step-Stored d (configure _) i (some intf) e long s = s.stored
  intf_step-Stored d decide i (some intf) e long s = s.stored

  step-Stored :
      (d : Daemon) (ev : Event)
      → IsLong ev
      → IsSound d
      → Ensures (step l1_multicast get_mac to4 d ev) λ r. Stored (search r.0.node.update_db)
  unfolding step configure_system_id
  step-Stored d (configure sid) long s = s.stored
  step-Stored d (received i raw) long s = intf_step-Stored d (received i raw) i _ refl long s
  step-Stored d (hello_timer i) long s = intf_step-Stored d (hello_timer i) i _ refl long s
  step-Stored d (update_timer i) long s = intf_step-Stored d (update_timer i) i _ refl long s
  step-Stored d decide long s = decide_step-Stored d d.triggers s.stored

  pub IsSound-After :
      (d d' : Daemon) → IsSound d → After d d' → Stored (search d'.node.update_db) → IsSound d'
  IsSound-After d d' s (v, k) stored = record {
    inv = v;
    fits = Fits-Kept d.node.config.interfaces d'.node.config.interfaces k s.fits;
    stored = stored;
  }

  pub step-IsSound :
      (d : Daemon) (ev : Event)
      → IsLong ev
      → IsSound d
      → Ensures (step l1_multicast get_mac to4 d ev) λ r. IsSound r.0
  step-IsSound d ev long s =
      let round = step l1_multicast get_mac to4 d ev in
      Ensures-imp round (λ r. After d r.0 × Stored (search r.0.node.update_db)) _
        (λ r (a, b). IsSound-After d r.0 s a b)
        (Ensures-and round (λ r. After d r.0) (λ r. Stored (search r.0.node.update_db))
          (step-After l1_multicast get_mac to4 d ev s.inv) (step-Stored d ev long s))

  pub run-IsSound :
      (events : List Event) (d : Daemon)
      → All IsLong events
      → IsSound d
      → Ensures (run l1_multicast get_mac to4 events d) λ r. IsSound r.0
  unfolding run
  run-IsSound [] d long s = s
  run-IsSound (ev ∷ events) d (h, long) s =
      Ensures-bind (step l1_multicast get_mac to4 d ev) _ (λ r. IsSound r.0) _
        (step-IsSound d ev h s)
        λ r t.
          Ensures-bind (run l1_multicast get_mac to4 events r.0) _ (λ q. IsSound q.0) _
            (run-IsSound events r.0 long t) λ q u. u
