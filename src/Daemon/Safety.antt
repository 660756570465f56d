-- ===== src/Daemon/Safety.antt =====
-- What holds of a node after any sequence of rounds.
use go_is_is.Common.{
  ℕ, ◌≡◌, refl, List, [], ◌∷◌, Bool, Option, none, some, Ensures, Ensures-bind, Ensures-imp,
  Returns-Ensures, get_elem?, Bool-cases, inl, inr, ◌++◌, always,
}
use Prim.Native.String.{String}
use go_is_is.Bytes.{Slice}
use go_is_is.Avl.{search}
use go_is_is.Avl.Contract.{IsAvl}
use go_is_is.Lsp.{Lsp, deserialize_lsp}
use go_is_is.Node.{Node, Intf, configure_system_id}
use go_is_is.Update.{process_lsp, update_input, generate_local_lsp, local_lsp, update_round}
use go_is_is.Update.Send.{send_marked-HasOwnKeys}
use go_is_is.Update.Database.{Processed, process_lsp-Processed}
use go_is_is.Update.Local.{Generated, generate_local_lsp-Generated}
use go_is_is.Hello.{Action, nothing, reply, regenerate, hello_recv}
use go_is_is.Decision.{isis_decision}
use go_is_is.Daemon.{
  Daemon, Event, configure, received, hello_timer, update_timer, decide, Channel, no_channel,
  hello_chan, update_chan, with_node, set_intf, act, deliver, intf_step, decide_step, step, run,
  recv_pdu,
}
use go_is_is.Daemon.Kept.{Keeps, Kept, Kept-refl, Kept-trans, Kept-Flooded, Kept-set_at}
use go_is_is.Daemon.Databases.{Keyed, Keyed-Processed, Keyed-Generated, isis_decision-IsAvl}
use go_is_is.Daemon.Hellos.{hello_recv-Keeps}

-- Both databases are balanced search trees, and an LSP stands under its own key.
pub record Inv (d : Daemon) : Type 0 where
  pub db : IsAvl d.node.update_db
  pub topology : IsAvl d.topo
  pub keyed : Keyed (search d.node.update_db)

-- The invariant holds after it, and what no round changes has not changed.
abbrev pub After : Daemon → Daemon → Type 0
After d d' = Inv d' × Kept d.node.config.interfaces d'.node.config.interfaces

Kept-Processed :
    (name : String) (lsp : Lsp) (n : Node) (r : Node × Bool)
    → Processed name lsp n r
    → Kept n.config.interfaces r.0.config.interfaces
Kept-Processed name lsp n r p = elim (Bool-cases r.1) [
  | inl e ↦ Kept-Flooded _ lsp n.config.interfaces r.0.config.interfaces (p.flooded e)
  | inr e ↦ rw (p.ignored e) (Kept-refl n.config.interfaces)
]

-- A round that changes only an interface.
pub After-set_intf :
    (d : Daemon) (n : ℕ) (i j : Intf)
    → get_elem? d.node.config.interfaces n ≡ some i
    → Keeps i j
    → Inv d
    → After d (with_node d (set_intf d.node n j))
After-set_intf d n i j e k v = (
  record { db = v.db; topology = v.topology; keyed = v.keyed },
  Kept-set_at d.node.config.interfaces n i j e k,
)

act-After :
    (d : Daemon) (intf : Intf) (a : Action) → Inv d → Ensures (act d intf a) λ r. After d r.0
unfolding act
act-After d intf nothing v = (v, Kept-refl d.node.config.interfaces)
act-After d intf (reply frame) v = (v, Kept-refl d.node.config.interfaces)
act-After d intf regenerate v =
    Ensures-bind (generate_local_lsp d.node) _ (Generated d.node) _
      (Returns-Ensures (generate_local_lsp d.node) (Generated d.node)
        (generate_local_lsp-Generated d.node v.db))
      λ n g. (
        record { db = g.valid; topology = v.topology; keyed = Keyed-Generated d.node n g v.keyed },
        Kept-Flooded _ (local_lsp d.node) d.node.config.interfaces n.config.interfaces g.flooded,
      )

update_input-After :
    (d : Daemon) (name : String) (raw : Slice)
    → Inv d
    → Ensures
        (update_input name raw d.node)
        λ r. After d (record d { node = r.0; triggers = d.triggers ++ r.1 ∷ [] })
unfolding update_input
update_input-After d name raw v =
    Ensures-bind (deserialize_lsp raw) _ (λ _. Unit {0}) _
      (always (deserialize_lsp raw) _ (λ _. tt))
      λ lsp _.
        Ensures-imp (process_lsp name lsp d.node) (Processed name lsp d.node) _
          (λ r p. (
            record {
              db = p.valid;
              topology = v.topology;
              keyed = Keyed-Processed name lsp d.node r p v.keyed;
            },
            Kept-Processed name lsp d.node r p,
          ))
          (Returns-Ensures (process_lsp name lsp d.node) (Processed name lsp d.node)
            (process_lsp-Processed name lsp d.node v.db))

pub After-trans : (d d' d'' : Daemon) → After d d' → After d' d'' → After d d''
After-trans d d' d'' (v, k) (w, l) = (
  w,
  Kept-trans d.node.config.interfaces d'.node.config.interfaces d''.node.config.interfaces k l,
)

module _ (l1_multicast : List ℕ) (get_mac : String → List ℕ) (to4 : List ℕ → List ℕ) where
  decide_step-After :
      (d : Daemon) (triggers : List Bool)
      → Inv d
      → Ensures (decide_step l1_multicast get_mac to4 d triggers) λ r. After d r.0
  unfolding decide_step
  decide_step-After d [] v = (v, Kept-refl d.node.config.interfaces)
  decide_step-After d (spf ∷ triggers) v =
      Ensures-bind (isis_decision spf d.node d.topo) _ (λ r. IsAvl r.0) _
        (isis_decision-IsAvl spf d.node d.topo v.topology)
        λ r a.
          (record { db = v.db; topology = a; keyed = v.keyed }, Kept-refl d.node.config.interfaces)

  deliver-After :
      (d : Daemon) (i : ℕ) (intf : Intf) (raw : Slice) (c : Channel)
      → get_elem? d.node.config.interfaces i ≡ some intf
      → Inv d
      → Ensures (deliver l1_multicast get_mac to4 d i intf raw c) λ r. After d r.0
  unfolding deliver
  deliver-After d i intf raw no_channel e v = (v, Kept-refl d.node.config.interfaces)
  deliver-After d i intf raw hello_chan e v =
      let sid = d.node.config.sid in
      Ensures-bind (hello_recv l1_multicast get_mac to4 sid intf raw) _ (λ r. Keeps intf r.0) _
        (hello_recv-Keeps l1_multicast get_mac to4 sid intf raw)
        λ r k.
          let d' = with_node d (set_intf d.node i r.0) in
          let first = After-set_intf d i intf r.0 e k v in
          Ensures-imp (act d' r.0 r.1) (λ q. After d' q.0) _ (λ q a. After-trans d d' q.0 first a)
            (act-After d' r.0 r.1 first.0)
  deliver-After d i intf raw update_chan e v =
      Ensures-bind (update_input intf.name raw d.node) _ _ _ (update_input-After d intf.name raw v)
        λ r a. a

  intf_step-After :
      (d : Daemon) (ev : Event) (i : ℕ) (found : Option Intf)
      → get_elem? d.node.config.interfaces i ≡ found
      → Inv d
      → Ensures (intf_step l1_multicast get_mac to4 d ev i found) λ r. After d r.0
  unfolding intf_step update_round
  intf_step-After d ev i none e v = (v, Kept-refl d.node.config.interfaces)
  intf_step-After d (received _ raw) i (some intf) e v =
      Ensures-bind (recv_pdu raw) _ (λ _. Unit {0}) _ (always (recv_pdu raw) _ (λ _. tt))
        λ c _. deliver-After d i intf raw c e v
  intf_step-After d (hello_timer _) i (some intf) e v = (v, Kept-refl d.node.config.interfaces)
  intf_step-After d (update_timer _) i (some intf) e v =
      After-set_intf d i intf (update_round l1_multicast get_mac d.node intf).1 e
        (record {
          same_name = refl;
          same_routes = refl;
          stays_up = λ u. u;
          has_id = λ h. h;
          own_keys =
              λ h. send_marked-HasOwnKeys l1_multicast get_mac d.node intf intf.lsp_flood_states h;
        })
        v
  intf_step-After d (configure _) i (some intf) e v = (v, Kept-refl d.node.config.interfaces)
  intf_step-After d decide i (some intf) e v = (v, Kept-refl d.node.config.interfaces)

  pub step-After :
      (d : Daemon) (ev : Event)
      → Inv d
      → Ensures (step l1_multicast get_mac to4 d ev) λ r. After d r.0
  unfolding step configure_system_id
  step-After d (configure sid) v = (
    record { db = v.db; topology = v.topology; keyed = v.keyed },
    Kept-refl d.node.config.interfaces,
  )
  step-After d (received i raw) v = intf_step-After d (received i raw) i _ refl v
  step-After d (hello_timer i) v = intf_step-After d (hello_timer i) i _ refl v
  step-After d (update_timer i) v = intf_step-After d (update_timer i) i _ refl v
  step-After d decide v = decide_step-After d d.triggers v

  -- Any sequence of rounds, from any state of a node in which both databases are balanced search
  -- trees and every LSP stands under its own key, ends in such a state if it does not panic; the
  -- interfaces are the same by name, order and routes, no adjacency that was up has gone down, and
  -- one that has come up has a system ID of six bytes.
  pub run-After :
      (events : List Event) (d : Daemon)
      → Inv d
      → Ensures (run l1_multicast get_mac to4 events d) λ r. After d r.0
  unfolding run
  run-After [] d v = (v, Kept-refl d.node.config.interfaces)
  run-After (ev ∷ events) d v =
      Ensures-bind (step l1_multicast get_mac to4 d ev) _ (λ r. After d r.0) _ (step-After d ev v)
        λ r a.
          Ensures-bind (run l1_multicast get_mac to4 events r.0) _ (λ q. After r.0 q.0) _
            (run-After events r.0 a.0) λ q b. After-trans d r.0 q.0 a b
