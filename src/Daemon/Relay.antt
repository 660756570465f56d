-- ===== src/Daemon/Relay.antt =====
-- A node that passes on what it receives.
use go_is_is.Common.{
  ℕ, suc, ◌≤◌, ◌≡◌, refl, sym, ap, subst, ◌∙◌, List, [], ◌∷◌, true, false, Option, none, some,
  arith, length, get_elem?, All, ◌==◌, ==→eq, Returns, Returns-bind, Returns-and, Ensures-and,
  Bool-cases, inl, inr, ◌⊎◌, if◌then◌else◌,
}
use Prim.Native.Nat.{max}
use Prim.Native.String.{String}
use go_is_is.Avl.{search}
use go_is_is.Lsp.{Lsp, sequence, serialize_lsp, write_pdu_header}
use go_is_is.Node.{Node, Intf}
use go_is_is.Update.{lsp_frame}
use go_is_is.Update.Wire.{IsSendable}
use go_is_is.Update.Flood.{srm_of, is_other}
use go_is_is.Update.Database.{level, receive, is_newer}
use go_is_is.Daemon.{Daemon, Output, received, step}
use go_is_is.Daemon.Lookup.{get_elem?-Flooded, get_elem?-Kept}
use go_is_is.Daemon.Exchange.{Taken, step-lsp_frame}
use go_is_is.Daemon.Meet.{deliver_all}
use go_is_is.Daemon.Marked.{top}
use go_is_is.Daemon.Safety.{After, step-After}
use go_is_is.Daemon.Sound.{IsSound, IsLong, step-IsSound}
use go_is_is.Daemon.Announce.{length-build_ethernet_frame}
use go_is_is.Daemon.Spread.{IsCopy, frames, origin-put}

-- The LSP is stored, and marked for sending on an interface other than that of the name.
pub record Relays (lsp : Lsp) (p : ℕ) (name : String) (n : Node) : Type 0 where
  pub stored : search n.update_db lsp.key ≡ some lsp
  pub intf : Intf
  pub at : get_elem? n.config.interfaces p ≡ some intf
  pub other : is_other name intf ≡ true
  pub marked : srm_of intf.lsp_flood_states lsp.key ≡ some true

same_lsp :
    (db : ℕ → Option Lsp) (l lsp : Lsp)
    → db l.key ≡ some l
    → db lsp.key ≡ some lsp
    → l.key ≡ lsp.key
    → l ≡ lsp
same_lsp db l lsp copy own b = some_injective (sym copy ∙ ap db b ∙ own)
  where
    some_injective : some l ≡ some lsp → l ≡ lsp
    some_injective e = cc

-- A received LSP that is accepted is marked, or leaves the mark of another key.
Relays-accepted :
    (db : ℕ → Option Lsp) (lsp l : Lsp) (p : ℕ) (name : String) (e : Daemon)
    (r : Daemon × List Output) (i : Intf) (t : Taken name l e r)
    → db l.key ≡ some l
    → db lsp.key ≡ some lsp
    → t.spf ≡ true
    → get_elem? e.node.config.interfaces p ≡ some i
    → is_other name i ≡ true
    → (l.key ≡ lsp.key) ⊎ (srm_of i.lsp_flood_states lsp.key ≡ some true)
    → search r.0.node.update_db lsp.key ≡ some lsp
    → Relays lsp p name r.0.node
Relays-accepted db lsp l p name e r i t copy own spf at other known stored =
    let (j, at', m) =
      get_elem?-Flooded (is_other name) l e.node.config.interfaces r.0.node.config.interfaces p i
        (t.processed.flooded spf) at in
    record {
      stored = stored;
      intf = j;
      at = at';
      other = rw m.same_name other;
      marked = m.flags lsp.key ∙ rw other (flag known);
    }
  where
    flag :
        (l.key ≡ lsp.key) ⊎ (srm_of i.lsp_flood_states lsp.key ≡ some true)
        → (if l.key == lsp.key then some true else srm_of i.lsp_flood_states lsp.key) ≡ some true
    flag (inl k) = rw k (ground arith)
    flag (inr k) = elim (Bool-cases (l.key == lsp.key)) [ inl q ↦ rw q refl | inr q ↦ rw q k ]

-- What it has to pass on it keeps when the node receives more from the same database.
Relays-Taken :
    (db : ℕ → Option Lsp) (lsp l : Lsp) (p : ℕ) (name : String) (e : Daemon)
    (r : Daemon × List Output)
    → Taken name l e r
    → db l.key ≡ some l
    → db lsp.key ≡ some lsp
    → Relays lsp p name e.node
    → Relays lsp p name r.0.node
Relays-Taken db lsp l p name e r t copy own h = elim (Bool-cases t.spf) [
  | inr f ↦ subst (Relays lsp p name) (sym (t.processed.ignored f)) h
  | inl f ↦
      Relays-accepted db lsp l p name e r h.intf t copy own f h.at h.other (inr h.marked)
        (t.processed.stored lsp.key ∙ kept)
]
  where
    kept : receive (search e.node.update_db) l lsp.key ≡ some lsp
    kept =
        elim (origin-put db (search e.node.update_db lsp.key) l lsp.key
          (is_newer (search e.node.update_db l.key) l) copy) [
            | inl q ↦ q ∙ h.stored
            | inr q ↦ q ∙ own
          ]

newer_of_level : (o : Option Lsp) (lsp : Lsp) → level o ≤ sequence lsp → is_newer o lsp ≡ true
newer_of_level none lsp h = refl
newer_of_level (some old) lsp h = ground arith

-- An LSP that is newer than the copy in the database.
Relays-new :
    (lsp : Lsp) (p : ℕ) (name : String) (e : Daemon) (r : Daemon × List Output) (i : Intf)
    (db : ℕ → Option Lsp)
    → Taken name lsp e r
    → db lsp.key ≡ some lsp
    → level (search e.node.update_db lsp.key) ≤ sequence lsp
    → get_elem? e.node.config.interfaces p ≡ some i
    → is_other name i ≡ true
    → Relays lsp p name r.0.node
Relays-new lsp p name e r i db t own old at other =
    let newer = newer_of_level (search e.node.update_db lsp.key) lsp old in
    let same : (lsp.key == lsp.key) ≡ true = ground arith in
    Relays-accepted db lsp lsp p name e r i t own own (t.processed.triggers ∙ newer) at other
      (inl refl) (t.processed.stored lsp.key ∙ rw (same, newer) refl)

module _ (l1_multicast : List ℕ) (get_mac : String → List ℕ) (to4 : List ℕ → List ℕ) where
  lsp_frame-IsLong :
      (name : String) (lsp : Lsp) (spare : List ℕ) (n : ℕ)
      → length l1_multicast ≡ 6
      → length (get_mac name) ≡ 6
      → IsLong
          (received n (record { items = lsp_frame l1_multicast get_mac name lsp; spare = spare }))
  unfolding IsLong lsp_frame serialize_lsp write_pdu_header
  lsp_frame-IsLong name lsp spare n a b =
      omega (
        arith,
        length-build_ethernet_frame l1_multicast (get_mac name) (serialize_lsp lsp.core_lsp),
      )

  module _ (six : length l1_multicast ≡ 6)
      (macs : (name : String) → length (get_mac name) ≡ 6) where
    -- One frame with an LSP.
    receive_one :
        (out : String) (lsp : Lsp) (e : Daemon) (m : ℕ) (j : Intf)
        → IsSendable lsp
        → get_elem? e.node.config.interfaces m ≡ some j
        → IsSound e
        → Returns
            (step l1_multicast get_mac to4 e
              (received m (record { items = lsp_frame l1_multicast get_mac out lsp; spare = [] })))
            λ q. Taken j.name lsp e q × (After e q.0 × IsSound q.0)
    receive_one out lsp e m j s at v =
        let event =
          received m (record { items = lsp_frame l1_multicast get_mac out lsp; spare = [] }) in
        let round = step l1_multicast get_mac to4 e event in
        Returns-and round (Taken j.name lsp e) (λ q. After e q.0 × IsSound q.0)
          (step-lsp_frame l1_multicast get_mac to4 get_mac out lsp [] e m j six (macs out)
            s.well_formed s.discriminator s.type_pdu at v.inv.db)
          (Ensures-and round (λ q. After e q.0) (λ q. IsSound q.0)
            (step-After l1_multicast get_mac to4 e event v.inv)
            (step-IsSound l1_multicast get_mac to4 e event
              (lsp_frame-IsLong out lsp [] m six (macs out)) v))

    -- What is to be passed on stays so while more comes in.
    deliver_all-Relays :
        (db : ℕ → Option Lsp) (lsp : Lsp) (out : String) (lsps : List Lsp) (e : Daemon) (m p : ℕ)
        (j : Intf)
        → All (IsCopy db) lsps
        → db lsp.key ≡ some lsp
        → get_elem? e.node.config.interfaces m ≡ some j
        → IsSound e
        → Relays lsp p j.name e.node
        → Returns
            (deliver_all l1_multicast get_mac to4 e m (frames l1_multicast get_mac to4 out lsps))
            λ r. IsSound r.0 × Relays lsp p j.name r.0.node
    unfolding deliver_all
    deliver_all-Relays db lsp out [] e m p j c own at v h = (v, h)
    deliver_all-Relays db lsp out (l ∷ lsps) e m p j ((s, copy), c) own at v h =
        Returns-bind _ _ (λ q. Taken j.name l e q × (After e q.0 × IsSound q.0)) _
          (receive_one out l e m j s at v)
          λ q (t, (a, w)).
            let (j', at', k) =
              get_elem?-Kept e.node.config.interfaces q.0.node.config.interfaces m j a.1 at in
            let h' : Relays lsp p j'.name q.0.node =
              rw k.same_name (Relays-Taken db lsp l p j.name e q t copy own h) in
            Returns-bind _ _ (λ r. IsSound r.0 × Relays lsp p j'.name r.0.node) _
              (deliver_all-Relays db lsp out lsps q.0 m p j' c own at' w h')
              λ r (u, g). (u, rw k.same_name at g)

    -- An LSP that comes in and is newer than the copy in the database is to be passed on.
    pub deliver_all-new :
        (db : ℕ → Option Lsp) (lsp : Lsp) (out : String) (lsps : List Lsp) (e : Daemon) (m p : ℕ)
        (j x : Intf)
        → All (IsCopy db) lsps
        → db lsp.key ≡ some lsp
        → 1 ≤ top lsp.key lsps
        → level (search e.node.update_db lsp.key) ≤ sequence lsp
        → get_elem? e.node.config.interfaces m ≡ some j
        → get_elem? e.node.config.interfaces p ≡ some x
        → is_other j.name x ≡ true
        → IsSound e
        → Returns
            (deliver_all l1_multicast get_mac to4 e m (frames l1_multicast get_mac to4 out lsps))
            λ r. IsSound r.0 × Relays lsp p j.name r.0.node
    unfolding deliver_all top
    deliver_all-new db lsp out [] e m p j x c own sent old at at' other v = absurd (omega arith)
    deliver_all-new db lsp out (l ∷ lsps) e m p j x ((s, copy), c) own sent old at at' other v =
        Returns-bind _ _ (λ q. Taken j.name l e q × (After e q.0 × IsSound q.0)) _
          (receive_one out l e m j s at v)
          λ q (t, (a, w)).
            let (j', atm, k) =
              get_elem?-Kept e.node.config.interfaces q.0.node.config.interfaces m j a.1 at in
            let (x', atp, k') =
              get_elem?-Kept e.node.config.interfaces q.0.node.config.interfaces p x a.1 at' in
            let rest =
              deliver_all l1_multicast get_mac to4 q.0 m
                (frames l1_multicast get_mac to4 out lsps) in
            let skipped : (l.key == lsp.key) ≡ false
                → 1 ≤ max (if l.key == lsp.key then suc (sequence l) else 0) (top lsp.key lsps)
                → 1 ≤ top lsp.key lsps =
              λ b h. ground arith in
            let later : Returns rest (λ r. IsSound r.0 × Relays lsp p j'.name r.0.node) =
              elim (Bool-cases (l.key == lsp.key)) [
                | inl b ↦ deliver_all-Relays db lsp out lsps q.0 m p j' c own atm w (
                    rw k.same_name (
                      Relays-new lsp p j.name e q x db
                        (rw (same_lsp db l lsp copy own (==→eq l.key lsp.key b)) at t) own old at'
                        other))
                | inr b ↦
                    deliver_all-new db lsp out lsps q.0 m p j' x' c own (skipped b sent)
                      (subst (λ (o : Option Lsp). level o ≤ sequence lsp)
                        (sym (t.processed.stored lsp.key ∙ rw b refl)) old)
                      atm atp (rw (k.same_name, k'.same_name) other) w
              ] in
            Returns-bind rest _ (λ r. IsSound r.0 × Relays lsp p j'.name r.0.node) _ later
              λ r (u, g). (u, rw k.same_name at g)
