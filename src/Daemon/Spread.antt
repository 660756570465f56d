-- ===== src/Daemon/Spread.antt =====
-- From the database of one node to that of its neighbor.
use go_is_is.Common.{
  ℕ, suc, ◌≤◌, ◌≡◌, refl, ap, ◌∙◌, List, [], ◌∷◌, map, true, ◌&&◌, Option, some, Go, ok, ◌>>=◌,
  arith, length, get_elem?, All, Returns, Returns-bind, Returns-and, Bool-cases, ◌⊎◌, sym, Bool,
  ==→eq, inl, inr, if◌then◌else◌, ◌==◌,
}
use Prim.Native.Nat.{max}
use Prim.Native.String.{String}
use go_is_is.Avl.{search}
use go_is_is.Lsp.{Lsp, sequence}
use go_is_is.Node.{Intf, is_up}
use go_is_is.Update.{lsp_frame, update_round}
use go_is_is.Update.Send.{Pending}
use go_is_is.Update.Wire.{IsSendable}
use go_is_is.Update.Database.{level, level-receive, is_newer}
use go_is_is.Daemon.Databases.{and_left}
use go_is_is.Daemon.Sound.{IsSound}
use go_is_is.Daemon.{Daemon, Output, sent, update_timer, received, step, intf_step}
use go_is_is.Daemon.Safety.{Inv, After, step-After, After-trans}
use go_is_is.Daemon.Kept.{Kept-refl}
use go_is_is.Daemon.Lookup.{get_elem?-Kept}
use go_is_is.Daemon.Exchange.{Taken, step-lsp_frame}
use go_is_is.Daemon.Meet.{deliver_all}
use go_is_is.Daemon.Marked.{sent_lsps, top, All-sent_lsps, top-sent_lsps, send_marked-sent_lsps}

-- Every copy is the one stored before or the other node's, and the highest number of a key is the
-- one stored before or the one that came in.
record Raised (db : ℕ → Option Lsp) (lsps : List Lsp) (e e' : Daemon) : Type 0 where
  after : After e e'
  levels :
      (k : ℕ)
      → level (search e'.node.update_db k) ≡ max (level (search e.node.update_db k)) (top k lsps)
  origin :
      (k : ℕ)
      → (search e'.node.update_db k ≡ search e.node.update_db k)
        ⊎ (search e'.node.update_db k ≡ db k)

-- An LSP that the other node has under its key.
abbrev pub IsCopy : (ℕ → Option Lsp) → Lsp → Type 0
IsCopy db lsp = IsSendable lsp × (db lsp.key ≡ some lsp)

-- The second node after the LSPs marked on an interface of the first one have reached it.
pub record UpToDate (d : Daemon) (i : Intf) (e e' : Daemon) : Type 0 where
  pub after : After e e'
  pub no_older : (k : ℕ) → level (search e.node.update_db k) ≤ level (search e'.node.update_db k)
  pub origin :
      (k : ℕ)
      → (search e'.node.update_db k ≡ search e.node.update_db k)
        ⊎ (search e'.node.update_db k ≡ search d.node.update_db k)
  pub delivered :
      (k : ℕ) (lsp : Lsp)
      → search d.node.update_db k ≡ some lsp
      → Pending k i.lsp_flood_states
      → suc (sequence lsp) ≤ level (search e'.node.update_db k)
  pub learned :
      (k : ℕ) (lsp : Lsp)
      → search d.node.update_db k ≡ some lsp
      → Pending k i.lsp_flood_states
      → level (search e.node.update_db k) ≤ sequence lsp
      → search e'.node.update_db k ≡ some lsp

pub origin-put :
    (db : ℕ → Option Lsp) (old : Option Lsp) (lsp : Lsp) (k : ℕ) (newer : Bool)
    → db lsp.key ≡ some lsp
    → let o = if lsp.key == k && newer then some lsp else old in (o ≡ old) ⊎ (o ≡ db k)
origin-put db old lsp k newer copy = elim (Bool-cases (lsp.key == k && newer)) [
  | inr f ↦ rw f (inl refl)
  | inl t ↦ rw t (inr (sym copy ∙ ap db (==→eq lsp.key k (and_left (lsp.key == k) newer t))))
]

origin_trans : (a b c o : Option Lsp) → (b ≡ a) ⊎ (b ≡ o) → (c ≡ b) ⊎ (c ≡ o) → (c ≡ a) ⊎ (c ≡ o)
origin_trans a b c o (inl p) (inl q) = inl (q ∙ p)
origin_trans a b c o (inr p) (inl q) = inr (q ∙ p)
origin_trans a b c o p (inr q) = inr q

-- A copy of a higher number than before is the other node's.
learned-origin :
    (a b o : Option Lsp) (lsp : Lsp)
    → o ≡ some lsp
    → level a ≤ sequence lsp
    → suc (sequence lsp) ≤ level b
    → (b ≡ a) ⊎ (b ≡ o)
    → b ≡ some lsp
learned-origin a b o lsp e old new (inl p) = absurd (omega (arith, ap level p))
learned-origin a b o lsp e old new (inr p) = p ∙ e

level-Taken :
    (name : String) (lsp : Lsp) (e : Daemon) (r : Daemon × List Output) (k : ℕ)
    → Taken name lsp e r
    → level (search r.0.node.update_db k)
      ≡ max (level (search e.node.update_db k)) (if lsp.key == k then suc (sequence lsp) else 0)
level-Taken name lsp e r k t =
    ap level (t.processed.stored k) ∙ level-receive (search e.node.update_db) lsp k

module _ (l1_multicast : List ℕ) (get_mac : String → List ℕ) (to4 : List ℕ → List ℕ) where
  -- The timer of `isisUpdate` fires on an interface of the first node, and what it sends reaches the
  -- second one.
  unfoldable pub spread : Daemon → ℕ → Daemon → ℕ → Go (Daemon × Daemon)
  unfolding step deliver_all
  spread d n e m = step l1_multicast get_mac to4 d (update_timer n) >>= λ (d', out).
      deliver_all l1_multicast get_mac to4 e m out >>= λ (e', back). ok (d', e')

  abbrev pub frames : String → List Lsp → List Output
  frames name lsps = map (λ f. sent name f) (map (λ l. lsp_frame l1_multicast get_mac name l) lsps)

  module _ (six : length l1_multicast ≡ 6)
      (macs : (name : String) → length (get_mac name) ≡ 6) where
    deliver_all-Raised :
        (db : ℕ → Option Lsp) (name : String) (lsps : List Lsp) (e : Daemon) (m : ℕ) (j : Intf)
        → All (IsCopy db) lsps
        → get_elem? e.node.config.interfaces m ≡ some j
        → Inv e
        → Returns
            (deliver_all l1_multicast get_mac to4 e m (frames name lsps))
            λ r. Raised db lsps e r.0
    unfolding deliver_all top
    deliver_all-Raised db name [] e m j s at v = record {
      after = (v, Kept-refl e.node.config.interfaces);
      levels = λ k. omega arith;
      origin = λ k. inl refl;
    }
    deliver_all-Raised db name (lsp ∷ lsps) e m j ((s, copy), ss) at v =
        let event =
          received m (record { items = lsp_frame l1_multicast get_mac name lsp; spare = [] }) in
        let round = step l1_multicast get_mac to4 e event in
        Returns-bind round _ (λ q. Taken j.name lsp e q × After e q.0) _
          (Returns-and round (Taken j.name lsp e) (λ q. After e q.0)
            (step-lsp_frame l1_multicast get_mac to4 get_mac name lsp [] e m j six (macs name)
              s.well_formed s.discriminator s.type_pdu at v.db)
            (step-After l1_multicast get_mac to4 e event v))
          λ q (t, a).
            let (j', at', _) =
              get_elem?-Kept e.node.config.interfaces q.0.node.config.interfaces m j a.1 at in
            Returns-bind (deliver_all l1_multicast get_mac to4 q.0 m (frames name lsps)) _
              (λ r. Raised db lsps q.0 r.0) _ (deliver_all-Raised db name lsps q.0 m j' ss at' a.0)
              λ r b. record {
                after = After-trans e q.0 r.0 a b.after;
                levels = λ k. omega (arith, b.levels k, level-Taken j.name lsp e q k t);
                origin = λ k.
                    origin_trans (search e.node.update_db k) (search q.0.node.update_db k)
                      (search r.0.node.update_db k) (db k)
                      (rw (t.processed.stored k) (
                        origin-put db (search e.node.update_db k) lsp k
                          (is_newer (search e.node.update_db lsp.key) lsp) copy))
                      (b.origin k);
              }

    -- All addresses have six bytes; the first node is sound, the second keeps the invariant of its
    -- state, and both have an interface on the link, which is up at the first one. When its timer of
    -- `isisUpdate` fires and what it sends is delivered, nothing panics and the second node's
    -- invariant holds. Of every LSP the second node has its old copy or the first node's, and none is
    -- older than before. An LSP that is stored at the first node and marked for sending on the link
    -- is then as new or newer at the second one, and the same if it was older or missing there.
    -- A sound node has its databases in order, room in its LSP for what it advertises, and only LSPs
    -- that survive the way over a link.
    pub spread-UpToDate :
        (d : Daemon) (n : ℕ) (e : Daemon) (m : ℕ) (i j : Intf)
        → IsSound d
        → Inv e
        → get_elem? d.node.config.interfaces n ≡ some i
        → get_elem? e.node.config.interfaces m ≡ some j
        → is_up i.adj.state ≡ true
        → Returns (spread d n e m) λ r. UpToDate d i e r.1
    unfolding spread intf_step update_round
    spread-UpToDate d n e m i j s w at at' u =
        let db = search d.node.update_db in
        let lsps = sent_lsps d.node i i.lsp_flood_states in
        let copies : All (IsCopy db) lsps =
          All-sent_lsps (IsCopy db) d.node i i.lsp_flood_states
            λ k lsp f. (s.stored k lsp f, ap db (s.inv.keyed k lsp f) ∙ f) in
        rw (at, send_marked-sent_lsps l1_multicast get_mac d.node i i.lsp_flood_states)
          (Returns-bind (deliver_all l1_multicast get_mac to4 e m (frames i.name lsps)) _
            (λ r. Raised db lsps e r.0) _ (deliver_all-Raised db i.name lsps e m j copies at' w)
            λ r b.
              let delivered : (k : ℕ) (lsp : Lsp)
                  → db k ≡ some lsp
                  → Pending k i.lsp_flood_states
                  → suc (sequence lsp) ≤ level (search r.0.node.update_db k) =
                λ k lsp f marked. omega (
                  arith,
                  b.levels k,
                  top-sent_lsps d.node i i.lsp_flood_states k lsp u f (s.inv.keyed k lsp f) marked,
                ) in
              record {
                after = b.after;
                no_older = λ k. omega (arith, b.levels k);
                origin = b.origin;
                delivered = delivered;
                learned = λ k lsp f marked old.
                    learned-origin (search e.node.update_db k) (search r.0.node.update_db k) (db k)
                      lsp f old (delivered k lsp f marked) (b.origin k);
              })
