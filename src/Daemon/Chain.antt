-- ===== src/Daemon/Chain.antt =====
-- Flooding along a path of nodes.
use go_is_is.Common.{
  ℕ, suc, ◌≤◌, ◌≡◌, refl, sym, ap, ◌∙◌, List, [], ◌∷◌, true, some, Go, ok, ◌>>=◌, arith, length,
  get_elem?, All, Returns, Returns-bind, Returns-and, Returns-Ensures, Returns-imp,
}
use Prim.Native.String.{String}
use go_is_is.Avl.{search}
use go_is_is.Lsp.{Lsp, sequence}
use go_is_is.Node.{Intf, is_up}
use go_is_is.Update.{update_round}
use go_is_is.Update.Flood.{is_other}
use go_is_is.Update.Send.{Pending, srm_of-Pending}
use go_is_is.Update.Database.{level}
use go_is_is.Daemon.{Daemon, intf_step, step}
use go_is_is.Daemon.Lookup.{get_elem?-Kept, All-at}
use go_is_is.Daemon.Marked.{sent_lsps, All-sent_lsps, top-sent_lsps, send_marked-sent_lsps}
use go_is_is.Daemon.Meet.{deliver_all}
use go_is_is.Daemon.Sound.{IsSound}
use go_is_is.Daemon.Relay.{Relays, deliver_all-new}
use go_is_is.Daemon.Spread.{IsCopy, frames, spread, UpToDate, spread-UpToDate}

-- A node on the path: the interface towards the node before it, and that towards the next one.
pub record Hop : Type 0 where
  pub daemon : Daemon
  pub inward : ℕ
  pub outward : ℕ

-- A sound node with an interface on the link, whose copy of the LSP is older or missing.
pub record CanTake (lsp : Lsp) (h : Hop) : Type 0 where
  pub sound : IsSound h.daemon
  pub intf : Intf
  pub at : get_elem? h.daemon.node.config.interfaces h.inward ≡ some intf
  pub older : level (search h.daemon.node.update_db lsp.key) ≤ sequence lsp

-- Its other interface has another name, and is up.
pub record CanPass (name : String) (h : Hop) : Type 0 where
  pub intf : Intf
  pub at : get_elem? h.daemon.node.config.interfaces h.outward ≡ some intf
  pub other : is_other name intf ≡ true
  pub is_up_there : is_up intf.adj.state ≡ true

-- All nodes can take the LSP, and all but the last can pass it on.
abbrev pub CanFlood : Lsp → List Hop → Type 0
CanFlood lsp [] = Unit
CanFlood lsp (h ∷ []) = CanTake lsp h
CanFlood lsp (h ∷ h' ∷ hops) =
    ((t : CanTake lsp h) × CanPass t.intf.name h) × CanFlood lsp (h' ∷ hops)

-- A sound node that has the LSP, marked on an interface that is up.
pub record CanSend (lsp : Lsp) (d : Daemon) (n : ℕ) : Type 0 where
  pub sound : IsSound d
  pub intf : Intf
  pub at : get_elem? d.node.config.interfaces n ≡ some intf
  pub is_up_there : is_up intf.adj.state ≡ true
  pub stored : search d.node.update_db lsp.key ≡ some lsp
  pub marked : Pending lsp.key intf.lsp_flood_states

abbrev pub Has : Lsp → Daemon → Type 0
Has lsp d = search d.node.update_db lsp.key ≡ some lsp

module _ (l1_multicast : List ℕ) (get_mac : String → List ℕ) (to4 : List ℕ → List ℕ) where
  -- Along the path, the timer of `isisUpdate` fires on a node's interface towards the next one, and
  -- what it sends reaches that one: the nodes as they are then.
  unfoldable pub flood : Daemon → ℕ → List Hop → Go (List Daemon)
  unfolding spread
  flood d n [] = ok []
  flood d n (h ∷ hops) = spread l1_multicast get_mac to4 d n h.daemon h.inward >>= λ (d', e).
      flood e h.outward hops >>= λ es. ok (e ∷ es)

  module _ (six : length l1_multicast ≡ 6)
      (macs : (name : String) → length (get_mac name) ≡ 6) where
    spread-Relays :
        (lsp : Lsp) (d : Daemon) (n : ℕ) (h : Hop) (c : CanSend lsp d n) (t : CanTake lsp h)
        → CanPass t.intf.name h
        → Returns
            (spread l1_multicast get_mac to4 d n h.daemon h.inward)
            λ r. IsSound r.1 × Relays lsp h.outward t.intf.name r.1.node
    unfolding spread step intf_step update_round
    spread-Relays lsp d n h c t p =
        let i = c.intf in
        let db = search d.node.update_db in
        let lsps = sent_lsps d.node i i.lsp_flood_states in
        let copies : All (IsCopy db) lsps =
          All-sent_lsps (IsCopy db) d.node i i.lsp_flood_states
            λ k l f. (c.sound.stored k l f, ap db (c.sound.inv.keyed k l f) ∙ f) in
        rw (c.at, send_marked-sent_lsps l1_multicast get_mac d.node i i.lsp_flood_states)
          (Returns-bind
            (deliver_all l1_multicast get_mac to4 h.daemon h.inward
              (frames l1_multicast get_mac to4 i.name lsps))
            _ (λ r. IsSound r.0 × Relays lsp h.outward t.intf.name r.0.node) _
            (deliver_all-new l1_multicast get_mac to4 six macs db lsp i.name lsps h.daemon h.inward
              h.outward t.intf p.intf copies c.stored
              (omega (
                arith,
                top-sent_lsps d.node i i.lsp_flood_states lsp.key lsp c.is_up_there c.stored refl
                    c.marked,
              ))
              t.older t.at p.at p.other t.sound)
            λ r q. q)

    spread-UpToDate_hop :
        (lsp : Lsp) (d : Daemon) (n : ℕ) (h : Hop) (c : CanSend lsp d n) (t : CanTake lsp h)
        → Returns
            (spread l1_multicast get_mac to4 d n h.daemon h.inward)
            λ r. UpToDate d c.intf h.daemon r.1
    spread-UpToDate_hop lsp d n h c t =
        spread-UpToDate l1_multicast get_mac to4 six macs d n h.daemon h.inward c.intf t.intf
          c.sound t.sound.inv c.at t.at c.is_up_there

    spread-CanSend :
        (lsp : Lsp) (d : Daemon) (n : ℕ) (h : Hop) (c : CanSend lsp d n) (t : CanTake lsp h)
        → CanPass t.intf.name h
        → Returns
            (spread l1_multicast get_mac to4 d n h.daemon h.inward)
            λ r. CanSend lsp r.1 h.outward
    spread-CanSend lsp d n h c t p =
        let round = spread l1_multicast get_mac to4 d n h.daemon h.inward in
        Returns-imp round _ _
          (λ r (u, (s, g)).
            let (j, at, k) =
              get_elem?-Kept h.daemon.node.config.interfaces r.1.node.config.interfaces h.outward
                p.intf u.after.1 p.at in
            let same : j ≡ g.intf = some_injective j g.intf (sym at ∙ g.at) in
            record {
              sound = s;
              intf = g.intf;
              at = g.at;
              is_up_there =
                  ap (λ (i : Intf). is_up i.adj.state) (sym same) ∙ k.stays_up p.is_up_there;
              stored = g.stored;
              marked =
                  srm_of-Pending g.intf.lsp_flood_states lsp.key
                    (All-at _ r.1.node.config.interfaces h.outward g.intf s.fits.own_keys g.at)
                    g.marked;
            })
          (Returns-and round (λ r. UpToDate d c.intf h.daemon r.1)
            (λ r. IsSound r.1 × Relays lsp h.outward t.intf.name r.1.node)
            (spread-UpToDate_hop lsp d n h c t)
            (Returns-Ensures round _ (spread-Relays lsp d n h c t p)))
      where
        some_injective : (a b : Intf) → some a ≡ some b → a ≡ b
        some_injective a b e = cc

    -- All addresses have six bytes. A sound node has an LSP, marked for sending on an interface that is
    -- up. From there a path of sound nodes leads on, whose copies of the LSP are older or missing;
    -- each but the last has a second interface, of another name, that is up. When along the path the
    -- timers of `isisUpdate` fire and what is sent is delivered, nothing panics, and every node on
    -- the path then has the LSP.
    -- A sound node has its databases in order, room in its LSP for what it advertises, and only LSPs
    -- that survive the way over a link.
    pub flood-Has :
        (lsp : Lsp) (d : Daemon) (n : ℕ) (hops : List Hop)
        → CanSend lsp d n
        → CanFlood lsp hops
        → Returns (flood d n hops) λ es. (length es ≡ length hops) × All (Has lsp) es
    unfolding flood
    flood-Has lsp d n [] c path = (refl, tt)
    flood-Has lsp d n (h ∷ []) c t =
        Returns-bind (spread l1_multicast get_mac to4 d n h.daemon h.inward) _
          (λ r. UpToDate d c.intf h.daemon r.1) _ (spread-UpToDate_hop lsp d n h c t)
          λ r u. (refl, (u.learned lsp.key lsp c.stored c.marked t.older, tt))
    flood-Has lsp d n (h ∷ h' ∷ hops) c ((t, p), path) =
        Returns-bind (spread l1_multicast get_mac to4 d n h.daemon h.inward) _
          (λ r. CanSend lsp r.1 h.outward) _ (spread-CanSend lsp d n h c t p)
          λ r s.
            Returns-bind (flood r.1 h.outward (h' ∷ hops)) _
              (λ es. (length es ≡ suc (length hops)) × All (Has lsp) es) _
              (flood-Has lsp r.1 h.outward (h' ∷ hops) s path)
              λ es (e, a). (ap suc e, (s.stored, a))
