-- ===== src/Daemon/Marked.antt =====
-- The LSPs that `isisUpdate` sends on an interface.
use go_is_is.Common.{
  ℕ, suc, ◌≤◌, ◌≡◌, refl, ap, List, [], ◌∷◌, map, true, ◌&&◌, Option, none, some, arith, All,
  Bool-cases, Option-cases, inl, inr, if◌then◌else◌, ◌==◌,
}
use Prim.Native.Nat.{max}
use Prim.Native.String.{String}
use go_is_is.Avl.{search}
use go_is_is.Lsp.{Lsp, sequence}
use go_is_is.Node.{Node, Intf, LspFloodState, is_up}
use go_is_is.Update.{lsp_frame, send_one, send_marked, cons_some}
use go_is_is.Update.Send.{Pending}

-- The LSP that a flood state makes `isisUpdate` send.
unfoldable to_send : Node → Intf → LspFloodState → Option Lsp
to_send n intf s = if s.srm && is_up intf.adj.state then search n.update_db s.lsp_id_key else none

unfoldable pub sent_lsps : Node → Intf → List (ℕ × LspFloodState) → List Lsp
unfolding to_send
sent_lsps n intf [] = []
sent_lsps n intf ((k, s) ∷ states) = cons_some (to_send n intf s) (sent_lsps n intf states)

-- The highest number among the LSPs of a key, one more than it.
unfoldable pub top : ℕ → List Lsp → ℕ
top k [] = 0
top k (lsp ∷ lsps) = max (if lsp.key == k then suc (sequence lsp) else 0) (top k lsps)

pub All-sent_lsps :
    (P : Lsp → Type 0) (n : Node) (intf : Intf) (states : List (ℕ × LspFloodState))
    → ((k : ℕ) (lsp : Lsp) → search n.update_db k ≡ some lsp → P lsp)
    → All P (sent_lsps n intf states)
unfolding sent_lsps
All-sent_lsps P n intf [] h = tt
All-sent_lsps P n intf ((k, s) ∷ states) h = elim (Bool-cases (s.srm && is_up intf.adj.state)) [
  | inr q ↦ rw q (All-sent_lsps P n intf states h)
  | inl q ↦ rw q (elim (Option-cases (search n.update_db s.lsp_id_key)) [
    | inl e ↦ rw e (All-sent_lsps P n intf states h)
    | inr (lsp, e) ↦ rw e (h s.lsp_id_key lsp e, All-sent_lsps P n intf states h)
  ])
]

-- An LSP that is marked is among those sent.
pub top-sent_lsps :
    (n : Node) (intf : Intf) (states : List (ℕ × LspFloodState)) (k : ℕ) (lsp : Lsp)
    → is_up intf.adj.state ≡ true
    → search n.update_db k ≡ some lsp
    → lsp.key ≡ k
    → Pending k states
    → suc (sequence lsp) ≤ top k (sent_lsps n intf states)
unfolding sent_lsps top
top-sent_lsps n intf [] k lsp u e own p = absurd p
top-sent_lsps n intf ((j, s) ∷ states) k lsp u e own (inl (_, q, t)) =
    rw (t, u, q, e) (ground arith)
top-sent_lsps n intf ((j, s) ∷ states) k lsp u e own (inr p) =
    grow (to_send n intf s) (top-sent_lsps n intf states k lsp u e own p)
  where
    grow :
        (o : Option Lsp)
        → suc (sequence lsp) ≤ top k (sent_lsps n intf states)
        → suc (sequence lsp) ≤ top k (cons_some o (sent_lsps n intf states))
    grow none h = h
    grow (some l) h = omega arith

module _ (l1_multicast : List ℕ) (get_mac : String → List ℕ) where
  pub send_marked-sent_lsps :
      (n : Node) (intf : Intf) (states : List (ℕ × LspFloodState))
      → (send_marked l1_multicast get_mac n intf states).0
        ≡ map (λ l. lsp_frame l1_multicast get_mac intf.name l) (sent_lsps n intf states)
  unfolding send_marked sent_lsps send_one
  send_marked-sent_lsps n intf [] = refl
  send_marked-sent_lsps n intf ((k, s) ∷ states) =
      elim (Bool-cases (s.srm && is_up intf.adj.state)) [
        | inr q ↦ rw q (send_marked-sent_lsps n intf states)
        | inl q ↦ rw q (elim (Option-cases (search n.update_db s.lsp_id_key)) [
          | inl e ↦ rw e (send_marked-sent_lsps n intf states)
          | inr (lsp, e) ↦ rw e (
              ap (◌∷◌ (lsp_frame l1_multicast get_mac intf.name lsp))
                (send_marked-sent_lsps n intf states))
        ])
      ]
