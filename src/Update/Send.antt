-- ===== src/Update/Send.antt =====
-- The sending half of the update process.
use go_is_is.Common.{
  ℕ, ◌+◌, ◌≡◌, refl, ◌∙◌, List, [], ◌∷◌, true, Option, none, some, arith, length, inl, inr,
  Bool-cases, ◌==◌, ==→eq, ◌⊎◌, if◌then◌else◌,
}
use Prim.Native.String.{String}
use go_is_is.Avl.{search}
use go_is_is.Lsp.{Lsp}
use go_is_is.Node.{Node, Intf, LspFloodState, is_up}
use go_is_is.Update.Flood.{HasOwnKeys, srm_of}
use go_is_is.Update.{lsp_frame, send_one, send_marked, update_round, cons_some}

-- How many flags are set.
abbrev pub flag : LspFloodState → ℕ
flag s = if s.srm then 1 else 0

abbrev pub pending : List (ℕ × LspFloodState) → ℕ
pending [] = 0
pending ((k, s) ∷ states) = flag s + pending states

-- A frame is among those sent.
abbrev pub Contains : List ℕ → List (List ℕ) → Type 0
Contains f [] = ⊥
Contains f (g ∷ fs) = (f ≡ g) ⊎ Contains f fs

-- The map has the key, with a state of that key whose SRM flag is set.
abbrev pub Pending : ℕ → List (ℕ × LspFloodState) → Type 0
Pending k [] = ⊥
Pending k ((j, s) ∷ states) = ((j ≡ k) × (s.lsp_id_key ≡ k) × (s.srm ≡ true)) ⊎ Pending k states

pub srm_of-Pending :
    (states : List (ℕ × LspFloodState)) (k : ℕ)
    → HasOwnKeys states
    → srm_of states k ≡ some true
    → Pending k states
unfolding srm_of
srm_of-Pending [] k h e = cc
srm_of-Pending ((j, s) ∷ states) k (own, h) e = elim (Bool-cases (j == k)) [
  | inl q ↦ inl (==→eq j k q, own ∙ ==→eq j k q, some_true (rw q at e))
  | inr q ↦ inr (srm_of-Pending states k h (rw q at e))
]
  where
    some_true : (some s.srm ≡ some true) → s.srm ≡ true
    some_true p = cc

module _ (l1_multicast : List ℕ) (get_mac : String → List ℕ) where
  abbrev count : Option (List ℕ) → ℕ
  count none = 0
  count (some f) = 1

  flag-send_one :
      (n : Node) (intf : Intf) (s : LspFloodState)
      → count (send_one l1_multicast get_mac n intf s).0
          + flag (send_one l1_multicast get_mac n intf s).1
        ≡ flag s
  unfolding send_one
  flag-send_one n intf s = ground arith

  length-cons_some :
      (f : Option (List ℕ)) (fs : List (List ℕ)) → length (cons_some f fs) ≡ count f + length fs
  length-cons_some none fs = omega arith
  length-cons_some (some f) fs = omega arith

  pending-send_marked :
      (n : Node) (intf : Intf) (states : List (ℕ × LspFloodState))
      → length (send_marked l1_multicast get_mac n intf states).0
          + pending (send_marked l1_multicast get_mac n intf states).1
        ≡ pending states
  unfolding send_marked
  pending-send_marked n intf [] = omega arith
  pending-send_marked n intf ((k, s) ∷ states) = omega (
    arith,
    pending-send_marked n intf states,
    flag-send_one n intf s,
    length-cons_some (send_one l1_multicast get_mac n intf s).0
        (send_marked l1_multicast get_mac n intf states).0,
  )

  -- A round of `isisUpdate` clears exactly as many SRM flags as it sends frames.
  pub pending-update_round :
      (n : Node) (intf : Intf)
      → length (update_round l1_multicast get_mac n intf).0
          + pending (update_round l1_multicast get_mac n intf).1.lsp_flood_states
        ≡ pending intf.lsp_flood_states
  unfolding update_round
  pending-update_round n intf = pending-send_marked n intf intf.lsp_flood_states

  send_one-again :
      (n : Node) (i j : Intf) (s : LspFloodState)
      → i.adj ≡ j.adj
      → send_one l1_multicast get_mac n j (send_one l1_multicast get_mac n i s).1
        ≡ (none, (send_one l1_multicast get_mac n i s).1)
  unfolding send_one
  send_one-again n i j s e = ground arith

  send_marked-again :
      (n : Node) (i j : Intf) (states : List (ℕ × LspFloodState))
      → i.adj ≡ j.adj
      → send_marked l1_multicast get_mac n j (send_marked l1_multicast get_mac n i states).1
        ≡ ([], (send_marked l1_multicast get_mac n i states).1)
  unfolding send_marked
  send_marked-again n i j [] e = refl
  send_marked-again n i j ((k, s) ∷ states) e =
      rw (send_one-again n i j s e, send_marked-again n i j states e) refl

  -- A second round of `isisUpdate` on the same interface, with nothing changed in between, sends
  -- nothing and changes nothing.
  pub update_round-again :
      (n : Node) (intf : Intf)
      → let intf' = (update_round l1_multicast get_mac n intf).1 in
        update_round l1_multicast get_mac n intf' ≡ ([], intf')
  unfolding update_round
  update_round-again n intf =
      rw
        (send_marked-again n intf (update_round l1_multicast get_mac n intf).1 intf.lsp_flood_states
          refl)
        refl

  Contains-cons_some :
      (f : List ℕ) (o : Option (List ℕ)) (fs : List (List ℕ))
      → Contains f fs
      → Contains f (cons_some o fs)
  Contains-cons_some f none fs c = c
  Contains-cons_some f (some g) fs c = inr c

  send_marked-Contains :
      (n : Node) (intf : Intf) (states : List (ℕ × LspFloodState)) (k : ℕ) (lsp : Lsp)
      → is_up intf.adj.state ≡ true
      → search n.update_db k ≡ some lsp
      → Pending k states
      → Contains
          (lsp_frame l1_multicast get_mac intf.name lsp)
          (send_marked l1_multicast get_mac n intf states).0
  unfolding send_marked send_one
  send_marked-Contains n intf [] k lsp u e p = absurd p
  send_marked-Contains n intf ((j, s) ∷ states) k lsp u e (inl (_, q, t)) =
      rw (t, u, q, e) (inl refl)
  send_marked-Contains n intf ((j, s) ∷ states) k lsp u e (inr p) =
      Contains-cons_some _ (send_one l1_multicast get_mac n intf s).0 _
        (send_marked-Contains n intf states k lsp u e p)

  -- On an interface with its adjacency up, a round of `isisUpdate` sends the frame of every LSP
  -- that is in the database and marked for sending there.
  pub update_round-Contains :
      (n : Node) (intf : Intf) (k : ℕ) (lsp : Lsp)
      → is_up intf.adj.state ≡ true
      → search n.update_db k ≡ some lsp
      → Pending k intf.lsp_flood_states
      → Contains
          (lsp_frame l1_multicast get_mac intf.name lsp)
          (update_round l1_multicast get_mac n intf).0
  unfolding update_round
  update_round-Contains n intf k lsp u e p =
      send_marked-Contains n intf intf.lsp_flood_states k lsp u e p

  send_one-key :
      (n : Node) (intf : Intf) (s : LspFloodState)
      → (send_one l1_multicast get_mac n intf s).1.lsp_id_key ≡ s.lsp_id_key
  unfolding send_one
  send_one-key n intf s = ground arith

  pub send_marked-HasOwnKeys :
      (n : Node) (intf : Intf) (states : List (ℕ × LspFloodState))
      → HasOwnKeys states
      → HasOwnKeys (send_marked l1_multicast get_mac n intf states).1
  unfolding send_marked
  send_marked-HasOwnKeys n intf [] h = tt
  send_marked-HasOwnKeys n intf ((k, s) ∷ states) (e, h) =
      (send_one-key n intf s ∙ e, send_marked-HasOwnKeys n intf states h)
