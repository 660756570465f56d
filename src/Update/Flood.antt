-- ===== src/Update/Flood.antt =====
-- The flags that a received or generated LSP leaves on the interfaces.
use go_is_is.Common.{
  ℕ, ◌≡◌, refl, List, [], ◌∷◌, Bool, true, false, Option, none, some, arith, ◌==◌, Bool-cases, inl,
  inr, if◌then◌else◌,
}
use Prim.Native.String.{String}
use text.Mathlib.Text.{◌==◌ as str_eq}
use go_is_is.Lsp.{Lsp}
use go_is_is.Node.{Intf, LspFloodState}
use go_is_is.Update.{set_srm, mark, flood_new_lsp, mark_all}

-- The SRM flag of a key, if the map has the key.
unfoldable pub srm_of : List (ℕ × LspFloodState) → ℕ → Option Bool
srm_of [] k = none
srm_of ((j, s) ∷ states) k = if j == k then some s.srm else srm_of states k

pub srm_of-set_srm :
    (lsp : Lsp) (b : Bool) (states : List (ℕ × LspFloodState)) (k : ℕ)
    → srm_of (set_srm lsp b states) k ≡ (if lsp.key == k then some b else srm_of states k)
unfolding srm_of set_srm
srm_of-set_srm lsp b [] k = refl
srm_of-set_srm lsp b ((j, s) ∷ states) k = ground (arith, srm_of-set_srm lsp b states k)

-- Every state stands under the key of its LSP.
abbrev pub HasOwnKeys : List (ℕ × LspFloodState) → Type 0
HasOwnKeys [] = Unit
HasOwnKeys ((k, s) ∷ states) = (s.lsp_id_key ≡ k) × HasOwnKeys states

set_srm-HasOwnKeys :
    (lsp : Lsp) (b : Bool) (states : List (ℕ × LspFloodState))
    → HasOwnKeys states
    → HasOwnKeys (set_srm lsp b states)
unfolding set_srm
set_srm-HasOwnKeys lsp b [] h = (refl, tt)
set_srm-HasOwnKeys lsp b ((k, s) ∷ states) (e, h) = elim (Bool-cases (k == lsp.key)) [
  | inl q ↦ rw q (e, h)
  | inr q ↦ rw q (e, set_srm-HasOwnKeys lsp b states h)
]

-- An interface after flooding: the flag of the LSP is set by `flag`, those of all other LSPs and the
-- rest of the interface are as before.
pub record Marked (lsp : Lsp) (flag : Bool) (i j : Intf) : Type 0 where
  pub same_adj : j.adj ≡ i.adj
  pub same_name : j.name ≡ i.name
  pub same_routes : j.routes ≡ i.routes
  pub own_keys : HasOwnKeys i.lsp_flood_states → HasOwnKeys j.lsp_flood_states
  pub flags :
      (k : ℕ)
      → srm_of j.lsp_flood_states k
        ≡ (if lsp.key == k then some flag else srm_of i.lsp_flood_states k)

mark-Marked : (lsp : Lsp) (b : Bool) (i : Intf) → Marked lsp b i (mark lsp b i)
mark-Marked lsp b i = record {
  same_adj = refl;
  same_name = refl;
  same_routes = refl;
  own_keys = λ h. set_srm-HasOwnKeys lsp b i.lsp_flood_states h;
  flags = λ k. srm_of-set_srm lsp b i.lsp_flood_states k;
}

-- Interface by interface, with the flag that each is to have.
abbrev pub Flooded : (Intf → Bool) → Lsp → List Intf → List Intf → Type 0
Flooded flag lsp [] [] = Unit
Flooded flag lsp (i ∷ is) (j ∷ js) = Marked lsp (flag i) i j × Flooded flag lsp is js
Flooded flag lsp [] (_ ∷ _) = ⊥
Flooded flag lsp (_ ∷ _) [] = ⊥

-- Not the interface that the LSP was received on.
abbrev pub is_other : String → Intf → Bool
is_other receive_intf i = if str_eq receive_intf i.name then false else true

-- A new LSP is marked for sending on every interface but the one it came from, where a pending
-- transmission of it is cancelled.
pub flood_new_lsp-Flooded :
    (receive_intf : String) (lsp : Lsp) (is : List Intf)
    → Flooded (is_other receive_intf) lsp is (flood_new_lsp receive_intf lsp is)
unfolding flood_new_lsp
flood_new_lsp-Flooded r lsp [] = tt
flood_new_lsp-Flooded r lsp (i ∷ is) =
    (mark-Marked lsp (is_other r i) i, flood_new_lsp-Flooded r lsp is)

pub mark_all-Flooded : (lsp : Lsp) (is : List Intf) → Flooded (λ _. true) lsp is (mark_all lsp is)
unfolding mark_all
mark_all-Flooded lsp [] = tt
mark_all-Flooded lsp (i ∷ is) = (mark-Marked lsp true i, mark_all-Flooded lsp is)
