-- ===== src/Reach/Ends.antt =====
-- The readers end on every LSP.
use go_is_is.Common.{
  ℕ, zero, suc, ◌+◌, ◌-◌, ◌/◌, List, [], ◌∷◌, Option, none, some, Ends, Ends-bind, Bool-cases, inl,
  inr, ◌==◌,
}
use go_is_is.Tlv.{Tlv}
use go_is_is.Tlv.RoundTrip.{slice-Ends}
use go_is_is.Avl.{search}
use go_is_is.Lsp.{Lsp}
use go_is_is.SystemId.{system_id_to_key}
use go_is_is.Node.{Node}
use go_is_is.Reach.{
  neighbors_loop, get_neighbors, lookup_neighbors, prefixes_loop, get_prefixes_from_tlv,
  lookup_prefixes, found_prefixes, get_directly_connected_prefixes, whole,
}

neighbors_loop-Ends : (count at : ℕ) (value : List ℕ) → Ends (neighbors_loop count at value)
unfolding neighbors_loop
neighbors_loop-Ends zero at value = tt
neighbors_loop-Ends (suc count) at value = Ends-bind _ _ (slice-Ends (whole value) at 4) λ metric.
    Ends-bind _ _ (slice-Ends (whole value) (at + 4) 6)
      λ id. Ends-bind _ _ (neighbors_loop-Ends count (at + 11) value) λ rest. tt

pub lookup_neighbors-Ends : (ts : List Tlv) → Ends (lookup_neighbors ts)
unfolding lookup_neighbors get_neighbors
lookup_neighbors-Ends [] = tt
lookup_neighbors-Ends (t ∷ ts) = elim (Bool-cases (t.type_tlv == 2)) [
  | inl e ↦ rw e (neighbors_loop-Ends ((t.length_tlv - 1) / 11) 1 t.value_tlv)
  | inr e ↦ rw e (lookup_neighbors-Ends ts)
]

prefixes_loop-Ends : (count at : ℕ) (value : List ℕ) → Ends (prefixes_loop count at value)
unfolding prefixes_loop
prefixes_loop-Ends zero at value = tt
prefixes_loop-Ends (suc count) at value = Ends-bind _ _ (slice-Ends (whole value) at 4) λ ip.
    Ends-bind _ _ (slice-Ends (whole value) (at + 4) 4)
      λ mask. Ends-bind _ _ (prefixes_loop-Ends count (at + 12) value) λ rest. tt

lookup_prefixes-Ends : (ts : List Tlv) → Ends (lookup_prefixes ts)
unfolding lookup_prefixes get_prefixes_from_tlv
lookup_prefixes-Ends [] = tt
lookup_prefixes-Ends (t ∷ ts) = elim (Bool-cases (t.type_tlv == 128)) [
  | inl e ↦ rw e (prefixes_loop-Ends (t.length_tlv / 12) 0 t.value_tlv)
  | inr e ↦ rw e (lookup_prefixes-Ends ts)
]

found_prefixes-Ends : (found : Option Lsp) → Ends (found_prefixes found)
unfolding found_prefixes
found_prefixes-Ends none = tt
found_prefixes-Ends (some lsp) = lookup_prefixes-Ends lsp.core_lsp.first_tlv

pub get_directly_connected_prefixes-Ends :
    (n : Node) (system_id : List ℕ) → Ends (get_directly_connected_prefixes n system_id)
unfolding get_directly_connected_prefixes
get_directly_connected_prefixes-Ends n system_id =
    found_prefixes-Ends (search n.update_db (system_id_to_key system_id))
