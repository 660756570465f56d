-- ===== src/Reach.antt =====
-- update.go: what the decision process reads out of LSPs, neighbors from TLV 2 and directly
-- connected prefixes from TLV 128.
--
-- A received TLV's value was made with its length as capacity, so slicing beyond its end panics; a
-- generated one's is never shorter than its length field says.
pub mod Neighbors
pub mod Prefixes
pub mod Own
pub mod Ends
mod Examples
use go_is_is.Common.{
  ℕ, zero, suc, ◌+◌, ◌-◌, ◌*◌, ◌/◌, List, [], ◌∷◌, Option, none, some, Go, ok, ◌>>=◌, ◌==◌,
  if◌then◌else◌,
}
use go_is_is.Bytes.{Slice, slice, be_uint}
use go_is_is.Avl.{search}
use go_is_is.Tlv.{Tlv}
use go_is_is.SystemId.{system_id_to_string, system_id_to_key}
use go_is_is.Lsp.{Lsp}
use go_is_is.Node.{Node, IpNet}

pub record Neighbor : Type 0 where
  pub system_id : List ℕ
  pub metric : ℕ

-- A value with no spare capacity.
abbrev pub whole : List ℕ → Slice
whole bytes = record { items = bytes; spare = [] }

-- The loop of `getNeighbors`: the neighbors left to read, and `currentByte`.
unfoldable pub neighbors_loop : ℕ → ℕ → List ℕ → Go (List Neighbor)
unfolding slice be_uint system_id_to_string
neighbors_loop zero at value = ok []
neighbors_loop (suc count) at value = slice (whole value) at 4 >>= λ metric.
    slice (whole value) (at + 4) 6 >>= λ id. neighbors_loop count (at + 11) value >>= λ rest.
    ok (record { system_id = system_id_to_string id; metric = be_uint metric } ∷ rest)

-- `(int(lengthTLV) - 1) / 11` is 0 at length 0 in Go too.
unfoldable pub get_neighbors : Tlv → Go (List Neighbor)
unfolding neighbors_loop
get_neighbors t = neighbors_loop ((t.length_tlv - 1) / 11) 1 t.value_tlv

unfoldable pub lookup_neighbors : List Tlv → Go (List Neighbor)
unfolding get_neighbors
lookup_neighbors [] = ok []
lookup_neighbors (t ∷ ts) =
    let later = lookup_neighbors ts in if t.type_tlv == 2 then get_neighbors t else later

unfoldable pub prefixes_loop : ℕ → ℕ → List ℕ → Go (List IpNet)
unfolding slice
prefixes_loop zero at value = ok []
prefixes_loop (suc count) at value = slice (whole value) at 4 >>= λ ip.
    slice (whole value) (at + 4) 4 >>= λ mask.
    prefixes_loop count (at + 12) value >>= λ rest. ok (record { ip = ip; ip_mask = mask } ∷ rest)

unfoldable pub get_prefixes_from_tlv : Tlv → Go (List IpNet)
unfolding prefixes_loop
get_prefixes_from_tlv t = prefixes_loop (t.length_tlv / 12) 0 t.value_tlv

unfoldable pub lookup_prefixes : List Tlv → Go (List IpNet)
unfolding get_prefixes_from_tlv
lookup_prefixes [] = ok []
lookup_prefixes (t ∷ ts) =
    let later = lookup_prefixes ts in if t.type_tlv == 128 then get_prefixes_from_tlv t else later

-- A missing LSP has no prefixes.
unfoldable pub found_prefixes : Option Lsp → Go (List IpNet)
unfolding lookup_prefixes
found_prefixes none = ok []
found_prefixes (some lsp) = lookup_prefixes lsp.core_lsp.first_tlv

unfoldable pub get_directly_connected_prefixes : Node → List ℕ → Go (List IpNet)
unfolding search system_id_to_key found_prefixes
get_directly_connected_prefixes n system_id =
    found_prefixes (search n.update_db (system_id_to_key system_id))
