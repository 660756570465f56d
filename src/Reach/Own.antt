-- ===== src/Reach/Own.antt =====
-- What is read of the LSP that a node generates.
use go_is_is.Common.{
  ℕ, ◌+◌, ◌-◌, ◌*◌, ◌/◌, ◌%◌, ◌≡◌, refl, ◌∙◌, [], ◌∷◌, map, true, some, ok, arith, length, take,
  All, ◌==◌, Returns, Returns-imp,
}
use go_is_is.Avl.{search}
use go_is_is.Avl.Contract.{IsAvl}
use go_is_is.SystemId.{system_id_to_key}
use go_is_is.Node.{Node}
use go_is_is.Update.{generate_local_lsp, local_lsp, get_ip_reach_tlv, get_neighbor_tlv}
use go_is_is.Update.Local.{Generated, generate_local_lsp-Generated}
use go_is_is.Reach.{
  lookup_neighbors, lookup_prefixes, found_prefixes, get_directly_connected_prefixes, get_neighbors,
  get_prefixes_from_tlv,
}
use go_is_is.Reach.Neighbors.{
  up_ids, neighbor_of, get_neighbors-get_neighbor_tlv, type-get_neighbor_tlv,
}
use go_is_is.Reach.Prefixes.{
  IsV4, all_routes, get_prefixes_from_tlv-get_ip_reach_tlv, type-get_ip_reach_tlv,
}

tlvs-local_lsp :
    (n : Node)
    → (local_lsp n).core_lsp.first_tlv
      ≡ get_ip_reach_tlv n.config.interfaces ∷ get_neighbor_tlv n.config.interfaces ∷ []
unfolding local_lsp
tlvs-local_lsp n = refl

pub lookup_prefixes-local_lsp :
    (n : Node)
    → lookup_prefixes (local_lsp n).core_lsp.first_tlv
      ≡ get_prefixes_from_tlv (get_ip_reach_tlv n.config.interfaces)
unfolding lookup_prefixes
lookup_prefixes-local_lsp n = rw (tlvs-local_lsp n, type-get_ip_reach_tlv n.config.interfaces) refl

pub lookup_neighbors-local_lsp :
    (n : Node)
    → lookup_neighbors (local_lsp n).core_lsp.first_tlv
      ≡ get_neighbors (get_neighbor_tlv n.config.interfaces)
unfolding lookup_neighbors
lookup_neighbors-local_lsp n =
    rw
      (
        tlvs-local_lsp n,
        type-get_ip_reach_tlv n.config.interfaces,
        type-get_neighbor_tlv n.config.interfaces,
      )
      refl

own_key : (k : ℕ) → (k == k) ≡ true
own_key k = ground arith

-- What the readers give on the own system, up to the wrap of a length byte.
pub record ReadsOwn (n n' : Node) : Type 0 where
  pub prefixes :
      get_directly_connected_prefixes n' n.config.sid
      ≡ ok (
          take
            ((12 * length (all_routes n.config.interfaces)) % 256 / 12)
            (all_routes n.config.interfaces))
  pub stored : search n'.update_db (system_id_to_key n.config.sid) ≡ some (local_lsp n)
  pub neighbors :
      lookup_neighbors (local_lsp n).core_lsp.first_tlv
      ≡ ok (
          map neighbor_of (
            take
              (((1 + 11 * length (up_ids n.config.interfaces)) % 256 - 1) / 11)
              (up_ids n.config.interfaces)))

-- On a node whose database is a balanced search tree, whose adjacencies that are up have system IDs of
-- 6 bytes and whose routes have addresses and masks of 4 bytes, `generateLocalLsp` stores an LSP under
-- the node's own key from which the readers get exactly the routes of its interfaces and its
-- adjacencies that are up, in order and with metric 10: all routes up to 21 and all adjacencies up to
-- 23, and beyond that as many as the length bytes say.
pub generate_local_lsp-ReadsOwn :
    (n : Node)
    → IsAvl n.update_db
    → All IsV4 (all_routes n.config.interfaces)
    → All (λ id. length id ≡ 6) (up_ids n.config.interfaces)
    → Returns (generate_local_lsp n) (ReadsOwn n)
unfolding get_directly_connected_prefixes found_prefixes
generate_local_lsp-ReadsOwn n v routes ids =
    Returns-imp (generate_local_lsp n) (Generated n) _
      (λ n' g.
        let found : search n'.update_db (system_id_to_key n.config.sid) ≡ some (local_lsp n) =
          g.stored (system_id_to_key n.config.sid)
          ∙ rw (own_key (system_id_to_key n.config.sid)) refl in
        record {
          stored = found;
          prefixes = rw found (
              lookup_prefixes-local_lsp n
              ∙ get_prefixes_from_tlv-get_ip_reach_tlv n.config.interfaces routes);
          neighbors =
              lookup_neighbors-local_lsp n ∙ get_neighbors-get_neighbor_tlv n.config.interfaces ids;
        })
      (generate_local_lsp-Generated n v)
