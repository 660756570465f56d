-- ===== src/Update/Local.antt =====
-- The node's own LSP.
use go_is_is.Common.{
  ℕ, ◌+◌, ◌%◌, ◌^◌, ◌≡◌, refl, ◌∙◌, true, Option, some, none, arith, Returns, Returns-bind,
  Returns-and, Returns-Ensures, if◌then◌else◌, ◌==◌,
}
use go_is_is.Bytes.Digits.{be_uint-put_uint32}
use go_is_is.Avl.{insert, search}
use go_is_is.Avl.Contract.{IsAvl, insert-IsAvl, search-insert}
use go_is_is.SystemId.{system_id_to_key}
use go_is_is.Lsp.{Lsp, sequence}
use go_is_is.Node.{Node}
use go_is_is.Update.{generate_local_lsp, local_lsp}
use go_is_is.Update.Flood.{Flooded, mark_all-Flooded}
use go_is_is.Assoc.{merged}

pub key-local_lsp : (n : Node) → (local_lsp n).key ≡ system_id_to_key n.config.sid
unfolding local_lsp system_id_to_key
key-local_lsp n = refl

sequence-local_lsp : (n : Node) → sequence (local_lsp n) ≡ (n.sequence_number + 1) % 2 ^ 32
unfolding sequence local_lsp
sequence-local_lsp n = be_uint-put_uint32 ((n.sequence_number + 1) % 2 ^ 32) (omega arith)

pub record Generated (n n' : Node) : Type 0 where
  pub valid : IsAvl n'.update_db
  pub stored :
      (k : ℕ)
      → search n'.update_db k
        ≡ (if system_id_to_key n.config.sid == k then some (local_lsp n) else search n.update_db k)
  pub flooded : Flooded (λ _. true) (local_lsp n) n.config.interfaces n'.config.interfaces
  pub counted : n'.sequence_number ≡ (n.sequence_number + 1) % 2 ^ 32
  pub numbered : sequence (local_lsp n) ≡ n'.sequence_number
  pub same_sid : n'.config.sid ≡ n.config.sid

-- On a node whose database is a balanced search tree, generating the local LSP does not panic. The
-- new LSP replaces whatever is stored under the key of the configured system ID, no other key
-- changes, the LSP is marked for sending on every interface, and it carries the node's sequence
-- number, which has gone up by one modulo 2^32.
pub generate_local_lsp-Generated :
    (n : Node) → IsAvl n.update_db → Returns (generate_local_lsp n) (Generated n)
unfolding generate_local_lsp system_id_to_key
generate_local_lsp-Generated n a =
    let lsp = local_lsp n in
    Returns-bind (insert n.update_db lsp.key lsp true) _ _ _
      (Returns-and (insert n.update_db lsp.key lsp true) _ _
        (insert-IsAvl n.update_db lsp.key lsp true a)
        (Returns-Ensures (insert n.update_db lsp.key lsp true) _
          (search-insert n.update_db lsp.key lsp true a)))
      λ db (p, q). record {
        valid = p.0;
        stored = λ k.
            q k
            ∙ rw
                (
                  key-local_lsp n,
                  overwritten (search n.update_db (system_id_to_key n.config.sid)) lsp,
                )
                refl;
        flooded = mark_all-Flooded lsp n.config.interfaces;
        counted = refl;
        numbered = sequence-local_lsp n;
        same_sid = refl;
      }
  where
    overwritten : (o : Option Lsp) (lsp : Lsp) → merged o lsp true ≡ lsp
    overwritten none lsp = refl
    overwritten (some old) lsp = refl
