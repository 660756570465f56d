-- ===== src/Update/Wire.antt =====
-- An LSP on its way from the send channel of one node to the database of another.
use go_is_is.Common.{ℕ, ◌≡◌, ap, sym, ◌∙◌, List, ok, Returns, length, All}
use Prim.Native.String.{String}
use go_is_is.Bytes.{Slice}
use go_is_is.Avl.Contract.{IsAvl}
use go_is_is.Tlv.RoundTrip.{IsWellFormed}
use go_is_is.SystemId.{lsp_id_to_key}
use go_is_is.Lsp.{Lsp, deserialize_lsp}
use go_is_is.Lsp.Codec.{HasSizes, deserialize_lsp-serialize_lsp}
use go_is_is.Node.{Node}
use go_is_is.Update.{lsp_frame, update_input}
use go_is_is.Update.Database.{Processed, process_lsp-Processed}

-- The key and the ID are those in the header, the header's arrays have Go's sizes, and the length
-- fields of the TLVs are right.
pub record IsLsp (lsp : Lsp) : Type 0 where
  pub key_of_id : lsp.key ≡ lsp_id_to_key lsp.id
  pub id_of_header : lsp.id ≡ lsp.core_lsp.lsp_header.lsp_id
  pub sizes : HasSizes lsp.core_lsp.lsp_header
  pub tlvs : All IsWellFormed lsp.core_lsp.first_tlv

-- An LSP that survives the way over the link.
pub record IsSendable (lsp : Lsp) : Type 0 where
  pub well_formed : IsLsp lsp
  pub discriminator : lsp.core_lsp.header.discriminator ≡ 0x83
  pub type_pdu : lsp.core_lsp.header.type_pdu ≡ 0x12

update_input-Processed :
    (name : String) (raw : Slice) (lsp : Lsp) (n : Node)
    → deserialize_lsp raw ≡ ok lsp
    → IsAvl n.update_db
    → Returns (update_input name raw n) (Processed name lsp n)
unfolding update_input
update_input-Processed name raw lsp n e v = rw e (process_lsp-Processed name lsp n v)

-- A frame that `isisUpdate` makes of a well-formed LSP, with addresses of six bytes, is processed by
-- a node that receives it, on any interface and into a buffer of any capacity, without a panic and
-- as that LSP, when the node's database is a balanced search tree.
pub update_input-lsp_frame :
    (l1_multicast : List ℕ) (get_mac : String → List ℕ) (out name : String) (lsp : Lsp)
    (spare : List ℕ) (n : Node)
    → length l1_multicast ≡ 6
    → length (get_mac out) ≡ 6
    → IsLsp lsp
    → IsAvl n.update_db
    → Returns
        (update_input name
          (record { items = lsp_frame l1_multicast get_mac out lsp; spare = spare })
          n)
        (Processed name lsp n)
unfolding lsp_frame
update_input-lsp_frame l1_multicast get_mac out name lsp spare n a b w v =
    let same : record {
      key = lsp_id_to_key lsp.core_lsp.lsp_header.lsp_id;
      id = lsp.core_lsp.lsp_header.lsp_id;
      core_lsp = lsp.core_lsp;
    }
        ≡ lsp =
      λ i. record {
        key = (ap lsp_id_to_key (sym w.id_of_header) ∙ sym w.key_of_id) i;
        id = sym w.id_of_header i;
        core_lsp = lsp.core_lsp;
      } in
    update_input-Processed name
      (record { items = lsp_frame l1_multicast get_mac out lsp; spare = spare }) lsp n
      (deserialize_lsp-serialize_lsp l1_multicast (get_mac out) spare lsp.core_lsp a b w.sizes
          w.tlvs
        ∙ ap ok same)
      v
