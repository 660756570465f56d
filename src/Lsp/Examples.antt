-- ===== src/Lsp/Examples.antt =====
-- The round trip of an LSP at a small one.
use go_is_is.Common.{ℕ, ◌≡◌, refl, List, [], ◌∷◌, ok}
use go_is_is.Tlv.{build_ethernet_frame}
use go_is_is.SystemId.{lsp_id_to_key}
use go_is_is.Lsp.{LspCore, serialize_lsp, deserialize_lsp}
use go_is_is.Lsp.Codec.{deserialize_lsp-serialize_lsp}

abbrev address : List ℕ
address = 1 ∷ 2 ∷ 3 ∷ 4 ∷ 5 ∷ 6 ∷ []

abbrev core : LspCore
core = record {
  header = record {
    discriminator = 0x83;
    length_pdu = 0;
    protocol_id = 1;
    system_id_length = 0;
    type_pdu = 0x12;
    version = 1;
    reserved = 0;
    maximum_area_addresses = 0;
  };
  lsp_header = record {
    pdu_length = 0 ∷ 0 ∷ [];
    remaining_lifetime = 0 ∷ 0 ∷ [];
    lsp_id = 0x11 ∷ 0x11 ∷ 0x11 ∷ 0x11 ∷ 0x11 ∷ 0x11 ∷ 0 ∷ 0 ∷ [];
    sequence_number = 0 ∷ 0 ∷ 0 ∷ 7 ∷ [];
    checksum = 0 ∷ 0 ∷ [];
    p_att_ol_type = 0;
  };
  first_tlv = record { type_tlv = 2; length_tlv = 1; value_tlv = 0 ∷ [] } ∷ [];
}

deserialize_lsp-serialize_lsp_example :
    deserialize_lsp
      (record { items = build_ethernet_frame address address (serialize_lsp core); spare = [] })
    ≡ ok (record {
      key = lsp_id_to_key core.lsp_header.lsp_id;
      id = core.lsp_header.lsp_id;
      core_lsp = core;
    })
deserialize_lsp-serialize_lsp_example =
    deserialize_lsp-serialize_lsp address address [] core refl refl
      (record {
        size_length = refl;
        size_lifetime = refl;
        size_id = refl;
        size_sequence = refl;
        size_checksum = refl;
      })
      (refl, tt)
