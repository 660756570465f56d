-- ===== src/Lsp.antt =====
-- update.go and ethernet.go: link state PDUs, their headers, and their form on the wire.
--
-- The fixed arrays of the headers are lists of bytes; `FirstTLV` is the list of the TLVs.
pub mod Codec
mod Examples
use go_is_is.Common.{
  ℕ, zero, suc, ◌+◌, ◌≤◌, List, [], ◌∷◌, ◌++◌, Bool, Go, ok, panic, ◌>>=◌, leb, if◌then◌else◌,
  length, take, drop, replicate,
}
use go_is_is.Bytes.{Slice, be_uint, put_uint32}
use go_is_is.Tlv.{Tlv, parse_tlvs, serialize_tlvs}
use go_is_is.SystemId.{system_id_to_lsp_id, lsp_id_to_key}

pub record PduHeader : Type 0 where
  pub discriminator : ℕ
  pub length_pdu : ℕ
  pub protocol_id : ℕ
  pub system_id_length : ℕ
  pub type_pdu : ℕ
  pub version : ℕ
  pub reserved : ℕ
  pub maximum_area_addresses : ℕ

pub record LspHeader : Type 0 where
  pub pdu_length : List ℕ
  pub remaining_lifetime : List ℕ
  pub lsp_id : List ℕ
  pub sequence_number : List ℕ
  pub checksum : List ℕ
  pub p_att_ol_type : ℕ

pub record LspCore : Type 0 where
  pub header : PduHeader
  pub lsp_header : LspHeader
  pub first_tlv : List Tlv

pub record Lsp : Type 0 where
  pub key : ℕ
  pub id : List ℕ
  pub core_lsp : LspCore

-- `binary.Write` of the two structs: their fields one after the other.
unfoldable pub write_pdu_header : PduHeader → List ℕ
write_pdu_header h =
    h.discriminator ∷ h.length_pdu ∷ h.protocol_id ∷ h.system_id_length ∷ h.type_pdu ∷ h.version
    ∷ h.reserved ∷ h.maximum_area_addresses ∷ []

unfoldable pub write_lsp_header : LspHeader → List ℕ
write_lsp_header h =
    h.pdu_length
    ++ (h.remaining_lifetime
        ++ (h.lsp_id ++ (h.sequence_number ++ (h.checksum ++ (h.p_att_ol_type ∷ [])))))

unfoldable pub serialize_lsp : LspCore → List ℕ
unfolding write_pdu_header write_lsp_header serialize_tlvs
serialize_lsp lsp =
    write_pdu_header lsp.header ++ (write_lsp_header lsp.lsp_header ++ serialize_tlvs lsp.first_tlv)

-- The bytes that `binary.Read` decodes for a struct of `n` bytes: zeros, if there are too few left
-- (the error that it returns then is dropped by the callers).
unfoldable pub read_bytes : ℕ → List ℕ → List ℕ
read_bytes n buf = if leb n (length buf) then take n buf else replicate n 0

-- What is left in the buffer afterwards; a short read drains it.
unfoldable pub after_read : ℕ → List ℕ → List ℕ
after_read n buf = drop n buf

abbrev pub byte_at : ℕ → List ℕ → ℕ
byte_at i [] = 0
byte_at zero (b ∷ bs) = b
byte_at (suc i) (b ∷ bs) = byte_at i bs

unfoldable pub decode_pdu_header : List ℕ → PduHeader
decode_pdu_header bs = record {
  discriminator = byte_at 0 bs;
  length_pdu = byte_at 1 bs;
  protocol_id = byte_at 2 bs;
  system_id_length = byte_at 3 bs;
  type_pdu = byte_at 4 bs;
  version = byte_at 5 bs;
  reserved = byte_at 6 bs;
  maximum_area_addresses = byte_at 7 bs;
}

unfoldable pub decode_lsp_header : List ℕ → LspHeader
decode_lsp_header bs = record {
  pdu_length = take 2 bs;
  remaining_lifetime = take 2 (drop 2 bs);
  lsp_id = take 8 (drop 4 bs);
  sequence_number = take 4 (drop 12 bs);
  checksum = take 2 (drop 16 bs);
  p_att_ol_type = byte_at 18 bs;
}

-- The sizes are 14 for the Ethernet header, 8 for `IsisPDUHeader` and 19 for `IsisLspHeader`.
unfoldable pub deserialize_lsp : Slice → Go Lsp
unfolding read_bytes after_read decode_pdu_header decode_lsp_header parse_tlvs lsp_id_to_key
deserialize_lsp raw =
    let buf = drop 14 raw.items in
    let common = decode_pdu_header (read_bytes 8 buf) in
    let header = decode_lsp_header (read_bytes 19 (after_read 8 buf)) in
    if leb 14 (length raw.items)
    then (parse_tlvs raw 41 >>= λ tlvs. ok (record {
      key = lsp_id_to_key header.lsp_id;
      id = header.lsp_id;
      core_lsp = record { header = common; lsp_header = header; first_tlv = tlvs };
    }))
    else panic

unfoldable pub build_empty_lsp : ℕ → List ℕ → Lsp
unfolding system_id_to_lsp_id lsp_id_to_key put_uint32
build_empty_lsp sequence_number source_system_id =
    let id = system_id_to_lsp_id source_system_id in
    record {
      key = lsp_id_to_key id;
      id = id;
      core_lsp = record {
        header = record {
          discriminator = 0x83;
          length_pdu = 0x00;
          protocol_id = 0x01;
          system_id_length = 0x00;
          type_pdu = 0x12;
          version = 0x01;
          reserved = 0x00;
          maximum_area_addresses = 0x00;
        };
        lsp_header = record {
          pdu_length = 0 ∷ 0 ∷ [];
          remaining_lifetime = 0 ∷ 0 ∷ [];
          lsp_id = id;
          sequence_number = put_uint32 sequence_number;
          checksum = 0 ∷ 0 ∷ [];
          p_att_ol_type = 0;
        };
        first_tlv = [];
      };
    }

-- `binary.BigEndian.Uint32(lsp.CoreLsp.LspHeader.SequenceNumber[:])`
unfoldable pub sequence : Lsp → ℕ
unfolding be_uint
sequence lsp = be_uint lsp.core_lsp.lsp_header.sequence_number
