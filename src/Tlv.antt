-- ===== src/Tlv.antt =====
-- ethernet.go: the linked list of TLVs (`IsisTLV`, `parseTLVs`), its serialization (the same loop in
-- `serializeLsp` of update.go and `serializeIsisHelloPDU` of hello.go), and the Ethernet frame.
--
-- A chain of `nextTLV` pointers is a list, the nil pointer its end.
pub mod RoundTrip
pub mod Parsed
mod Examples
use go_is_is.Common.{
  ℕ, zero, suc, ◌+◌, List, [], ◌∷◌, ◌++◌, Go, ok, out_of_fuel, ◌>>=◌, ltb, if◌then◌else◌, length,
}
use go_is_is.Bytes.{Slice, index, slice, copy_into}

pub record Tlv : Type 0 where
  pub type_tlv : ℕ
  pub length_tlv : ℕ
  pub value_tlv : List ℕ

-- The loop of `parseTLVs`. `remainingTLVBytes` is `len(rawBytes) - startIndex` in every round, so
-- it is positive exactly while `startIndex` is below the length.
unfoldable pub parse_loop : ℕ → Slice → ℕ → Go (List Tlv)
unfolding index slice copy_into
parse_loop zero raw start = out_of_fuel
parse_loop (suc fuel) raw start =
    let round = index raw start >>= λ t. index raw (start + 1) >>= λ n.
    slice raw (start + 2) n >>= λ bytes. parse_loop fuel raw (start + (n + 2)) >>= λ rest.
    ok (record { type_tlv = t; length_tlv = n; value_tlv = copy_into n bytes } ∷ rest) in
    if ltb start (length raw.items) then round else ok []

-- A round moves on by two bytes at least, so the length of the slice bounds the rounds.
unfoldable pub parse_tlvs : Slice → ℕ → Go (List Tlv)
unfolding parse_loop
parse_tlvs raw start = parse_loop (length raw.items + 1) raw start

unfoldable pub serialize_tlvs : List Tlv → List ℕ
serialize_tlvs [] = []
serialize_tlvs (t ∷ ts) = t.type_tlv ∷ t.length_tlv ∷ (t.value_tlv ++ serialize_tlvs ts)

unfoldable pub build_ethernet_frame : List ℕ → List ℕ → List ℕ → List ℕ
build_ethernet_frame dst src payload = dst ++ (src ++ (0x08 ∷ 0x00 ∷ payload))
