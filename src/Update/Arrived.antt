-- ===== src/Update/Arrived.antt =====
-- What `deserializeLsp` makes of any frame.
use go_is_is.Common.{
  ℕ, zero, suc, ◌+◌, ◌≤◌, ◌<◌, ◌≡◌, refl, ◌∙◌, true, List, [], ◌∷◌, Bool-cases, inl, inr, arith,
  leb, length, take, drop, replicate, All, Ensures, Ensures-bind,
}
use native.Mathlib.Nat.{zero-add, suc-add}
use go_is_is.Bytes.{Slice}
use go_is_is.Tlv.{parse_tlvs}
use go_is_is.Tlv.RoundTrip.{IsWellFormed}
use go_is_is.Tlv.Parsed.{parse_tlvs-IsWellFormed}
use go_is_is.Lsp.{
  Lsp, byte_at, read_bytes, after_read, decode_pdu_header, decode_lsp_header, deserialize_lsp,
}
use go_is_is.Lsp.Codec.{HasSizes}
use go_is_is.Update.Wire.{IsLsp}

length-take : (n : ℕ) (xs : List ℕ) → n ≤ length xs → length (take n xs) ≡ n
length-take zero xs h = refl
length-take (suc n) [] h = absurd (omega arith)
length-take (suc n) (x ∷ xs) h = omega (arith, length-take n xs (omega arith))

length-drop : (n : ℕ) (xs : List ℕ) → n ≤ length xs → n + length (drop n xs) ≡ length xs
length-drop zero xs h = omega arith
length-drop (suc n) [] h = absurd (omega arith)
length-drop (suc n) (x ∷ xs) h = omega (arith, length-drop n xs (omega arith))

-- The bytes of a field within a header.
length-field : (at n : ℕ) (xs : List ℕ) → at + n ≤ length xs → length (take n (drop at xs)) ≡ n
length-field at n xs h = length-take n (drop at xs) (omega (arith, length-drop at xs (omega arith)))

length-replicate : (n : ℕ) → length {A = ℕ} (replicate n 0) ≡ n
length-replicate zero = refl
length-replicate (suc n) = omega (arith, length-replicate n)

length-read_bytes : (n : ℕ) (buf : List ℕ) → length (read_bytes n buf) ≡ n
unfolding read_bytes
length-read_bytes n buf = elim (Bool-cases (leb n (length buf))) [
  | inl e ↦ rw e (length-take n buf (ground arith))
  | inr e ↦ rw e (length-replicate n)
]

decode_lsp_header-HasSizes : (bs : List ℕ) → length bs ≡ 19 → HasSizes (decode_lsp_header bs)
unfolding decode_lsp_header
decode_lsp_header-HasSizes bs e = record {
  size_length = length-take 2 bs (omega arith);
  size_lifetime = length-field 2 2 bs (omega arith);
  size_id = length-field 4 8 bs (omega arith);
  size_sequence = length-field 12 4 bs (omega arith);
  size_checksum = length-field 16 2 bs (omega arith);
}

byte_at-take : (i n : ℕ) (xs : List ℕ) → i < n → byte_at i (take n xs) ≡ byte_at i xs
byte_at-take i zero xs h = absurd (omega arith)
byte_at-take i (suc n) [] h = refl
byte_at-take zero (suc n) (x ∷ xs) h = refl
byte_at-take (suc i) (suc n) (x ∷ xs) h = byte_at-take i n xs (omega arith)

byte_at-drop : (i n : ℕ) (xs : List ℕ) → byte_at i (drop n xs) ≡ byte_at (n + i) xs
byte_at-drop i zero xs = rw zero-add refl
byte_at-drop i (suc n) [] = refl
byte_at-drop i (suc n) (x ∷ xs) = rw suc-add (byte_at-drop i n xs)

-- The header is the bytes behind the Ethernet header, if it is there.
byte_at-header :
    (i : ℕ) (items : List ℕ)
    → i < 8
    → 22 ≤ length items
    → byte_at i (read_bytes 8 (drop 14 items)) ≡ byte_at (14 + i) items
unfolding read_bytes
byte_at-header i items h long =
    let fits : leb 8 (length (drop 14 items)) ≡ true =
      ground (arith, length-drop 14 items (omega arith)) in
    rw fits (byte_at-take i 8 (drop 14 items) h ∙ byte_at-drop i 14 items)

-- An LSP that came in, by the bytes of its frame: a short frame gives a header of zeros.
pub record Arrived (items : List ℕ) (lsp : Lsp) : Type 0 where
  pub well_formed : IsLsp lsp
  pub discriminator : 22 ≤ length items → lsp.core_lsp.header.discriminator ≡ byte_at 14 items
  pub type_pdu : 22 ≤ length items → lsp.core_lsp.header.type_pdu ≡ byte_at 18 items

pub deserialize_lsp-Arrived : (raw : Slice) → Ensures (deserialize_lsp raw) (Arrived raw.items)
unfolding deserialize_lsp decode_pdu_header
deserialize_lsp-Arrived raw = elim (Bool-cases (leb 14 (length raw.items))) [
  | inr e ↦ rw e tt
  | inl e ↦ rw e (
      Ensures-bind (parse_tlvs raw 41) _ (All IsWellFormed) _ (parse_tlvs-IsWellFormed raw 41)
        λ tlvs w. record {
          well_formed = record {
            key_of_id = refl;
            id_of_header = refl;
            sizes =
                decode_lsp_header-HasSizes _
                  (length-read_bytes 19 (after_read 8 (drop 14 raw.items)));
            tlvs = w;
          };
          discriminator = byte_at-header 0 raw.items (omega arith);
          type_pdu = byte_at-header 4 raw.items (omega arith);
        })
]
