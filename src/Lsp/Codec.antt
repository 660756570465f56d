-- ===== src/Lsp/Codec.antt =====
-- An LSP survives its way over the wire: `deserializeLsp` reads back what `serializeLsp` and
-- `buildEthernetFrame` wrote.
use go_is_is.Common.{
  ℕ, zero, suc, ◌+◌, ◌≡◌, refl, sym, ap, ◌∙◌, true, List, [], ◌∷◌, ◌++◌, append_assoc, ok, arith,
  leb, length, length-append, take, drop, All,
}
use go_is_is.Bytes.Slices.{drop-length, take-length}
use go_is_is.Tlv.{Tlv, build_ethernet_frame, serialize_tlvs, parse_tlvs}
use go_is_is.Tlv.RoundTrip.{IsWellFormed, parse_tlvs-serialize_tlvs}
use go_is_is.SystemId.{lsp_id_to_key}
use native.Mathlib.Nat.{zero-add, suc-add}
use go_is_is.Lsp.{
  byte_at, LspCore, LspHeader, PduHeader, write_pdu_header, write_lsp_header, serialize_lsp,
  deserialize_lsp, read_bytes, after_read, decode_pdu_header, decode_lsp_header,
}

-- The arrays of the header have the sizes that Go's types give them.
pub record HasSizes (h : LspHeader) : Type 0 where
  pub size_length : length h.pdu_length ≡ 2
  pub size_lifetime : length h.remaining_lifetime ≡ 2
  pub size_id : length h.lsp_id ≡ 8
  pub size_sequence : length h.sequence_number ≡ 4
  pub size_checksum : length h.checksum ≡ 2

pub length-write_lsp_header : (h : LspHeader) → HasSizes h → length (write_lsp_header h) ≡ 19
unfolding write_lsp_header
length-write_lsp_header h z = omega (
  arith,
  length-append h.pdu_length (
      h.remaining_lifetime
      ++ (h.lsp_id ++ (h.sequence_number ++ (h.checksum ++ (h.p_att_ol_type ∷ []))))),
  length-append h.remaining_lifetime
      (h.lsp_id ++ (h.sequence_number ++ (h.checksum ++ (h.p_att_ol_type ∷ [])))),
  length-append h.lsp_id (h.sequence_number ++ (h.checksum ++ (h.p_att_ol_type ∷ []))),
  length-append h.sequence_number (h.checksum ++ (h.p_att_ol_type ∷ [])),
  length-append h.checksum (h.p_att_ol_type ∷ []),
)

decode-write_pdu_header : (h : PduHeader) → decode_pdu_header (write_pdu_header h) ≡ h
unfolding decode_pdu_header write_pdu_header
decode-write_pdu_header h = refl

drop-nil : (m : ℕ) → drop {A = ℕ} m [] ≡ []
drop-nil zero = refl
drop-nil (suc m) = refl

drop-drop : (n m : ℕ) (xs : List ℕ) → drop (n + m) xs ≡ drop m (drop n xs)
drop-drop zero m xs = rw zero-add refl
drop-drop (suc n) m [] = rw (suc-add, drop-nil) (sym (drop-nil m))
drop-drop (suc n) m (x ∷ xs) = rw suc-add (drop-drop n m xs)

-- The next field is behind the one that starts at `n`.
pub drop_next :
    (n m : ℕ) (w field rest : List ℕ)
    → length field ≡ m
    → drop n w ≡ field ++ rest
    → drop (n + m) w ≡ rest
drop_next n m w field rest l e = drop-drop n m w ∙ ap (drop m) e ∙ drop-length field rest m (sym l)

byte_at-drop : (n : ℕ) (xs : List ℕ) → byte_at n xs ≡ byte_at 0 (drop n xs)
byte_at-drop zero xs = refl
byte_at-drop (suc n) [] = refl
byte_at-drop (suc n) (x ∷ xs) = byte_at-drop n xs

decode-write_lsp_header : (h : LspHeader) → HasSizes h → decode_lsp_header (write_lsp_header h) ≡ h
unfolding decode_lsp_header write_lsp_header
decode-write_lsp_header h z =
    let last = h.p_att_ol_type ∷ [] in
    let w = write_lsp_header h in
    let d4 =
      drop_next 2 2 w h.remaining_lifetime (h.lsp_id ++ (h.sequence_number ++ (h.checksum ++ last)))
        z.size_lifetime
        (drop_next 0 2 w h.pdu_length
          (h.remaining_lifetime ++ (h.lsp_id ++ (h.sequence_number ++ (h.checksum ++ last))))
          z.size_length refl) in
    let d12 = drop_next 4 8 w h.lsp_id (h.sequence_number ++ (h.checksum ++ last)) z.size_id d4 in
    let d16 = drop_next 12 4 w h.sequence_number (h.checksum ++ last) z.size_sequence d12 in
    let d18 = drop_next 16 2 w h.checksum last z.size_checksum d16 in
    let e0 =
      take-length h.pdu_length
        (h.remaining_lifetime ++ (h.lsp_id ++ (h.sequence_number ++ (h.checksum ++ last)))) 2
        (sym z.size_length) in
    let e2 =
      ap (take 2) (
        drop-length h.pdu_length
          (h.remaining_lifetime ++ (h.lsp_id ++ (h.sequence_number ++ (h.checksum ++ last)))) 2
          (sym z.size_length))
      ∙ take-length h.remaining_lifetime (h.lsp_id ++ (h.sequence_number ++ (h.checksum ++ last))) 2
          (sym z.size_lifetime) in
    let e4 =
      ap (take 8) d4
      ∙ take-length h.lsp_id (h.sequence_number ++ (h.checksum ++ last)) 8 (sym z.size_id) in
    let e12 =
      ap (take 4) d12
      ∙ take-length h.sequence_number (h.checksum ++ last) 4 (sym z.size_sequence) in
    let e16 = ap (take 2) d16 ∙ take-length h.checksum last 2 (sym z.size_checksum) in
    let e18 = byte_at-drop 18 w ∙ ap (byte_at 0) d18 in
    λ i. record {
      pdu_length = e0 i;
      remaining_lifetime = e2 i;
      lsp_id = e4 i;
      sequence_number = e12 i;
      checksum = e16 i;
      p_att_ol_type = e18 i;
    }

pub read_bytes-append : (xs ys : List ℕ) (n : ℕ) → length xs ≡ n → read_bytes n (xs ++ ys) ≡ xs
unfolding read_bytes
read_bytes-append xs ys n e =
    let fits : leb n (length (xs ++ ys)) ≡ true = ground (arith, length-append xs ys) in
    rw fits (take-length xs ys n (sym e))

-- A frame with any headers of the right sizes, in terms of what `parseTLVs` returns.
deserialize_parts :
    (dst src common header tail spare : List ℕ) (ts : List Tlv)
    → length dst ≡ 6
    → length src ≡ 6
    → length common ≡ 8
    → length header ≡ 19
    → let w = dst ++ (src ++ (0x08 ∷ 0x00 ∷ (common ++ (header ++ tail)))) in
      parse_tlvs (record { items = w; spare = spare }) 41 ≡ ok ts
      → deserialize_lsp (record { items = w; spare = spare })
        ≡ ok (record {
          key = lsp_id_to_key (decode_lsp_header header).lsp_id;
          id = (decode_lsp_header header).lsp_id;
          core_lsp = record {
            header = decode_pdu_header common;
            lsp_header = decode_lsp_header header;
            first_tlv = ts;
          };
        })
unfolding deserialize_lsp after_read
deserialize_parts dst src common header tail spare ts a b c d parsed =
    let payload = common ++ (header ++ tail) in
    let typed = 0x08 ∷ 0x00 ∷ payload in
    let w = dst ++ (src ++ typed) in
    let behind : drop 14 w ≡ payload =
      drop_next 12 2 w (0x08 ∷ 0x00 ∷ []) payload refl
        (drop_next 6 6 w src typed b (drop_next 0 6 w dst (src ++ typed) a refl)) in
    let long : leb 14 (length w) ≡ true =
      ground (arith, length-append dst (src ++ typed), length-append src typed) in
    rw
      (
        long,
        parsed,
        behind,
        read_bytes-append common (header ++ tail) 8 c,
        drop-length common (header ++ tail) 8 (sym c),
        read_bytes-append header tail 19 d,
      )
      refl

parse_behind :
    (dst src common header spare : List ℕ) (ts : List Tlv)
    → length dst ≡ 6
    → length src ≡ 6
    → length common ≡ 8
    → length header ≡ 19
    → All IsWellFormed ts
    → parse_tlvs
        (record {
          items = dst ++ (src ++ (0x08 ∷ 0x00 ∷ (common ++ (header ++ serialize_tlvs ts))));
          spare = spare;
        })
        41
      ≡ ok ts
parse_behind dst src common header spare ts a b c d w =
    let typed : List ℕ = 0x08 ∷ 0x00 ∷ (common ++ header) in
    let pre = dst ++ (src ++ typed) in
    let size : length pre ≡ 41 = omega (
      arith,
      length-append dst (src ++ typed),
      length-append src typed,
      length-append common header,
    ) in
    rw size at (simp append_assoc at (parse_tlvs-serialize_tlvs ts pre spare w))

-- For source and destination addresses of six bytes, a header with arrays of Go's sizes and TLVs
-- whose length fields are right: the frame built from the serialized LSP deserializes, whatever the
-- spare capacity of the buffer, to the same headers and TLVs, under the key of the LSP ID.
pub deserialize_lsp-serialize_lsp :
    (dst src spare : List ℕ) (lsp : LspCore)
    → length dst ≡ 6
    → length src ≡ 6
    → HasSizes lsp.lsp_header
    → All IsWellFormed lsp.first_tlv
    → deserialize_lsp
        (record { items = build_ethernet_frame dst src (serialize_lsp lsp); spare = spare })
      ≡ ok (record {
        key = lsp_id_to_key lsp.lsp_header.lsp_id;
        id = lsp.lsp_header.lsp_id;
        core_lsp = lsp;
      })
unfolding serialize_lsp build_ethernet_frame
deserialize_lsp-serialize_lsp dst src spare lsp a b z w =
    let common = write_pdu_header lsp.header in
    let header = write_lsp_header lsp.lsp_header in
    let tail = serialize_tlvs lsp.first_tlv in
    rw (decode-write_lsp_header lsp.lsp_header z, decode-write_pdu_header lsp.header) at
      (deserialize_parts dst src common header tail spare lsp.first_tlv a b refl
        (length-write_lsp_header lsp.lsp_header z)
        (parse_behind dst src common header spare lsp.first_tlv a b refl
          (length-write_lsp_header lsp.lsp_header z) w))
