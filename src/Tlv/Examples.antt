-- ===== src/Tlv/Examples.antt =====
-- The theorems on TLVs at a small frame, and a run of `parseTLVs` on it.
use go_is_is.Common.{◌≡◌, refl, List, [], ◌∷◌, ◌++◌, ok, panic}
use go_is_is.Bytes.{Slice}
use go_is_is.Tlv.{Tlv, parse_tlvs, serialize_tlvs}
use go_is_is.Tlv.RoundTrip.{parse_tlvs-serialize_tlvs, parse_tlvs-serialize_tlvs_odd}

abbrev two_tlvs : List Tlv
two_tlvs =
    record { type_tlv = 2; length_tlv = 3; value_tlv = 7 ∷ 8 ∷ 9 ∷ [] }
    ∷ record { type_tlv = 240; length_tlv = 1; value_tlv = 1 ∷ [] }
    ∷ []

abbrev frame : Slice
frame = record { items = 0xff ∷ 2 ∷ 1 ∷ 7 ∷ []; spare = [] }

parse_frame :
    parse_tlvs frame 1 ≡ ok (record { type_tlv = 2; length_tlv = 1; value_tlv = 7 ∷ [] } ∷ [])
unfolding parse_tlvs
parse_frame = refl

parse_tlvs-serialize_tlvs_example :
    parse_tlvs (record { items = (0xff ∷ []) ++ serialize_tlvs two_tlvs; spare = 0 ∷ [] }) 1
    ≡ ok two_tlvs
parse_tlvs-serialize_tlvs_example =
    parse_tlvs-serialize_tlvs two_tlvs (0xff ∷ []) (0 ∷ []) (refl, (refl, tt))

parse_tlvs-serialize_tlvs_odd_example :
    parse_tlvs (record { items = (0xff ∷ []) ++ (serialize_tlvs two_tlvs ++ 0 ∷ []); spare = [] }) 1
    ≡ panic
parse_tlvs-serialize_tlvs_odd_example =
    parse_tlvs-serialize_tlvs_odd two_tlvs (0xff ∷ []) [] 0 (refl, (refl, tt))
