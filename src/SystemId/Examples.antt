-- ===== src/SystemId/Examples.antt =====
-- The theorems on system IDs at `1112.1113.ff00`.
use go_is_is.Common.{ℕ, ◌≡◌, ◌≢◌, refl, List, [], ◌∷◌, arith}
use go_is_is.SystemId.{system_id_to_string, system_id_to_bytes, system_id_to_key}
use go_is_is.SystemId.RoundTrip.{system_id_to_bytes-system_id_to_string}
use go_is_is.Bytes.{AreBytes, bytes_equal}
use go_is_is.Bytes.Equal.{ne_of_bytes_equal}
use go_is_is.SystemId.Keys.{IsSystem, system_id_to_key_distinct}

abbrev id : List ℕ
id = 0x11 ∷ 0x12 ∷ 0x11 ∷ 0x13 ∷ 0xff ∷ 0x00 ∷ []

id-AreBytes : AreBytes id
id-AreBytes = omega arith

system_id_to_bytes-system_id_to_string_example : system_id_to_bytes (system_id_to_string id) ≡ id
system_id_to_bytes-system_id_to_string_example =
    system_id_to_bytes-system_id_to_string id refl id-AreBytes

abbrev id' : List ℕ
id' = 0x11 ∷ 0x12 ∷ 0x11 ∷ 0x13 ∷ 0xff ∷ 0x01 ∷ []

id-IsSystem : IsSystem (system_id_to_string id)
id-IsSystem = record { id = id; six = refl; are_bytes = id-AreBytes; text = refl }

other-IsSystem : IsSystem (system_id_to_string id')
other-IsSystem = record { id = id'; six = refl; are_bytes = omega arith; text = refl }

other_text : system_id_to_string id ≢ system_id_to_string id'
unfolding system_id_to_string bytes_equal
other_text = ne_of_bytes_equal (system_id_to_string id) (system_id_to_string id') refl

system_id_to_key_distinct_example :
    system_id_to_key (system_id_to_string id) ≢ system_id_to_key (system_id_to_string id')
system_id_to_key_distinct_example =
    system_id_to_key_distinct (system_id_to_string id) (system_id_to_string id') id-IsSystem
      other-IsSystem other_text
