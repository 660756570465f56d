-- ===== src/SystemId.antt =====
-- main.go and update.go: the textual system IDs, as `1111.2222.3333`, and the keys of LSPs.
--
-- A string is the list of its bytes.
pub mod RoundTrip
pub mod Keys
mod Examples
use go_is_is.Common.{
  ℕ, zero, suc, ◌+◌, ◌*◌, List, [], ◌∷◌, ◌++◌, ◌==◌, if◌then◌else◌, length, take, drop,
}
use go_is_is.Bytes.{hex_encode, hex_decode, copy_into, be_uint}

-- `hex.EncodeToString(system_id[i*2 : i*2+2])`
abbrev group : List ℕ → ℕ → List ℕ
group system_id i = hex_encode (take 2 (drop (i * 2) system_id))

unfoldable pub system_id_to_string : List ℕ → List ℕ
unfolding hex_encode
system_id_to_string system_id =
    if length system_id == 6
    then group system_id 0 ++ (b'.' ∷ (group system_id 1 ++ (b'.' ∷ group system_id 2)))
    else []

-- `strings.Replace(s, ".", "", n)`
unfoldable pub remove_dots : ℕ → List ℕ → List ℕ
remove_dots zero s = s
remove_dots (suc n) [] = []
remove_dots (suc n) (c ∷ s) =
    let hit = remove_dots n s in
    let miss = c ∷ remove_dots (suc n) s in if c == b'.' then hit else miss

unfoldable pub system_id_to_bytes : List ℕ → List ℕ
unfolding remove_dots hex_decode copy_into
system_id_to_bytes sid = copy_into 6 (hex_decode (remove_dots 6 sid))

unfoldable pub lsp_id_to_key : List ℕ → ℕ
unfolding be_uint
lsp_id_to_key lsp_id = be_uint lsp_id

unfoldable pub system_id_to_lsp_id : List ℕ → List ℕ
unfolding system_id_to_bytes copy_into
system_id_to_lsp_id sid = copy_into 8 (system_id_to_bytes sid)

unfoldable pub system_id_to_key : List ℕ → ℕ
unfolding system_id_to_bytes lsp_id_to_key copy_into
system_id_to_key sid = lsp_id_to_key (copy_into 8 (system_id_to_bytes sid))
