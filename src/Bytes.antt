-- ===== src/Bytes.antt =====
-- Byte slices of the standard library as the daemon uses them: indexing and slicing with Go's
-- bounds, `encoding/binary` in big-endian order, and `encoding/hex`. A byte is a number below 256.
pub mod Slices
pub mod Equal
pub mod Digits
use go_is_is.Common.{
  ℕ, zero, suc, ◌+◌, ◌-◌, ◌*◌, ◌/◌, ◌%◌, ◌^◌, ◌≤◌, ◌<◌, List, [], ◌∷◌, ◌++◌, Bool, true, false,
  ◌&&◌, Option, none, some, Go, ok, panic, ltb, leb, ◌==◌, if◌then◌else◌, length, take, drop,
  get_elem?, replicate, All,
}

-- A slice of bytes. `spare` are the bytes of its array between its length and its capacity: Go
-- lets `s[a:b]` reach them.
pub record Slice : Type 0 where
  pub items : List ℕ
  pub spare : List ℕ

abbrev pub IsByte : ℕ → Type 0
IsByte b = b < 256

abbrev pub AreBytes : List ℕ → Type 0
AreBytes = All IsByte

abbrev pub or_panic {ℓ} : {A : Type ℓ} → Option A → Go A
or_panic none = panic
or_panic (some a) = ok a

-- `s[i]`
unfoldable pub index : Slice → ℕ → Go ℕ
index s i = or_panic (get_elem? s.items i)

-- `s[a:a+n]`: within the capacity, not only within the length.
unfoldable pub slice : Slice → ℕ → ℕ → Go (List ℕ)
slice s a n =
    if leb (a + n) (length s.items + length s.spare)
    then ok (take n (drop a (s.items ++ s.spare)))
    else panic

-- `binary.BigEndian.Uint32` and `Uint64`, on four and eight bytes.
unfoldable pub be_uint_from : ℕ → List ℕ → ℕ
be_uint_from acc [] = acc
be_uint_from acc (b ∷ bs) = be_uint_from (acc * 256 + b) bs

unfoldable pub be_uint : List ℕ → ℕ
unfolding be_uint_from
be_uint bs = be_uint_from 0 bs

-- `binary.BigEndian.PutUint32`
unfoldable pub put_uint32 : ℕ → List ℕ
put_uint32 v = (v / 2 ^ 24 % 256) ∷ (v / 2 ^ 16 % 256) ∷ (v / 2 ^ 8 % 256) ∷ (v % 256) ∷ []

-- `copy(dst[:], src)` into a zeroed array of `n` bytes.
unfoldable pub copy_into : ℕ → List ℕ → List ℕ
copy_into zero src = []
copy_into (suc n) [] = 0 ∷ copy_into n []
copy_into (suc n) (b ∷ src) = b ∷ copy_into n src

-- `bytes.Equal`
unfoldable pub bytes_equal : List ℕ → List ℕ → Bool
bytes_equal [] [] = true
bytes_equal [] (_ ∷ _) = false
bytes_equal (_ ∷ _) [] = false
bytes_equal (a ∷ as') (b ∷ bs) = a == b && bytes_equal as' bs

-- `hex.EncodeToString`, as the codes of the digits.
unfoldable pub hex_digit : ℕ → ℕ
hex_digit n = if ltb n 10 then b'0' + n else b'a' + (n - 10)

unfoldable pub hex_encode : List ℕ → List ℕ
unfolding hex_digit
hex_encode [] = []
hex_encode (b ∷ bs) = hex_digit (b / 16) ∷ hex_digit (b % 16) ∷ hex_encode bs

unfoldable pub from_hex_digit : ℕ → Option ℕ
from_hex_digit c =
    if leb b'0' c && leb c b'9'
    then some (c - b'0')
    else if leb b'a' c && leb c b'f'
    then some (c - b'a' + 10)
    else if leb b'A' c && leb c b'F'
    then some (c - b'A' + 10)
    else none

abbrev hex_byte : Option ℕ → Option ℕ → List ℕ → List ℕ
hex_byte (some h) (some l) rest = (h * 16 + l) ∷ rest
hex_byte (some h) none rest = []
hex_byte none low rest = []

-- `hex.DecodeString` with its error dropped: the bytes before the first digit that is none.
unfoldable pub hex_decode : List ℕ → List ℕ
unfolding from_hex_digit
hex_decode [] = []
hex_decode (c ∷ []) = []
hex_decode (c ∷ c' ∷ cs) = hex_byte (from_hex_digit c) (from_hex_digit c') (hex_decode cs)
