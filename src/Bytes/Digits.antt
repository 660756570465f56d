-- ===== src/Bytes/Digits.antt =====
-- Numbers and digits: big-endian numbers and hexadecimal text read back what was written.
use go_is_is.Common.{ℕ, ◌/◌, ◌%◌, ◌^◌, ◌<◌, ◌≡◌, refl, ap, List, [], ◌∷◌, some, arith}
use go_is_is.Bytes.{
  AreBytes, be_uint, put_uint32, hex_digit, hex_encode, from_hex_digit, hex_decode,
}

pub be_uint-put_uint32 : (v : ℕ) → v < 2 ^ 32 → be_uint (put_uint32 v) ≡ v
unfolding be_uint put_uint32
be_uint-put_uint32 v h = omega arith

from_hex_digit-hex_digit : (n : ℕ) → n < 16 → from_hex_digit (hex_digit n) ≡ some n
unfolding from_hex_digit hex_digit
from_hex_digit-hex_digit n h = ground arith

pub hex_decode-hex_encode : (bs : List ℕ) → AreBytes bs → hex_decode (hex_encode bs) ≡ bs
unfolding hex_decode hex_encode
hex_decode-hex_encode [] h = refl
hex_decode-hex_encode (b ∷ bs) h =
    rw
      (
        from_hex_digit-hex_digit (b / 16) (omega arith),
        from_hex_digit-hex_digit (b % 16) (omega arith),
        hex_decode-hex_encode bs h.1,
      )
      (ap (λ (x : ℕ). x ∷ bs) (omega arith))
