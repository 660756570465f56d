-- ===== src/SystemId/RoundTrip.antt =====
-- A system ID survives its textual form, and distinct IDs have distinct keys.
use go_is_is.Common.{
  ℕ, suc, ◌/◌, ◌%◌, ◌<◌, ◌≡◌, refl, sym, ap, ◌∙◌, List, [], ◌∷◌, arith, length, false, ◌==◌,
}
use go_is_is.Bytes.{AreBytes, IsByte, hex_digit, hex_encode}
use go_is_is.Bytes.Digits.{hex_decode-hex_encode}
use go_is_is.Bytes.Slices.{copy_into_self}
use go_is_is.SystemId.{system_id_to_string, system_id_to_bytes, remove_dots}

hex_digit-ne-dot : (n : ℕ) → n < 16 → hex_digit n == b'.' ≡ false
unfolding hex_digit
hex_digit-ne-dot n h = ground arith

-- The two digits of a byte.
abbrev digits : ℕ → List ℕ → List ℕ
digits b s = hex_digit (b / 16) ∷ hex_digit (b % 16) ∷ s

-- Two hexadecimal digits hold no dot.
remove_dots-digits :
    (n b : ℕ) (s : List ℕ)
    → IsByte b
    → remove_dots (suc n) (digits b s) ≡ digits b (remove_dots (suc n) s)
unfolding remove_dots
remove_dots-digits n b s h =
    rw (hex_digit-ne-dot (b / 16) (omega arith), hex_digit-ne-dot (b % 16) (omega arith)) refl

remove_dots-string :
    (a b c d e f : ℕ)
    → AreBytes (a ∷ b ∷ c ∷ d ∷ e ∷ f ∷ [])
    → remove_dots 6 (system_id_to_string (a ∷ b ∷ c ∷ d ∷ e ∷ f ∷ []))
      ≡ hex_encode (a ∷ b ∷ c ∷ d ∷ e ∷ f ∷ [])
unfolding hex_encode system_id_to_string remove_dots
remove_dots-string a b c d e f h =
    let low = b'.' ∷ digits e (digits f []) in
    let mid = b'.' ∷ digits c (digits d low) in
    remove_dots-digits 5 a (digits b mid) h.0
    ∙ ap (digits a) (
        remove_dots-digits 5 b mid h.1.0
        ∙ ap (digits b) (
            remove_dots-digits 4 c (digits d low) h.1.1.0
            ∙ ap (digits c) (
                remove_dots-digits 4 d low h.1.1.1.0
                ∙ ap (digits d) (
                    remove_dots-digits 3 e (digits f []) h.1.1.1.1.0
                    ∙ ap (digits e) (remove_dots-digits 3 f [] h.1.1.1.1.1.0)))))

-- The bytes of a system ID come back from its text.
pub system_id_to_bytes-system_id_to_string :
    (id : List ℕ) → length id ≡ 6 → AreBytes id → system_id_to_bytes (system_id_to_string id) ≡ id
unfolding system_id_to_bytes
system_id_to_bytes-system_id_to_string [] n h = absurd (omega arith)
system_id_to_bytes-system_id_to_string (_ ∷ []) n h = absurd (omega arith)
system_id_to_bytes-system_id_to_string (_ ∷ _ ∷ []) n h = absurd (omega arith)
system_id_to_bytes-system_id_to_string (_ ∷ _ ∷ _ ∷ []) n h = absurd (omega arith)
system_id_to_bytes-system_id_to_string (_ ∷ _ ∷ _ ∷ _ ∷ []) n h = absurd (omega arith)
system_id_to_bytes-system_id_to_string (_ ∷ _ ∷ _ ∷ _ ∷ _ ∷ []) n h = absurd (omega arith)
system_id_to_bytes-system_id_to_string (a ∷ b ∷ c ∷ d ∷ e ∷ f ∷ []) n h =
    let id = a ∷ b ∷ c ∷ d ∷ e ∷ f ∷ [] in
    rw (remove_dots-string a b c d e f h, hex_decode-hex_encode id h) (copy_into_self id 6 refl)
system_id_to_bytes-system_id_to_string (_ ∷ _ ∷ _ ∷ _ ∷ _ ∷ _ ∷ _ ∷ _) n h = absurd (omega arith)

-- So two system IDs with one text are the same.
pub system_id_to_string-injective :
    (id id' : List ℕ)
    → length id ≡ 6
    → length id' ≡ 6
    → AreBytes id
    → AreBytes id'
    → system_id_to_string id ≡ system_id_to_string id'
    → id ≡ id'
system_id_to_string-injective id id' n n' h h' e =
    sym (system_id_to_bytes-system_id_to_string id n h)
    ∙ ap system_id_to_bytes e
    ∙ system_id_to_bytes-system_id_to_string id' n' h'
