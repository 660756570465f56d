-- ===== src/SystemId/Keys.antt =====
-- The keys of the databases tell system IDs apart.
use go_is_is.Common.{
  ℕ, zero, suc, ◌+◌, ◌*◌, ◌≤◌, ◌≡◌, ◌≢◌, refl, sym, ap, ◌∙◌, List, [], ◌∷◌, arith, length,
}
use mathlib.Core.Path.{ap₂}
use go_is_is.Bytes.Slices.{length-copy_into}
use go_is_is.Bytes.{AreBytes, be_uint, be_uint_from, copy_into}
use go_is_is.SystemId.{system_id_to_string, system_id_to_key}
use go_is_is.SystemId.RoundTrip.{system_id_to_bytes-system_id_to_string}

-- The text is that of a system ID of six bytes.
pub record IsSystem (v : List ℕ) : Type 0 where
  pub id : List ℕ
  pub six : length id ≡ 6
  pub are_bytes : AreBytes id
  pub text : v ≡ system_id_to_string id

be_uint_from-injective :
    (a b : ℕ) (xs ys : List ℕ)
    → AreBytes xs
    → AreBytes ys
    → length xs ≡ length ys
    → be_uint_from a xs ≡ be_uint_from b ys
    → (a ≡ b) × (xs ≡ ys)
unfolding be_uint_from
be_uint_from-injective a b [] [] h k l e = (e, refl)
be_uint_from-injective a b [] (y ∷ ys) h k l e = absurd (omega arith)
be_uint_from-injective a b (x ∷ xs) [] h k l e = absurd (omega arith)
be_uint_from-injective a b (x ∷ xs) (y ∷ ys) h k l e =
    let (p, q) = be_uint_from-injective (a * 256 + x) (b * 256 + y) xs ys h.1 k.1 (omega arith) e in
    (omega (arith, h.0, k.0), ap₂ ◌∷◌ (omega (arith, h.0, k.0)) q)

AreBytes-copy_into : (n : ℕ) (xs : List ℕ) → AreBytes xs → AreBytes (copy_into n xs)
unfolding copy_into
AreBytes-copy_into zero xs h = tt
AreBytes-copy_into (suc n) [] h = (omega arith, AreBytes-copy_into n [] tt)
AreBytes-copy_into (suc n) (x ∷ xs) h = (h.0, AreBytes-copy_into n xs h.1)

head_of : ℕ → List ℕ → ℕ
head_of d [] = d
head_of d (x ∷ xs) = x

tail_of : List ℕ → List ℕ
tail_of [] = []
tail_of (x ∷ xs) = xs

copy_into-injective :
    (n : ℕ) (xs ys : List ℕ)
    → length xs ≤ n
    → length ys ≡ length xs
    → copy_into n xs ≡ copy_into n ys
    → xs ≡ ys
unfolding copy_into head_of tail_of
copy_into-injective n [] [] h l e = refl
copy_into-injective n [] (y ∷ ys) h l e = absurd (omega arith)
copy_into-injective n (x ∷ xs) [] h l e = absurd (omega arith)
copy_into-injective zero (x ∷ xs) (y ∷ ys) h l e = absurd (omega arith)
copy_into-injective (suc n) (x ∷ xs) (y ∷ ys) h l e =
    ap₂ ◌∷◌ (ap (head_of 0) e)
      (copy_into-injective n xs ys (omega arith) (omega arith) (ap tail_of e))

key-bytes :
    (id : List ℕ)
    → length id ≡ 6
    → AreBytes id
    → system_id_to_key (system_id_to_string id) ≡ be_uint (copy_into 8 id)
unfolding system_id_to_key
key-bytes id n h = rw (system_id_to_bytes-system_id_to_string id n h) refl

-- Two systems whose texts are those of IDs of six bytes, and whose keys are the same, are one.
pub system_id_to_key-injective :
    (u v : List ℕ) → IsSystem u → IsSystem v → system_id_to_key u ≡ system_id_to_key v → u ≡ v
unfolding be_uint
system_id_to_key-injective u v p q e =
    let keys : be_uint (copy_into 8 p.id) ≡ be_uint (copy_into 8 q.id) =
      sym (key-bytes p.id p.six p.are_bytes)
      ∙ ap system_id_to_key (sym p.text)
      ∙ e
      ∙ ap system_id_to_key q.text
      ∙ key-bytes q.id q.six q.are_bytes in
    let same =
      be_uint_from-injective 0 0 (copy_into 8 p.id) (copy_into 8 q.id)
        (AreBytes-copy_into 8 p.id p.are_bytes) (AreBytes-copy_into 8 q.id q.are_bytes)
        (length-copy_into 8 p.id ∙ sym (length-copy_into 8 q.id)) keys in
    p.text
    ∙ ap system_id_to_string (
        copy_into-injective 8 p.id q.id (omega (arith, p.six)) (omega (arith, p.six, q.six)) same.1)
    ∙ sym q.text

-- Two different systems, whose texts are those of IDs of six bytes, have different keys.
pub system_id_to_key_distinct :
    (u v : List ℕ) → IsSystem u → IsSystem v → u ≢ v → system_id_to_key u ≢ system_id_to_key v
system_id_to_key_distinct u v p q ne e = ne (system_id_to_key-injective u v p q e)
