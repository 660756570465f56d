-- ===== src/Tlv/RoundTrip.antt =====
-- `parseTLVs` reads back what the serializers write, ends on every input, and panics on a lone
-- trailing byte.
use go_is_is.Common.{
  ℕ, zero, suc, ◌+◌, ◌≤◌, ◌<◌, ◌≡◌, refl, sym, subst, ◌∙◌, Bool-cases, true, inl, inr, List, [],
  ◌∷◌, ◌++◌, append_assoc, append-nil, Go, ok, panic, out_of_fuel, ◌>>=◌, Ends, Ends-bind, arith,
  ltb, lt→ltb, ltb→lt, length, length-append, All, get_elem?-none, get_elem?-append, Option-cases,
  get_elem?, leb,
}
use go_is_is.Bytes.{Slice, index, slice}
use go_is_is.Bytes.Slices.{index-append, slice-append, copy_into_self}
use go_is_is.Tlv.{Tlv, parse_loop, parse_tlvs, serialize_tlvs}

-- The length field says how long the value is.
abbrev pub IsWellFormed : Tlv → Type 0
IsWellFormed t = length t.value_tlv ≡ t.length_tlv

abbrev slice_of : List ℕ → List ℕ → Slice
slice_of items spare = record { items = items; spare = spare }

bind-ok : (r : Go (List Tlv)) → r ≡ (r >>= λ rs. ok ([] ++ rs))
bind-ok (ok a) = refl
bind-ok panic = refl
bind-ok out_of_fuel = refl

bind-cons :
    (r : Go (List Tlv)) (t : Tlv) (ts : List Tlv)
    → ((r >>= λ rs. ok (ts ++ rs)) >>= λ rs. ok (t ∷ rs)) ≡ (r >>= λ rs. ok ((t ∷ ts) ++ rs))
bind-cons (ok a) t ts = refl
bind-cons panic t ts = refl
bind-cons out_of_fuel t ts = refl

-- One round of the loop, at a TLV behind a prefix.
parse_round :
    (fuel : ℕ) (pre : List ℕ) (t : Tlv) (rest spare : List ℕ) (start : ℕ)
    → IsWellFormed t
    → start ≡ length pre
    → let raw = slice_of (pre ++ t.type_tlv ∷ t.length_tlv ∷ (t.value_tlv ++ rest)) spare in
      parse_loop (suc fuel) raw start
      ≡ (parse_loop fuel raw (start + (t.length_tlv + 2)) >>= λ ts. ok (t ∷ ts))
unfolding parse_loop
parse_round fuel pre t rest spare start w e =
    let tail = t.value_tlv ++ rest in
    let items = pre ++ t.type_tlv ∷ t.length_tlv ∷ tail in
    let more : ltb start (length items) ≡ true =
      lt→ltb _ _ (omega (arith, length-append pre (t.type_tlv ∷ t.length_tlv ∷ tail))) in
    let first : index (slice_of items spare) start ≡ ok t.type_tlv =
      index-append pre t.type_tlv (t.length_tlv ∷ tail) spare start e in
    let second : index (slice_of items spare) (start + 1) ≡ ok t.length_tlv =
      subst (λ (xs : List ℕ). index (slice_of xs spare) (start + 1) ≡ ok t.length_tlv)
        (append_assoc pre (t.type_tlv ∷ []) (t.length_tlv ∷ tail))
        (index-append (pre ++ t.type_tlv ∷ []) t.length_tlv tail spare (start + 1)
          (omega (arith, length-append pre (t.type_tlv ∷ [])))) in
    let third : slice (slice_of items spare) (start + 2) t.length_tlv ≡ ok t.value_tlv =
      subst (λ (xs : List ℕ). slice (slice_of xs spare) (start + 2) t.length_tlv ≡ ok t.value_tlv)
        (append_assoc pre (t.type_tlv ∷ t.length_tlv ∷ []) tail)
        (slice-append (pre ++ t.type_tlv ∷ t.length_tlv ∷ []) t.value_tlv rest spare (start + 2)
          t.length_tlv (omega (arith, length-append pre (t.type_tlv ∷ t.length_tlv ∷ [])))
          (sym w)) in
    rw (more, first, second, third, copy_into_self t.value_tlv t.length_tlv w) refl

pub index-Ends : (raw : Slice) (i : ℕ) → Ends (index raw i)
unfolding index
index-Ends raw i = elim (Option-cases (get_elem? raw.items i)) [
  | inl e ↦ rw e tt
  | inr (b, e) ↦ rw e tt
]

pub slice-Ends : (raw : Slice) (a n : ℕ) → Ends (slice raw a n)
unfolding slice
slice-Ends raw a n = elim (Bool-cases (leb (a + n) (length raw.items + length raw.spare))) [
  | inl e ↦ rw e tt
  | inr e ↦ rw e tt
]

-- Two bytes at least are consumed in a round, so the given rounds are enough.
parse_loop-Ends :
    (fuel : ℕ) (raw : Slice) (start : ℕ)
    → length raw.items < fuel + start
    → 0 < fuel
    → Ends (parse_loop fuel raw start)
unfolding parse_loop index slice
parse_loop-Ends zero raw start h z = absurd (omega arith)
parse_loop-Ends (suc fuel) raw start h z = elim (Bool-cases (ltb start (length raw.items))) [
  | inr stop ↦ rw stop tt
  | inl more ↦
      let lt = ltb→lt start (length raw.items) more in
      rw more (
        Ends-bind _ _ (index-Ends raw start) λ t. Ends-bind _ _ (index-Ends raw (start + 1)) λ n.
          Ends-bind _ _ (slice-Ends raw (start + 2) n) λ bytes.
            Ends-bind _ _ (parse_loop-Ends fuel raw (start + (n + 2)) (omega arith) (omega arith))
              λ rest. tt)
]

-- `parseTLVs` ends on every input.
pub parse_tlvs-Ends : (raw : Slice) (start : ℕ) → Ends (parse_tlvs raw start)
unfolding parse_tlvs
parse_tlvs-Ends raw start =
    parse_loop-Ends (length raw.items + 1) raw start (omega arith) (omega arith)

-- What the loop makes of a tail, wherever it stands.
abbrev Tail : List ℕ → List ℕ → Go (List Tlv) → Type 0
Tail tail spare r =
    (fuel : ℕ) (pre : List ℕ) (start : ℕ)
    → start ≡ length pre
    → parse_loop (suc fuel) (slice_of (pre ++ tail) spare) start ≡ r

parse_loop-serialize :
    (ts : List Tlv) (fuel : ℕ) (pre tail spare : List ℕ) (start : ℕ) (r : Go (List Tlv))
    → All IsWellFormed ts
    → start ≡ length pre
    → length ts < fuel
    → Tail tail spare r
    → parse_loop fuel (slice_of (pre ++ (serialize_tlvs ts ++ tail)) spare) start
      ≡ (r >>= λ rs. ok (ts ++ rs))
unfolding serialize_tlvs
parse_loop-serialize ts zero pre tail spare start r w e h at_tail = absurd (omega arith)
parse_loop-serialize [] (suc fuel) pre tail spare start r w e h at_tail =
    at_tail fuel pre start e ∙ bind-ok r
parse_loop-serialize (t ∷ ts) (suc fuel) pre tail spare start r w e h at_tail =
    let front = t.type_tlv ∷ t.length_tlv ∷ t.value_tlv in
    let ih : parse_loop fuel (slice_of (pre ++ (front ++ (serialize_tlvs ts ++ tail))) spare)
          (start + (t.length_tlv + 2))
        ≡ (r >>= λ rs. ok (ts ++ rs)) =
      subst
        (λ (xs : List ℕ).
          parse_loop fuel (slice_of xs spare) (start + (t.length_tlv + 2))
          ≡ (r >>= λ rs. ok (ts ++ rs)))
        (append_assoc pre front (serialize_tlvs ts ++ tail))
        (parse_loop-serialize ts fuel (pre ++ front) tail spare (start + (t.length_tlv + 2)) r w.1
          (omega (arith, length-append pre front, w.0)) (omega arith) at_tail) in
    rw (append_assoc t.value_tlv (serialize_tlvs ts) tail) (
      parse_round fuel pre t (serialize_tlvs ts ++ tail) spare start w.0 e
      ∙ rw ih (bind-cons r t ts))

length-serialize : (ts : List Tlv) → length ts ≤ length (serialize_tlvs ts)
unfolding serialize_tlvs
length-serialize [] = omega arith
length-serialize (t ∷ ts) =
    omega (arith, length-serialize ts, length-append t.value_tlv (serialize_tlvs ts))

-- `parseTLVs`, started behind any bytes on the serialization of TLVs whose length fields are right,
-- returns these TLVs, whatever lies in the slice's spare capacity.
pub parse_tlvs-serialize_tlvs :
    (ts : List Tlv) (pre spare : List ℕ)
    → All IsWellFormed ts
    → parse_tlvs (record { items = pre ++ serialize_tlvs ts; spare = spare }) (length pre) ≡ ok ts
unfolding parse_tlvs
parse_tlvs-serialize_tlvs ts pre spare w =
    let tail : Tail [] spare (ok []) =
      λ fuel p start e. unfold parse_loop in rw (append-nil p, e) (ground arith) in
    simp append-nil at (
      parse_loop-serialize ts (length (pre ++ serialize_tlvs ts) + 1) pre [] spare (length pre)
        (ok []) w refl (omega (arith, length-append pre (serialize_tlvs ts), length-serialize ts))
        tail)

odd-Tail : (b : ℕ) (spare : List ℕ) → Tail (b ∷ []) spare panic
unfolding parse_loop index
odd-Tail b spare fuel p start e =
    let more : ltb start (length (p ++ b ∷ [])) ≡ true =
      lt→ltb _ _ (omega (arith, length-append p (b ∷ []))) in
    rw
      (
        more,
        e,
        get_elem?-append p [] b,
        get_elem?-none (p ++ b ∷ []) (length p + 1) (omega (arith, length-append p (b ∷ []))),
      )
      refl

-- The same with one more byte behind the TLVs: the daemon panics on the missing length byte.
pub parse_tlvs-serialize_tlvs_odd :
    (ts : List Tlv) (pre spare : List ℕ) (b : ℕ)
    → All IsWellFormed ts
    → parse_tlvs
        (record { items = pre ++ (serialize_tlvs ts ++ b ∷ []); spare = spare })
        (length pre)
      ≡ panic
unfolding parse_tlvs
parse_tlvs-serialize_tlvs_odd ts pre spare b w =
    let items = pre ++ (serialize_tlvs ts ++ b ∷ []) in
    parse_loop-serialize ts (length items + 1) pre (b ∷ []) spare (length pre) panic w refl
      (omega (
        arith,
        length-append pre (serialize_tlvs ts ++ b ∷ []),
        length-append (serialize_tlvs ts) (b ∷ []),
        length-serialize ts,
      ))
      (odd-Tail b spare)
