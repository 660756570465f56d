-- ===== src/Reach/Neighbors.antt =====
-- The neighbors that a node advertises are those that the others read, as far as the TLV's length
-- byte counts them.
use go_is_is.Common.{
  ℕ, zero, suc, ◌+◌, ◌-◌, ◌*◌, ◌/◌, ◌%◌, ◌^◌, ◌≤◌, ◌<◌, ◌≡◌, refl, sym, ap, subst, ◌∙◌, List, [],
  ◌∷◌, ◌++◌, append_assoc, append-nil, map, ok, arith, length, length-append, take, All, Bool-cases,
  inl, inr, if◌then◌else◌,
}
use go_is_is.Bytes.{slice, be_uint}
use go_is_is.Bytes.Slices.{slice-append}
use go_is_is.Tlv.{Tlv}
use go_is_is.Tlv.RoundTrip.{IsWellFormed}
use go_is_is.SystemId.{system_id_to_string}
use go_is_is.Node.{Intf, is_up}
use go_is_is.Update.{add_neighbors, get_neighbor_tlv, ten}
use go_is_is.Reach.{Neighbor, neighbors_loop, get_neighbors, whole}

-- The system IDs of the adjacencies that are up.
unfoldable pub up_ids : List Intf → List (List ℕ)
up_ids [] = []
up_ids (intf ∷ rest) =
    if is_up intf.adj.state then intf.adj.neighbor_system_id ∷ up_ids rest else up_ids rest

-- What each is read as.
abbrev pub neighbor_of : List ℕ → Neighbor
neighbor_of id = record { system_id = system_id_to_string id; metric = 10 }

unfoldable encode : List (List ℕ) → List ℕ
encode [] = []
encode (id ∷ ids) = ten ++ (id ++ (0x00 ∷ encode ids))

-- What an interface adds.
abbrev step : Intf → Tlv → Tlv
step i t =
    if is_up i.adj.state
    then record t {
      value_tlv = t.value_tlv ++ (ten ++ (i.adj.neighbor_system_id ++ 0x00 ∷ []));
      length_tlv = (t.length_tlv + 11) % 2 ^ 8;
    }
    else t

value-step :
    (i : Intf) (is : List Intf) (t : Tlv)
    → (step i t).value_tlv ++ encode (up_ids is) ≡ t.value_tlv ++ encode (up_ids (i ∷ is))
unfolding up_ids encode
value-step i is t = elim (Bool-cases (is_up i.adj.state)) [
  | inr d ↦ rw d refl
  | inl u ↦ rw u (
      append_assoc t.value_tlv (ten ++ (i.adj.neighbor_system_id ++ 0x00 ∷ [])) (encode (up_ids is))
      ∙ ap (λ (xs : List ℕ). t.value_tlv ++ (ten ++ xs))
          (append_assoc i.adj.neighbor_system_id (0x00 ∷ []) (encode (up_ids is))))
]

value-add_neighbors :
    (is : List Intf) (t : Tlv) → (add_neighbors is t).value_tlv ≡ t.value_tlv ++ encode (up_ids is)
unfolding add_neighbors up_ids encode
value-add_neighbors [] t = sym (append-nil t.value_tlv)
value-add_neighbors (i ∷ is) t = value-add_neighbors is (step i t) ∙ value-step i is t

length-step :
    (i : Intf) (is : List Intf) (t : Tlv)
    → t.length_tlv < 256
    → ((step i t).length_tlv < 256)
      × (((step i t).length_tlv + 11 * length (up_ids is)) % 256
          ≡ (t.length_tlv + 11 * length (up_ids (i ∷ is))) % 256)
unfolding up_ids
length-step i is t h = elim (Bool-cases (is_up i.adj.state)) [
  | inr d ↦ rw d (h, refl)
  | inl u ↦ rw u (omega arith, omega arith)
]

length-add_neighbors :
    (is : List Intf) (t : Tlv)
    → t.length_tlv < 256
    → (add_neighbors is t).length_tlv ≡ (t.length_tlv + 11 * length (up_ids is)) % 256
unfolding add_neighbors up_ids
length-add_neighbors [] t h = omega arith
length-add_neighbors (i ∷ is) t h =
    let (small, same) = length-step i is t h in length-add_neighbors is (step i t) small ∙ same

loop_round :
    (count at : ℕ) (value id : List ℕ) (ns : List Neighbor)
    → slice (whole value) at 4 ≡ ok ten
    → slice (whole value) (at + 4) 6 ≡ ok id
    → neighbors_loop count (at + 11) value ≡ ok ns
    → neighbors_loop (suc count) at value ≡ ok (neighbor_of id ∷ ns)
unfolding neighbors_loop be_uint
loop_round count at value id ns first second rest = rw (first, second, rest) refl

neighbors_loop-encode :
    (ids : List (List ℕ)) (count : ℕ) (pre rest : List ℕ) (at : ℕ)
    → All (λ id. length id ≡ 6) ids
    → count ≤ length ids
    → at ≡ length pre
    → neighbors_loop count at (pre ++ (encode ids ++ rest)) ≡ ok (map neighbor_of (take count ids))
unfolding neighbors_loop encode be_uint
neighbors_loop-encode ids zero pre rest at s h e = refl
neighbors_loop-encode [] (suc count) pre rest at s h e = absurd (omega arith)
neighbors_loop-encode (id ∷ ids) (suc count) pre rest at s h e =
    let more = encode ids ++ rest in
    let all = pre ++ (ten ++ (id ++ (0x00 ∷ more))) in
    let first : slice (whole all) at 4 ≡ ok ten =
      slice-append pre ten (id ++ (0x00 ∷ more)) [] at 4 e refl in
    let second : slice (whole all) (at + 4) 6 ≡ ok id =
      subst (λ (xs : List ℕ). slice (whole xs) (at + 4) 6 ≡ ok id)
        (append_assoc pre ten (id ++ (0x00 ∷ more)))
        (slice-append (pre ++ ten) id (0x00 ∷ more) [] (at + 4) 6
          (omega (arith, length-append pre ten)) (sym s.0)) in
    let front = ten ++ (id ++ 0x00 ∷ []) in
    let ih : neighbors_loop count (at + 11) all ≡ ok (map neighbor_of (take count ids)) =
      simp append_assoc at (
        neighbors_loop-encode ids count (pre ++ front) rest (at + 11) s.1 (omega arith)
          (omega (arith, length-append pre front, length-append id (0x00 ∷ [])))) in
    subst
      (λ (xs : List ℕ).
        neighbors_loop (suc count) at (pre ++ (ten ++ xs))
        ≡ ok (map neighbor_of (take (suc count) (id ∷ ids))))
      (sym (append_assoc id (0x00 ∷ encode ids) rest))
      (loop_round count at all id (map neighbor_of (take count ids)) first second ih)

-- The neighbors read from the TLV that a node generates are its adjacencies that are up, in order
-- and with metric 10, when the system IDs have 6 bytes: all of them up to 23, and from 24 on only
-- as many as the length says, which the code keeps in one byte.
pub get_neighbors-get_neighbor_tlv :
    (is : List Intf)
    → All (λ id. length id ≡ 6) (up_ids is)
    → get_neighbors (get_neighbor_tlv is)
      ≡ ok (map neighbor_of (take (((1 + 11 * length (up_ids is)) % 256 - 1) / 11) (up_ids is)))
unfolding get_neighbors get_neighbor_tlv
get_neighbors-get_neighbor_tlv is s =
    let start : Tlv = record { type_tlv = 2; length_tlv = 1; value_tlv = 0x00 ∷ [] } in
    let count = ((1 + 11 * length (up_ids is)) % 256 - 1) / 11 in
    rw (value-add_neighbors is start, length-add_neighbors is start (omega arith))
      (subst
        (λ (xs : List ℕ).
          neighbors_loop count 1 (0x00 ∷ xs) ≡ ok (map neighbor_of (take count (up_ids is))))
        (append-nil (encode (up_ids is)))
        (neighbors_loop-encode (up_ids is) count (0x00 ∷ []) [] 1 s (omega arith) refl))

type-step : (i : Intf) (t : Tlv) → (step i t).type_tlv ≡ t.type_tlv
type-step i t = elim (Bool-cases (is_up i.adj.state)) [ inl u ↦ rw u refl | inr d ↦ rw d refl ]

type-add_neighbors : (is : List Intf) (t : Tlv) → (add_neighbors is t).type_tlv ≡ t.type_tlv
unfolding add_neighbors
type-add_neighbors [] t = refl
type-add_neighbors (i ∷ is) t = type-add_neighbors is (step i t) ∙ type-step i t

pub type-get_neighbor_tlv : (is : List Intf) → (get_neighbor_tlv is).type_tlv ≡ 2
unfolding get_neighbor_tlv
type-get_neighbor_tlv is = type-add_neighbors is _

length-encode :
    (ids : List (List ℕ)) → All (λ id. length id ≡ 6) ids → length (encode ids) ≡ 11 * length ids
unfolding encode
length-encode [] s = refl
length-encode (id ∷ ids) (e, s) =
    omega (arith, length-append id (0x00 ∷ encode ids), length-encode ids s)

-- Up to 23 adjacencies that are up, the length is right.
pub get_neighbor_tlv-IsWellFormed :
    (is : List Intf)
    → All (λ id. length id ≡ 6) (up_ids is)
    → length (up_ids is) ≤ 23
    → IsWellFormed (get_neighbor_tlv is)
unfolding get_neighbor_tlv
get_neighbor_tlv-IsWellFormed is s h =
    let start : Tlv = record { type_tlv = 2; length_tlv = 1; value_tlv = 0x00 ∷ [] } in
    rw (value-add_neighbors is start)
      (omega (arith, length-add_neighbors is start (omega arith), length-encode (up_ids is) s))
