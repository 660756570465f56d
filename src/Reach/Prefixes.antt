-- ===== src/Reach/Prefixes.antt =====
-- The routes that a node advertises are the prefixes that the others read, as far as the TLV's
-- length byte counts them.
use go_is_is.Common.{
  ℕ, zero, suc, ◌+◌, ◌*◌, ◌/◌, ◌%◌, ◌^◌, ◌≤◌, ◌<◌, ◌≡◌, refl, sym, ap, subst, ◌∙◌, List, [], ◌∷◌,
  ◌++◌, append_assoc, append-nil, Option, none, some, ok, arith, length, length-append, take, All,
}
use go_is_is.Bytes.{slice}
use go_is_is.Bytes.Slices.{slice-append}
use go_is_is.Tlv.{Tlv}
use go_is_is.Tlv.RoundTrip.{IsWellFormed}
use go_is_is.Node.{Intf, IpNet}
use go_is_is.Update.{add_routes, add_interfaces, get_ip_reach_tlv, ten}
use go_is_is.Reach.{prefixes_loop, get_prefixes_from_tlv, whole}

-- The routes that are no nil pointers.
unfoldable pub kept_routes : List (Option IpNet) → List IpNet
kept_routes [] = []
kept_routes (none ∷ routes) = kept_routes routes
kept_routes (some route ∷ routes) = route ∷ kept_routes routes

-- Those of all interfaces.
unfoldable pub all_routes : List Intf → List IpNet
unfolding kept_routes
all_routes [] = []
all_routes (intf ∷ rest) = kept_routes intf.routes ++ all_routes rest

unfoldable encode : List IpNet → List ℕ
encode [] = []
encode (route ∷ routes) = route.ip ++ (route.ip_mask ++ (ten ++ encode routes))

encode-append : (xs ys : List IpNet) → encode (xs ++ ys) ≡ encode xs ++ encode ys
unfolding encode
encode-append [] ys = refl
encode-append (x ∷ xs) ys = rw (encode-append xs ys) (simp append_assoc)

-- The bytes that `routes` add, and the length that is counted.
record Added (routes : List IpNet) (t t' : Tlv) : Type 0 where
  value : t'.value_tlv ≡ t.value_tlv ++ encode routes
  small : t'.length_tlv < 256
  same_type : t'.type_tlv ≡ t.type_tlv
  counted : t'.length_tlv ≡ (t.length_tlv + 12 * length routes) % 256

Added-none : (t : Tlv) → t.length_tlv < 256 → Added [] t t
unfolding encode
Added-none t h = record {
  value = sym (append-nil t.value_tlv);
  small = h;
  same_type = refl;
  counted = omega arith;
}

Added-both :
    (xs ys : List IpNet) (t t' t'' : Tlv) → Added xs t t' → Added ys t' t'' → Added (xs ++ ys) t t''
Added-both xs ys t t' t'' a b = record {
  value =
      b.value
      ∙ ap (λ (v : List ℕ). v ++ encode ys) a.value
      ∙ append_assoc t.value_tlv (encode xs) (encode ys)
      ∙ ap (λ (v : List ℕ). t.value_tlv ++ v) (sym (encode-append xs ys));
  small = b.small;
  same_type = b.same_type ∙ a.same_type;
  counted = omega (arith, a.counted, b.counted, length-append xs ys);
}

add_routes-Added :
    (routes : List (Option IpNet)) (t : Tlv)
    → t.length_tlv < 256
    → Added (kept_routes routes) t (add_routes routes t)
unfolding add_routes kept_routes encode
add_routes-Added [] t h = Added-none t h
add_routes-Added (none ∷ routes) t h = add_routes-Added routes t h
add_routes-Added (some route ∷ routes) t h =
    let t' : Tlv = record t {
      value_tlv = t.value_tlv ++ (route.ip ++ (route.ip_mask ++ ten));
      length_tlv = (t.length_tlv + 12) % 2 ^ 8;
    } in
    Added-both (route ∷ []) (kept_routes routes) t t' (add_routes routes t')
      (record { value = refl; small = omega arith; same_type = refl; counted = omega arith })
      (add_routes-Added routes t' (omega arith))

add_interfaces-Added :
    (is : List Intf) (t : Tlv) → t.length_tlv < 256 → Added (all_routes is) t (add_interfaces is t)
unfolding add_interfaces all_routes
add_interfaces-Added [] t h = Added-none t h
add_interfaces-Added (i ∷ is) t h =
    let a = add_routes-Added i.routes t h in
    Added-both (kept_routes i.routes) (all_routes is) t (add_routes i.routes t)
      (add_interfaces is (add_routes i.routes t)) a
      (add_interfaces-Added is (add_routes i.routes t) a.small)

-- A v4 address and its mask.
abbrev pub IsV4 : IpNet → Type 0
IsV4 route = (length route.ip ≡ 4) × (length route.ip_mask ≡ 4)

loop_round :
    (count at : ℕ) (value : List ℕ) (route : IpNet) (routes : List IpNet)
    → slice (whole value) at 4 ≡ ok route.ip
    → slice (whole value) (at + 4) 4 ≡ ok route.ip_mask
    → prefixes_loop count (at + 12) value ≡ ok routes
    → prefixes_loop (suc count) at value ≡ ok (route ∷ routes)
unfolding prefixes_loop
loop_round count at value route routes first second rest = rw (first, second, rest) refl

prefixes_loop-encode :
    (routes : List IpNet) (count : ℕ) (pre : List ℕ) (at : ℕ)
    → All IsV4 routes
    → count ≤ length routes
    → at ≡ length pre
    → prefixes_loop count at (pre ++ encode routes) ≡ ok (take count routes)
unfolding prefixes_loop encode
prefixes_loop-encode routes zero pre at s h e = refl
prefixes_loop-encode [] (suc count) pre at s h e = absurd (omega arith)
prefixes_loop-encode (r ∷ routes) (suc count) pre at s h e =
    let more = ten ++ encode routes in
    let all = pre ++ (r.ip ++ (r.ip_mask ++ more)) in
    let first : slice (whole all) at 4 ≡ ok r.ip =
      slice-append pre r.ip (r.ip_mask ++ more) [] at 4 e (sym s.0.0) in
    let second : slice (whole all) (at + 4) 4 ≡ ok r.ip_mask =
      subst (λ (xs : List ℕ). slice (whole xs) (at + 4) 4 ≡ ok r.ip_mask)
        (append_assoc pre r.ip (r.ip_mask ++ more))
        (slice-append (pre ++ r.ip) r.ip_mask more [] (at + 4) 4
          (omega (arith, length-append pre r.ip, s.0.0)) (sym s.0.1)) in
    let front = r.ip ++ (r.ip_mask ++ ten) in
    let rest : prefixes_loop count (at + 12) all ≡ ok (take count routes) = simp append_assoc at (
      prefixes_loop-encode routes count (pre ++ front) (at + 12) s.1 (omega arith) (
        omega (
          arith,
          length-append pre front,
          length-append r.ip (r.ip_mask ++ ten),
          length-append r.ip_mask ten,
          s.0.0,
          s.0.1,
        ))) in
    loop_round count at all r (take count routes) first second rest

-- The prefixes read from the TLV that a node generates are the routes of its interfaces, in order,
-- when their addresses and masks have 4 bytes: all of them up to 21, and from 22 on only as many as
-- the length says, which the code keeps in one byte.
pub get_prefixes_from_tlv-get_ip_reach_tlv :
    (is : List Intf)
    → All IsV4 (all_routes is)
    → get_prefixes_from_tlv (get_ip_reach_tlv is)
      ≡ ok (take ((12 * length (all_routes is)) % 256 / 12) (all_routes is))
unfolding get_prefixes_from_tlv get_ip_reach_tlv
get_prefixes_from_tlv-get_ip_reach_tlv is s =
    let start : Tlv = record { type_tlv = 128; length_tlv = 0; value_tlv = [] } in
    let a = add_interfaces-Added is start (omega arith) in
    let counted : (add_interfaces is start).length_tlv ≡ (12 * length (all_routes is)) % 256 =
      omega (arith, a.counted) in
    rw (a.value, counted)
      (prefixes_loop-encode (all_routes is) ((12 * length (all_routes is)) % 256 / 12) [] 0 s
        (omega arith) refl)

pub type-get_ip_reach_tlv : (is : List Intf) → (get_ip_reach_tlv is).type_tlv ≡ 128
unfolding get_ip_reach_tlv
type-get_ip_reach_tlv is =
    (add_interfaces-Added is (record { type_tlv = 128; length_tlv = 0; value_tlv = [] })
      (omega arith)).same_type

length-encode :
    (routes : List IpNet) → All IsV4 routes → length (encode routes) ≡ 12 * length routes
unfolding encode
length-encode [] s = refl
length-encode (r ∷ routes) ((p, q), s) = omega (
  arith,
  length-append r.ip (r.ip_mask ++ (ten ++ encode routes)),
  length-append r.ip_mask (ten ++ encode routes),
  length-encode routes s,
)

-- Up to 21 routes, the length is right.
pub get_ip_reach_tlv-IsWellFormed :
    (is : List Intf)
    → All IsV4 (all_routes is)
    → length (all_routes is) ≤ 21
    → IsWellFormed (get_ip_reach_tlv is)
unfolding get_ip_reach_tlv
get_ip_reach_tlv-IsWellFormed is s h =
    let a =
      add_interfaces-Added is (record { type_tlv = 128; length_tlv = 0; value_tlv = [] })
        (omega arith) in
    rw a.value (omega (arith, a.counted, length-encode (all_routes is) s))
