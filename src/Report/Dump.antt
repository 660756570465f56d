-- ===== src/Report/Dump.antt =====
-- When `GetLsp` panics.
use go_is_is.Common.{
  ℕ, zero, suc, ◌+◌, ◌*◌, ◌/◌, ◌%◌, ◌^◌, ◌≤◌, ◌<◌, ◌≡◌, refl, ap, ◌∙◌, List, [], ◌∷◌, Bool, true,
  false, not, ◌&&◌, Go, ok, panic, out_of_fuel, ◌>>=◌, leb, ◌==◌, length, arith, All, Bool-cases,
  inl, inr, ==→eq, get_elem?-lt,
}
use go_is_is.Bytes.{slice, index}
use go_is_is.Avl.{AvlNode}
use go_is_is.Avl.Traverse.{nodes, get_all-nodes}
use go_is_is.Tlv.{Tlv}
use go_is_is.Tlv.RoundTrip.{IsWellFormed}
use go_is_is.Lsp.{Lsp}
use go_is_is.Node.{Node, IpNet}
use go_is_is.Reach.{whole}
use go_is_is.Report.{
  neighbor_lines, prefix_lines, tlv_body, tlvs_text, lsp_string, lsp_strings, get_lsp,
}

-- The code ends in a value.
abbrev pub is_ok {ℓ} : {A : Type ℓ} → Go A → Bool
is_ok (ok a) = true
is_ok panic = false
is_ok out_of_fuel = false

-- A neighbors TLV without even the byte of its flag.
abbrev pub is_empty_neighbors : Tlv → Bool
is_empty_neighbors t = t.type_tlv == 2 && t.length_tlv == 0

-- Neither the TLVs of an LSP nor those of a list of them have one.
abbrev pub no_empty : List Tlv → Bool
no_empty [] = true
no_empty (t ∷ ts) = not (is_empty_neighbors t) && no_empty ts

abbrev pub none_empty : List (AvlNode Lsp) → Bool
none_empty [] = true
none_empty (x ∷ xs) = no_empty x.payload.core_lsp.first_tlv && none_empty xs

is_ok-bind :
    {A B C : Type 0} (m : Go A) (m' : Go B) (f : A → B → C)
    → is_ok (m >>= λ a. m' >>= λ b. ok (f a b)) ≡ (is_ok m && is_ok m')
is_ok-bind (ok a) (ok b) f = refl
is_ok-bind (ok a) panic f = refl
is_ok-bind (ok a) out_of_fuel f = refl
is_ok-bind panic m' f = refl
is_ok-bind out_of_fuel m' f = refl

is_ok-last : {A B : Type 0} (m : Go A) (f : A → B) → is_ok (m >>= λ a. ok (f a)) ≡ is_ok m
is_ok-last (ok a) f = refl
is_ok-last panic f = refl
is_ok-last out_of_fuel f = refl

slice-ok :
    (value : List ℕ) (a n : ℕ)
    → a + n ≤ length value
    → (bs : List ℕ) × (slice (whole value) a n ≡ ok bs)
unfolding slice
slice-ok value a n h =
    let fits : leb (a + n) (length value + 0) ≡ true = ground arith in rw fits (_, refl)

neighbor_lines-ok :
    (count i : ℕ) (value : List ℕ)
    → (i + count) * 11 ≤ length value
    → is_ok (neighbor_lines count i value) ≡ true
unfolding neighbor_lines index
neighbor_lines-ok zero i value h = refl
neighbor_lines-ok (suc count) i value h =
    let (metric, e) = get_elem?-lt value (i * 11 + 4) (omega arith) in
    let (id, f) = slice-ok value (i * 11 + 1 + 4) 6 (omega arith) in
    rw (e, f)
      (is_ok-last (neighbor_lines count (suc i) value) _
        ∙ neighbor_lines-ok count (suc i) value (omega arith))

empty_neighbors :
    (count : ℕ) (value : List ℕ) → length value ≡ 0 → neighbor_lines (suc count) 0 value ≡ panic
unfolding neighbor_lines index
empty_neighbors count [] e = refl
empty_neighbors count (x ∷ value) e = absurd (omega arith)

module _ (show_net : IpNet → List ℕ) (show_ip : List ℕ → List ℕ) (show_mask : List ℕ → List ℕ) where
  prefix_lines-ok :
      (count i : ℕ) (value : List ℕ)
      → (i + count) * 12 ≤ length value
      → is_ok (prefix_lines show_net show_ip show_mask count i value) ≡ true
  unfolding prefix_lines
  prefix_lines-ok zero i value h = refl
  prefix_lines-ok (suc count) i value h =
      let (ip, e) = slice-ok value (i * 12) 4 (omega arith) in
      let (mask, f) = slice-ok value (i * 12 + 4) 4 (omega arith) in
      let (metric, g) = slice-ok value (i * 12 + 8) 4 (omega arith) in
      rw (e, f, g)
        (is_ok-last (prefix_lines show_net show_ip show_mask count (suc i) value) _
          ∙ prefix_lines-ok count (suc i) value (omega arith))

  tlv_body-is_ok :
      (t : Tlv)
      → IsWellFormed t
      → t.length_tlv < 256
      → is_ok (tlv_body show_net show_ip show_mask t) ≡ not (is_empty_neighbors t)
  unfolding tlv_body
  tlv_body-is_ok t w b = elim (Bool-cases (t.type_tlv == 128)) [
    | inl e ↦ rw e (prefix_lines-ok (t.length_tlv / 12) 0 t.value_tlv (omega arith) ∙ ground arith)
    | inr e ↦ rw e (elim (Bool-cases (t.type_tlv == 2)) [
      | inr f ↦ rw f refl
      | inl f ↦ rw f (elim (Bool-cases (t.length_tlv == 0)) [
        | inl z ↦
            rw (z, ==→eq t.length_tlv 0 z)
              (ap is_ok (empty_neighbors 22 t.value_tlv (omega (arith, ==→eq t.length_tlv 0 z))))
        | inr z ↦
            rw z
              (neighbor_lines-ok ((t.length_tlv + 255) % 2 ^ 8 / 11) 0 t.value_tlv (ground arith))
      ])
    ])
  ]

  tlvs_text-is_ok :
      (ts : List Tlv)
      → All (λ t. IsWellFormed t × (t.length_tlv < 256)) ts
      → is_ok (tlvs_text show_net show_ip show_mask ts) ≡ no_empty ts
  unfolding tlvs_text
  tlvs_text-is_ok [] a = refl
  tlvs_text-is_ok (t ∷ ts) ((w, b), a) =
      is_ok-bind (tlv_body show_net show_ip show_mask t) (tlvs_text show_net show_ip show_mask ts) _
      ∙ rw (tlv_body-is_ok t w b, tlvs_text-is_ok ts a) refl

  lsp_string-is_ok :
      (lsp : Lsp)
      → All (λ t. IsWellFormed t × (t.length_tlv < 256)) lsp.core_lsp.first_tlv
      → is_ok (lsp_string show_net show_ip show_mask lsp) ≡ no_empty lsp.core_lsp.first_tlv
  unfolding lsp_string
  lsp_string-is_ok lsp a =
      is_ok-last (tlvs_text show_net show_ip show_mask lsp.core_lsp.first_tlv) _
      ∙ tlvs_text-is_ok lsp.core_lsp.first_tlv a

  lsp_strings-is_ok :
      (xs : List (AvlNode Lsp))
      → All (λ x. All (λ t. IsWellFormed t × (t.length_tlv < 256)) x.payload.core_lsp.first_tlv) xs
      → is_ok (lsp_strings show_net show_ip show_mask xs) ≡ none_empty xs
  unfolding lsp_strings
  lsp_strings-is_ok [] a = refl
  lsp_strings-is_ok (x ∷ xs) (h, a) =
      is_ok-bind (lsp_string show_net show_ip show_mask x.payload)
        (lsp_strings show_net show_ip show_mask xs) _
      ∙ rw (lsp_string-is_ok x.payload h, lsp_strings-is_ok xs a) refl

  -- On a database whose LSPs have TLVs with right lengths of a byte, `GetLsp` ends without a panic
  -- exactly if none of them is a neighbors TLV of length 0: for such a one the loop runs 23 rounds,
  -- and the first reads out of range.
  pub get_lsp-is_ok :
      (n : Node)
      → All
          (λ x. All (λ t. IsWellFormed t × (t.length_tlv < 256)) x.payload.core_lsp.first_tlv)
          (nodes n.update_db)
      → is_ok (get_lsp show_net show_ip show_mask n) ≡ none_empty (nodes n.update_db)
  unfolding get_lsp
  get_lsp-is_ok n a = rw (get_all-nodes n.update_db) (lsp_strings-is_ok (nodes n.update_db) a)
