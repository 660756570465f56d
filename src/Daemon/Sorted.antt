-- ===== src/Daemon/Sorted.antt =====
-- What `recvPdus` puts on the channel of the update process.
use go_is_is.Common.{
  ℕ, zero, suc, ◌≡◌, refl, sym, ◌∙◌, List, [], ◌∷◌, Ensures, Ensures-bind, always, get_elem?,
  Bool-cases, inl, inr, ◌==◌, ==→eq,
}
use go_is_is.Bytes.{Slice, or_panic, index, slice}
use go_is_is.Lsp.{byte_at}
use go_is_is.Daemon.{Channel, update_chan, recv_pdu}

index-byte_at : (raw : Slice) (i : ℕ) → Ensures (index raw i) λ b. b ≡ byte_at i raw.items
unfolding index
index-byte_at raw i = go raw.items i
  where
    go : (xs : List ℕ) (j : ℕ) → Ensures (or_panic (get_elem? xs j)) λ b. b ≡ byte_at j xs
    go [] j = tt
    go (x ∷ xs) zero = refl
    go (x ∷ xs) (suc j) = go xs j

-- What the channel says of a frame.
abbrev pub IsLspFrame : List ℕ → Type 0
IsLspFrame items = (byte_at 14 items ≡ 0x83) × (byte_at 18 items ≡ 0x12)

abbrev pub Sorted : List ℕ → Channel → Type 0
Sorted items update_chan = IsLspFrame items
Sorted items _ = Unit

pub recv_pdu-Sorted : (raw : Slice) → Ensures (recv_pdu raw) (Sorted raw.items)
unfolding recv_pdu
recv_pdu-Sorted raw =
    Ensures-bind (index raw 14) _ (λ b. b ≡ byte_at 14 raw.items) _ (index-byte_at raw 14)
      λ b p. elim (Bool-cases (b == 0x83)) [
        | inr e ↦ rw e tt
        | inl e ↦ rw e (
            Ensures-bind (index raw 18) _ (λ c. c ≡ byte_at 18 raw.items) _ (index-byte_at raw 18)
              λ c q. elim (Bool-cases (c == 0x0f)) [
                | inl k ↦ rw k tt
                | inr k ↦ rw k (elim (Bool-cases (c == 0x12)) [
                  | inr m ↦ rw m tt
                  | inl m ↦ rw m (
                      Ensures-bind (slice raw 26 6) _ (λ _. Unit {0}) _
                        (always (slice raw 26 6) _ (λ _. tt))
                        λ id _. (sym p ∙ ==→eq b 0x83 e, sym q ∙ ==→eq c 0x12 m))
                ])
              ])
      ]
