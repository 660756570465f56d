-- ===== src/Tlv/Parsed.antt =====
-- What `parseTLVs` makes of any bytes.
use go_is_is.Common.{
  ℕ, zero, suc, ◌+◌, Bool-cases, inl, inr, ltb, length, All, Ensures, Ensures-bind, always,
}
use go_is_is.Bytes.{Slice, index, slice}
use go_is_is.Bytes.Slices.{length-copy_into}
use go_is_is.Tlv.{parse_loop, parse_tlvs}
use go_is_is.Tlv.RoundTrip.{IsWellFormed}

parse_loop-IsWellFormed :
    (fuel : ℕ) (raw : Slice) (start : ℕ) → Ensures (parse_loop fuel raw start) (All IsWellFormed)
unfolding parse_loop
parse_loop-IsWellFormed zero raw start = tt
parse_loop-IsWellFormed (suc fuel) raw start = elim (Bool-cases (ltb start (length raw.items))) [
  | inr stop ↦ rw stop tt
  | inl more ↦ rw more (
      Ensures-bind (index raw start) _ (λ _. Unit {0}) _ (always (index raw start) _ (λ _. tt))
        λ t _.
          Ensures-bind (index raw (start + 1)) _ (λ _. Unit {0}) _
            (always (index raw (start + 1)) _ (λ _. tt))
            λ n _.
              Ensures-bind (slice raw (start + 2) n) _ (λ _. Unit {0}) _
                (always (slice raw (start + 2) n) _ (λ _. tt))
                λ bytes _.
                  Ensures-bind (parse_loop fuel raw (start + (n + 2))) _ (All IsWellFormed) _
                    (parse_loop-IsWellFormed fuel raw (start + (n + 2)))
                    λ rest w. (length-copy_into n bytes, w))
]

pub parse_tlvs-IsWellFormed :
    (raw : Slice) (start : ℕ) → Ensures (parse_tlvs raw start) (All IsWellFormed)
unfolding parse_tlvs
parse_tlvs-IsWellFormed raw start = parse_loop-IsWellFormed (length raw.items + 1) raw start
