-- ===== src/Bytes/Slices.antt =====
-- Reading what stands behind a prefix of a slice.
use go_is_is.Common.{
  ℕ, zero, suc, ◌+◌, ◌≡◌, refl, ap, true, List, [], ◌∷◌, ◌++◌, append_assoc, ok, arith, length,
  length-append, take, drop, get_elem?-append, take-append, drop-append, leb,
}
use go_is_is.Bytes.{index, slice, copy_into}

pub index-append :
    (pre : List ℕ) (b : ℕ) (rest spare : List ℕ) (i : ℕ)
    → i ≡ length pre
    → index (record { items = pre ++ b ∷ rest; spare = spare }) i ≡ ok b
unfolding index
index-append pre b rest spare i e = rw (e, get_elem?-append pre rest b)

pub drop-length : (pre rest : List ℕ) (n : ℕ) → n ≡ length pre → drop n (pre ++ rest) ≡ rest
drop-length pre rest n e = rw e (drop-append pre rest)

pub take-length : (pre rest : List ℕ) (n : ℕ) → n ≡ length pre → take n (pre ++ rest) ≡ pre
take-length pre rest n e = rw e (take-append pre rest)

-- `s[a:a+n]` where the slice is `pre`, then `mid` of `n` bytes, then a rest.
pub slice-append :
    (pre mid rest spare : List ℕ) (a n : ℕ)
    → a ≡ length pre
    → n ≡ length mid
    → slice (record { items = pre ++ (mid ++ rest); spare = spare }) a n ≡ ok mid
unfolding slice
slice-append pre mid rest spare a n e f =
    let fits : leb (a + n) (length (pre ++ (mid ++ rest)) + length spare) ≡ true =
      ground (arith, length-append pre (mid ++ rest), length-append mid rest) in
    rw (
      fits,
      append_assoc pre (mid ++ rest) spare,
      append_assoc mid rest spare,
      drop-length pre (mid ++ (rest ++ spare)) a e,
      take-length mid (rest ++ spare) n f,
    )

pub copy_into_self : (bs : List ℕ) (n : ℕ) → length bs ≡ n → copy_into n bs ≡ bs
unfolding copy_into
copy_into_self [] zero h = refl
copy_into_self [] (suc n) h = absurd (omega arith)
copy_into_self (b ∷ bs) zero h = absurd (omega arith)
copy_into_self (b ∷ bs) (suc n) h = ap (◌∷◌ b) (copy_into_self bs n (omega arith))

pub length-copy_into : (n : ℕ) (bs : List ℕ) → length (copy_into n bs) ≡ n
unfolding copy_into
length-copy_into zero bs = refl
length-copy_into (suc n) [] = ap suc (length-copy_into n [])
length-copy_into (suc n) (b ∷ bs) = ap suc (length-copy_into n bs)
