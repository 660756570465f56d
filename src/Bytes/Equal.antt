-- ===== src/Bytes/Equal.antt =====
-- `bytes.Equal`, and the comparison of strings, decide equality.
use go_is_is.Common.{ℕ, ◌≡◌, ◌≢◌, refl, List, [], ◌∷◌, true, false, arith}
use go_is_is.Bytes.{bytes_equal}

pub bytes_equal_refl : (bs : List ℕ) → bytes_equal bs bs ≡ true
unfolding bytes_equal
bytes_equal_refl [] = refl
bytes_equal_refl (b ∷ bs) = ground (arith, bytes_equal_refl bs)

pub bytes_equal→eq : (as' bs : List ℕ) → bytes_equal as' bs ≡ true → as' ≡ bs
unfolding bytes_equal
bytes_equal→eq [] [] h = refl
bytes_equal→eq [] (_ ∷ _) h = cc
bytes_equal→eq (_ ∷ _) [] h = cc
bytes_equal→eq (a ∷ as') (b ∷ bs) h = ground (arith, bytes_equal→eq as' bs)

pub ne_of_bytes_equal : (as' bs : List ℕ) → bytes_equal as' bs ≡ false → as' ≢ bs
ne_of_bytes_equal as' bs h e = cc (rw (e, bytes_equal_refl bs) at h)
