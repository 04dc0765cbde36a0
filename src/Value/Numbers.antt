-- ===== src/Value/Numbers.antt =====
-- IEEE doubles, as far as the adapter looks at them: every finite one is n / 2^k.
use integration_efi.Base.{
  ℕ, ◌+◌, ◌*◌, ◌/◌, ◌%◌, ◌^◌, ℤ, pos, negsuc, Bool, true, false, ltb, eqb, suc, zero,
}

pub data Float : Type 0 where
  nan : Float
  infinite : Bool → Float  -- `true` is +Inf
  finite : ℤ → ℕ → Float  -- n / 2^k

-- !math.IsNaN(v) && !math.IsInf(v, 0) && math.Trunc(v) == v
unfoldable pub is_whole : Float → Bool
is_whole nan = false
is_whole (infinite s) = false
is_whole (finite (pos n) k) = eqb (n % 2 ^ k) 0
is_whole (finite (negsuc n) k) = eqb (suc n % 2 ^ k) 0

-- v > bound
unfoldable pub above : Float → ℕ → Bool
above nan bound = false
above (infinite s) bound = s
above (finite (pos n) k) bound = ltb (bound * 2 ^ k) n
above (finite (negsuc n) k) bound = false

-- v < -bound
unfoldable pub below : Float → ℕ → Bool
below nan bound = false
below (infinite true) bound = false
below (infinite false) bound = true
below (finite (pos n) k) bound = false
below (finite (negsuc n) k) bound = ltb (bound * 2 ^ k) (suc n)

abbrev minus : ℕ → ℤ
minus zero = pos 0
minus (suc n) = negsuc n

-- The conversion of a float to an integer discards the fraction. (Callers treat the values that no
-- integer type holds by themselves.)
unfoldable pub truncated : Float → ℤ
truncated nan = pos 0
truncated (infinite s) = pos 0
truncated (finite (pos n) k) = pos (n / 2 ^ k)
truncated (finite (negsuc n) k) = minus (suc n / 2 ^ k)

-- Whether an int of 64 bits holds the truncated value.
unfoldable pub fits_int : Float → Bool
fits_int nan = false
fits_int (infinite s) = false
fits_int (finite (pos n) k) = ltb n (2 ^ 63 * 2 ^ k)
fits_int (finite (negsuc n) k) = ltb (suc n) ((2 ^ 63 + 1) * 2 ^ k)
