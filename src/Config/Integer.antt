-- ===== src/Config/Integer.antt =====
-- Go's int in internal/config/config.go, without overflow: the program only compares it.
use record_storage.Common.{ℕ, Bool, true, false, leb, ltb, ◌==◌}

-- `negsuc n` is -(n + 1).
pub data ℤ : Type 0 where
  pos : ℕ → ℤ
  negsuc : ℕ → ℤ

-- n == 0
abbrev pub is_zero : ℤ → Bool
is_zero (pos n) = n == 0
is_zero (negsuc n) = false

-- n > 0
abbrev pub is_positive : ℤ → Bool
is_positive (pos n) = ltb 0 n
is_positive (negsuc n) = false

-- n <= k
abbrev pub at_most : ℤ → ℕ → Bool
at_most (pos n) k = leb n k
at_most (negsuc n) k = true
