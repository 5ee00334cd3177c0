-- ===== src/Common/Decimal.antt =====
-- fmt's %d and %06d of a number that is not negative.
use Prim.Native.Nat.{ℕ, zero, suc, ◌+◌, ◌-◌, ◌*◌, ◌/◌, ◌%◌, ◌<◌}
use mathlib.Core.Path.{◌≡◌, refl, ap, ◌∙◌}
use mathlib.Core.List.{[], ◌∷◌, ◌++◌}
use native.Mathlib.Omega.{arith}
use package.record_storage.Common.Tests.{ltb, if◌then◌else◌}
use package.record_storage.Common.Lists.{length}
use package.record_storage.Common.ByteStrings.{Bytes}
use package.record_storage.Common.Words.{half64, u64_mod}

digits : ℕ → ℕ → Bytes
digits zero n = []
digits (suc fuel) n =
    let front = digits fuel (n / 10) in
    if ltb n 10 then (b'0' + n) ∷ [] else front ++ ((b'0' + n % 10) ∷ [])

-- A number has at most as many digits as itself and one.
unfoldable pub decimal : ℕ → Bytes
unfolding digits
decimal n = digits (suc n) n

-- fmt's %d of an int64, given by its bit pattern
unfoldable pub signed_decimal : ℕ → Bytes
signed_decimal n = if ltb n half64 then decimal n else b'-' ∷ decimal (u64_mod - n)

zeros : ℕ → Bytes
zeros zero = []
zeros (suc n) = b'0' ∷ zeros n

unfoldable pub decimal6 : ℕ → Bytes
unfolding zeros
decimal6 n = zeros (6 - length (decimal n)) ++ decimal n

value_from : ℕ → Bytes → ℕ
value_from acc [] = acc
value_from acc (b ∷ bs) = value_from (acc * 10 + (b - b'0')) bs

value_from-append :
    (acc : ℕ) (xs : Bytes) (b : ℕ)
    → value_from acc (xs ++ (b ∷ [])) ≡ value_from acc xs * 10 + (b - b'0')
unfolding value_from
value_from-append acc [] b = refl
value_from-append acc (x ∷ xs) b = value_from-append (acc * 10 + (x - b'0')) xs b

value_from-digits : (fuel n : ℕ) → n < fuel → value_from 0 (digits fuel n) ≡ n
unfolding digits value_from
value_from-digits zero n h = absurd (omega arith)
value_from-digits (suc fuel) n h = ground (
  arith,
  value_from-append 0 (digits fuel (n / 10)) (b'0' + n % 10),
  value_from-digits fuel (n / 10),
)

value_from-zeros : (k : ℕ) (xs : Bytes) → value_from 0 (zeros k ++ xs) ≡ value_from 0 xs
unfolding zeros value_from
value_from-zeros zero xs = refl
value_from-zeros (suc k) xs = value_from-zeros k xs

value-decimal6 : (n : ℕ) → value_from 0 (decimal6 n) ≡ n
unfolding decimal6 decimal
value-decimal6 n =
    value_from-zeros (6 - length (decimal n)) (decimal n)
    ∙ value_from-digits (suc n) n (omega arith)

pub decimal-injective : (m n : ℕ) → decimal m ≡ decimal n → m ≡ n
unfolding decimal
decimal-injective m n e =
    omega (arith, value_from-digits (suc m) m, value_from-digits (suc n) n, ap (value_from 0) e)

pub decimal6-injective : (m n : ℕ) → decimal6 m ≡ decimal6 n → m ≡ n
decimal6-injective m n e = omega (arith, value-decimal6 m, value-decimal6 n, ap (value_from 0) e)
