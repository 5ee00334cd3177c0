-- ===== src/Common/BigEndian.antt =====
-- encoding/binary's BigEndian: unsigned numbers as bytes, most significant first, of any width.
use Prim.Native.Nat.{ℕ, zero, suc, ◌+◌, ◌*◌, ◌/◌, ◌%◌, ◌^◌, ◌<◌}
use mathlib.Core.Path.{◌≡◌, refl, sym, ap, ◌∙◌}
use mathlib.Core.List.{[], ◌∷◌, ◌++◌}
use native.Mathlib.Omega.{arith}
use native.Mathlib.Nat.{pow-suc}
use package.record_storage.Common.Tests.{leb, ◌==◌, if◌then◌else◌}
use package.record_storage.Common.Lists.{length, length-append, All, All-append}
use package.record_storage.Common.ByteStrings.{Bytes, IsByte, bytes_eq, bytes_eq_iff, bytes_leb}

-- PutUint32 and PutUint64 are `put_be 4` and `put_be 8`.
unfoldable pub put_be : ℕ → ℕ → Bytes
put_be zero n = []
put_be (suc w) n = put_be w (n / 256) ++ (n % 256 ∷ [])

get_from : ℕ → Bytes → ℕ
get_from acc [] = acc
get_from acc (b ∷ bs) = get_from (acc * 256 + b) bs

-- Uint32 and Uint64
unfoldable pub get_be : Bytes → ℕ
unfolding get_from
get_be = get_from 0

pub length-put_be : (w n : ℕ) → length (put_be w n) ≡ w
unfolding put_be
length-put_be zero n = refl
length-put_be (suc w) n =
    omega (arith, length-append (put_be w (n / 256)) (n % 256 ∷ []), length-put_be w (n / 256))

pub All-put_be : (w n : ℕ) → All IsByte (put_be w n)
unfolding put_be
All-put_be zero n = tt
All-put_be (suc w) n =
    All-append IsByte (put_be w (n / 256)) (n % 256 ∷ []) (All-put_be w (n / 256)) (omega arith)

get_from-append :
    (acc : ℕ) (xs : Bytes) (b : ℕ) → get_from acc (xs ++ (b ∷ [])) ≡ get_from acc xs * 256 + b
unfolding get_from
get_from-append acc [] b = refl
get_from-append acc (x ∷ xs) b = get_from-append (acc * 256 + x) xs b

pub get_be-put_be : (w n : ℕ) → n < 256 ^ w → get_be (put_be w n) ≡ n
unfolding put_be get_be
get_be-put_be zero n h = omega arith
get_be-put_be (suc w) n h =
    rw (get_from-append 0 (put_be w (n / 256)) (n % 256))
      (omega (arith, get_be-put_be w (n / 256) (omega (arith, pow-suc 256 w))))

-- Comparing two byte strings of one length compares their last bytes last.
bytes_leb-append :
    (xs ys : Bytes) (a b : ℕ)
    → length xs ≡ length ys
    → bytes_leb (xs ++ (a ∷ [])) (ys ++ (b ∷ []))
      ≡ (if bytes_eq xs ys then leb a b else bytes_leb xs ys)
unfolding bytes_leb bytes_eq
bytes_leb-append [] [] a b h = ground arith
bytes_leb-append [] (y ∷ ys) a b h = absurd (omega arith)
bytes_leb-append (x ∷ xs) [] a b h = absurd (omega arith)
bytes_leb-append (x ∷ xs) (y ∷ ys) a b h = ground (arith, bytes_leb-append xs ys a b)

pub put_be-injective : (w m n : ℕ) → m < 256 ^ w → n < 256 ^ w → put_be w m ≡ put_be w n → m ≡ n
put_be-injective w m n hm hn e =
    omega (arith, get_be-put_be w m hm, get_be-put_be w n hn, ap get_be e)

bytes_eq-put_be :
    (w m n : ℕ) → m < 256 ^ w → n < 256 ^ w → bytes_eq (put_be w m) (put_be w n) ≡ (m == n)
bytes_eq-put_be w m n hm hn =
    ground (arith, bytes_eq_iff (put_be w m) (put_be w n), put_be-injective w m n hm hn)

-- The order of the bytes is the order of the numbers.
pub bytes_leb-put_be :
    (w m n : ℕ) → m < 256 ^ w → n < 256 ^ w → bytes_leb (put_be w m) (put_be w n) ≡ leb m n
unfolding put_be
bytes_leb-put_be zero m n hm hn = unfold bytes_leb in ground arith
bytes_leb-put_be (suc w) m n hm hn =
    let p : m / 256 < 256 ^ w = omega (arith, pow-suc 256 w) in
    let q : n / 256 < 256 ^ w = omega (arith, pow-suc 256 w) in
    rw
      (
        bytes_leb-append (put_be w (m / 256)) (put_be w (n / 256)) (m % 256) (n % 256)
            (length-put_be w (m / 256) ∙ sym (length-put_be w (n / 256))),
        bytes_eq-put_be w (m / 256) (n / 256) p q,
        bytes_leb-put_be w (m / 256) (n / 256) p q,
      )
      (ground arith)

-- A common prefix does not count.
pub bytes_leb-prefix : (ps xs ys : Bytes) → bytes_leb (ps ++ xs) (ps ++ ys) ≡ bytes_leb xs ys
unfolding bytes_leb
bytes_leb-prefix [] xs ys = refl
bytes_leb-prefix (p ∷ ps) xs ys = ground (arith, bytes_leb-prefix ps xs ys)
