-- ===== src/Storage/ObjectKey.antt =====
-- BuildObjectKey of internal/storage/seaweed_hybrid.go. The text of a date, which Go's Format makes
-- of the time, is a parameter. A camera id is taken as a plain path segment, which path.Join keeps.
use record_storage.Common.{ℕ, ◌-◌, ◌/◌, ◌≡◌, ap, List, [], ◌∷◌, ◌++◌, Bytes, codes}
use record_storage.Common.Decimal.{decimal, decimal6, decimal6-injective}
use record_storage.Clock.{Time, millisecond, epoch, date_of}
use mathlib.Core.List.{append_cancel_left, append_cancel_right}

-- t.UnixMilli() of a time after 1970
abbrev unix_milli : Time → ℕ
unix_milli t = (t.instant - epoch) / millisecond

-- path.Join on segments that are not empty
join : List Bytes → Bytes
join [] = []
join (x ∷ []) = x
join (x ∷ y ∷ xs) = x ++ (b'/' ∷ join (y ∷ xs))

drop_first : Bytes → Bytes
drop_first [] = []
drop_first (x ∷ xs) = xs

past : (xs : Bytes) (b : ℕ) (ys zs : Bytes) → xs ++ (b ∷ ys) ≡ xs ++ (b ∷ zs) → ys ≡ zs
unfolding drop_first
past xs b ys zs e = ap drop_first (append_cancel_left xs (b ∷ ys) (b ∷ zs) e)

module _ (date_text : ℕ → Bytes) where
  unfoldable pub build_object_key : Bytes → Time → ℕ → Bytes → Bytes
  unfolding join
  build_object_key camera_id ts sequence suffix = join (
      codes "recordings"
      ∷ camera_id
      ∷ date_text (date_of ts)
      ∷ (decimal (unix_milli ts) ++ (b'-' ∷ (decimal6 sequence ++ suffix)))
      ∷ [])

  -- For one camera, time and suffix, different sequence numbers give different keys.
  pub build_object_key-injective :
      (camera_id : Bytes) (ts : Time) (m n : ℕ) (suffix : Bytes)
      → build_object_key camera_id ts m suffix ≡ build_object_key camera_id ts n suffix
      → m ≡ n
  unfolding build_object_key
  build_object_key-injective camera_id ts m n suffix e = decimal6-injective m n (
      append_cancel_right (decimal6 m) (decimal6 n) suffix (
        past (decimal (unix_milli ts)) b'-' _ _ (
          past (date_text (date_of ts)) b'/' _ _
            (past camera_id b'/' _ _ (past (codes "recordings") b'/' _ _ e)))))
