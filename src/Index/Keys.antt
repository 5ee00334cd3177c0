-- ===== src/Index/Keys.antt =====
-- The keys of internal/index/bolt_index.go. The FNV-1a hash of a camera id is a parameter.
use record_storage.Common.{
  ℕ, ◌≡◌, ◌∙◌, ◌∷◌, ◌++◌, Bytes, leb, bytes_leb, length, length-append, arith,
}
use record_storage.Common.BigEndian.{put_be, length-put_be, bytes_leb-put_be, bytes_leb-prefix}
use record_storage.Clock.{Time, unix_nano}

module _ (hash : Bytes → ℕ) where
  -- MakeBinaryKey: the version byte, the hash and the time
  unfoldable pub make_binary_key : Bytes → Time → Bytes
  make_binary_key camera_id t = 2 ∷ (put_be 8 (hash camera_id) ++ put_be 8 (unix_nano t))

  pub length-make_binary_key :
      (camera_id : Bytes) (t : Time) → length (make_binary_key camera_id t) ≡ 17
  unfolding make_binary_key
  length-make_binary_key camera_id t = ground (
    arith,
    length-append (put_be 8 (hash camera_id)) (put_be 8 (unix_nano t)),
    length-put_be 8 (hash camera_id),
    length-put_be 8 (unix_nano t),
  )

  -- For one camera, bbolt's order of the keys is the order of the times as unsigned 64-bit numbers.
  pub bytes_leb-make_binary_key :
      (camera_id : Bytes) (t u : Time)
      → bytes_leb (make_binary_key camera_id t) (make_binary_key camera_id u)
        ≡ leb (unix_nano t) (unix_nano u)
  unfolding make_binary_key
  bytes_leb-make_binary_key camera_id t u =
      bytes_leb-prefix (2 ∷ put_be 8 (hash camera_id)) (put_be 8 (unix_nano t))
        (put_be 8 (unix_nano u))
      ∙ bytes_leb-put_be 8 (unix_nano t) (unix_nano u) (omega arith) (omega arith)
