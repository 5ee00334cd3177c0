-- ===== src/Storage/Hybrid/Retry.antt =====
-- retryValue, retryDo and retryValue3 of internal/storage/seaweed_hybrid.go, for the three attempts
-- that every caller asks for.
pub mod Attempts
use record_storage.Common.{
  ℕ, zero, suc, ◌*◌, ◌^◌, Bool, true, false, Option, none, some, Result, ok, err, leb,
  if◌then◌else◌,
}
use record_storage.Clock.{millisecond, second}
use record_storage.Storage.{
  StorageError, not_found, invalid_fid, entry_pending_compensation, storage_degraded,
  volume_route_not_found, canceled, other_error, both_failed,
}

-- isRetryableError of an error that is not nil
unfoldable pub is_retryable_error : StorageError → Bool
is_retryable_error not_found = false
is_retryable_error invalid_fid = false
is_retryable_error canceled = false
is_retryable_error (both_failed e) = is_retryable_error e
is_retryable_error e = true

-- seaweedRetryBase << attempt, at most seaweedRetryMax
unfoldable pub backoff : ℕ → ℕ
backoff attempt =
    let wait = 50 * millisecond * 2 ^ attempt in if leb wait second then wait else second

module _ {W A : Type 0} where
  -- `select`: the context may be done before the wait ends.
  unfoldable pub after_wait :
      (W → Result StorageError A × W) → Option StorageError × W → Result StorageError A × W
  after_wait again (some stopped, w) = (err stopped, w)
  after_wait again (none, w) = again w

  unfoldable pub after_try :
      (W → Option StorageError × W)
      → (W → Result StorageError A × W)
      → Result StorageError A × W
      → Result StorageError A × W
  after_try wait again (ok a, w) = (ok a, w)
  after_try wait again (err e, w) =
      if is_retryable_error e then after_wait again (wait w) else (err e, w)

  module _ (wait : ℕ → W → Option StorageError × W) (fn : W → Result StorageError A × W) where
    -- `left` attempts follow the one at hand.
    unfoldable pub retry_from : ℕ → ℕ → W → Result StorageError A × W
    unfolding after_try
    retry_from zero attempt w = fn w
    retry_from (suc left) attempt w =
        after_try (wait (backoff attempt)) (retry_from left (suc attempt)) (fn w)

    -- retryValue with seaweedRetryAttempts
    unfoldable pub retry_value : W → Result StorageError A × W
    retry_value = retry_from 2 0
