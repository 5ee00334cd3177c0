-- ===== src/Storage/Hybrid/Compensation.antt =====
-- The compensation queue of internal/storage/seaweed_hybrid.go: entries whose registration at the
-- filer failed are registered later. The map of pending entries is shared by Put and the loop.
use record_storage.Common.{
  ℕ, zero, suc, ◌*◌, ◌^◌, Option, none, some, List, [], ◌∷◌, ◌++◌, Result, ok, err, length, ltb,
  if◌then◌else◌,
}
use record_storage.Clock.{millisecond}
use record_storage.Storage.{StorageError, EntryMeta}
use record_storage.Storage.Hybrid.State.{
  Clients, Hybrid, Act, ◌>>=◌, ◌>>◌, pure, modify, attempt, call,
}
use record_storage.Storage.Hybrid.Caches.{put_key, delete_key, set_entry_cache}

-- The channel holds 1024 entries; a `select` with a default drops the entry if it is full.
abbrev pub queue_capacity : ℕ
queue_capacity = 1024

-- enqueueCompensation
unfoldable pub enqueue_pending : {W : Type 0} → EntryMeta → Option EntryMeta → Hybrid W → Hybrid W
enqueue_pending meta (some waiting) s = s
enqueue_pending meta none s = record s {
  comp_pending = put_key meta.key meta s.comp_pending;
  comp_queue =
      if ltb (length s.comp_queue) queue_capacity
      then s.comp_queue ++ (meta ∷ [])
      else s.comp_queue;
}

unfoldable pub enqueue_compensation : {W : Type 0} → EntryMeta → Hybrid W → Hybrid W
enqueue_compensation meta s = enqueue_pending meta (s.comp_pending meta.key) s

module _ {W : Type 0} (c : Clients W) where
  -- time.Sleep, which no context cuts short
  sleep : ℕ → Act W (Unit {0})
  sleep d s = let (stopped, w) = c.wait d s.world in (ok tt, record s { world = w })

  -- The outcome of one attempt, with the attempts that follow it.
  unfoldable pub settle :
      EntryMeta → Act W (Unit {0}) → ℕ → Result StorageError (Unit {0}) → Act W (Unit {0})
  unfolding sleep
  settle meta again n (ok u) = do
    modify (λ s. record s { comp_pending = delete_key meta.key s.comp_pending })
    set_entry_cache c meta
  settle meta again n (err e) = do sleep (50 * 2 ^ n * millisecond); again

  -- retryCreateEntry from attempt number `n` on, with `left` attempts
  unfoldable pub retry_create_from : ℕ → ℕ → EntryMeta → Act W (Unit {0})
  retry_create_from zero n meta = pure tt
  retry_create_from (suc left) n meta = do
    made ← attempt (call (c.create_entry meta))
    settle meta (retry_create_from left (suc n) meta) n made

  -- retryCreateEntry
  unfoldable pub retry_create_entry : EntryMeta → Act W (Unit {0})
  retry_create_entry meta = retry_create_from 3 0 meta

  -- One turn of runCompensationLoop; it waits while the queue is empty.
  unfoldable pub take_compensation : List EntryMeta → Act W (Unit {0})
  take_compensation [] = pure tt
  take_compensation (meta ∷ rest) = do
    modify (λ s. record s { comp_queue = rest })
    retry_create_entry meta

  unfoldable pub compensate : Act W (Unit {0})
  compensate s = take_compensation s.comp_queue s
