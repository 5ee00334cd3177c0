-- ===== src/Storage/Hybrid/Caches.antt =====
-- The entry and volume caches of internal/storage/seaweed_hybrid.go.
use record_storage.Common.{Option, none, some, List, Bytes, bytes_eq, if◌then◌else◌}
use record_storage.Clock.{after, add}
use record_storage.Storage.{VolumeLocation, EntryMeta}
use record_storage.Storage.Hybrid.State.{
  Clients, CacheEntry, Act, ◌>>=◌, pure, gets, modify, read_clock,
}

-- m[key] = value and delete(m, key)
abbrev pub put_key : {A : Type 0} → Bytes → A → (Bytes → Option A) → Bytes → Option A
put_key key value m k = if bytes_eq k key then some value else m k

abbrev pub delete_key : {A : Type 0} → Bytes → (Bytes → Option A) → Bytes → Option A
delete_key key m k = if bytes_eq k key then none else m k

module _ {W : Type 0} (c : Clients W) where
  -- A cached value, unless it has expired; the clock is read only if there is one.
  unfoldable pub fresh : {A : Type 0} → Option (CacheEntry A) → Act W (Option A)
  fresh none = pure none
  fresh (some entry) = do
    t ← read_clock c
    pure (if after t entry.expires_at then none else some entry.value)

  -- cachedEntry
  unfoldable pub cached_entry : Bytes → Act W (Option EntryMeta)
  cached_entry key = do entry ← gets (λ s. s.entry_cache key); fresh entry

  -- cachedVolume
  unfoldable pub cached_volume : Bytes → Act W (Option (List VolumeLocation))
  cached_volume volume_id = do entry ← gets (λ s. s.volume_cache volume_id); fresh entry

  -- setEntryCache
  unfoldable pub set_entry_cache : EntryMeta → Act W (Unit {0})
  set_entry_cache meta = do
    t ← read_clock c
    modify (λ s. record s {
      entry_cache =
          put_key meta.key (record { value = meta; expires_at = add t s.entry_ttl }) s.entry_cache;
    })

  -- setVolumeCache
  unfoldable pub set_volume_cache : Bytes → List VolumeLocation → Act W (Unit {0})
  set_volume_cache volume_id locations = do
    t ← read_clock c
    modify (λ s. record s {
      volume_cache =
          put_key volume_id (record { value = locations; expires_at = add t s.volume_ttl })
            s.volume_cache;
    })

  -- deleteVolumeCache
  unfoldable pub delete_volume_cache : Bytes → Act W (Unit {0})
  delete_volume_cache volume_id =
      modify (λ s. record s { volume_cache = delete_key volume_id s.volume_cache })
