-- ===== src/Storage/Hybrid/Objects/Lookup.antt =====
-- Get (internal/storage/seaweed_hybrid.go) of an object whose entry and location are cached.
use record_storage.Common.{
  ℕ, ◌≤◌, ◌≡◌, refl, ap, ◌∙◌, false, some, List, [], ◌∷◌, Bytes, length, Result, ok, ◌==◌, arith,
}
use record_storage.Clock.{Time, after}
use record_storage.Storage.{StorageError, VolumeLocation, EntryMeta}
use record_storage.Storage.Hybrid.State.{Clients, Hybrid, continue, retried}
use record_storage.Storage.Hybrid.Caches.{cached_entry, cached_volume, fresh}
use record_storage.Storage.Hybrid.Breaker.{should_use_fallback, use_fallback}
use record_storage.Storage.Hybrid.Objects.{
  get, read_object, resolve_entry_and_volume, get_entry, entry_or, get_volume_locations,
  locations_or, resolved, after_fetch,
}
use record_storage.Storage.Hybrid.Objects.Laws.{VolumeLaws, bind-ok, no_fallback, first_try}

module _ {W : Type 0} (c : Clients W) (laws : VolumeLaws c) where
  -- The caches lead from the key to the data.
  pub record Readable (limit : ℕ) (key data_ : Bytes) (s : Hybrid W) : Type 0 where
    pub meta : EntryMeta
    pub location : VolumeLocation
    pub entry_end : Time
    pub volume_end : Time
    pub healthy : s.degraded ≡ false
    pub entry : s.entry_cache key ≡ some (record { value = meta; expires_at = entry_end })
    pub volume :
        s.volume_cache meta.volume_id
        ≡ some (record { value = location ∷ []; expires_at = volume_end })
    pub named : (length meta.volume_id == 0) ≡ false
    pub entry_late : limit ≤ entry_end.instant
    pub volume_late : limit ≤ volume_end.instant
    pub stored : laws.Stored s.world location.url meta.file_id data_

  module _ (limit : ℕ) (in_time : (w : W) → (c.now w).0.instant ≤ limit) where
    fresh-hit :
        {A : Type 0} (value : A) (t : Time) (s : Hybrid W)
        → limit ≤ t.instant
        → fresh c (some (record { value = value; expires_at = t })) s
          ≡ (ok (some value), record s { world = (c.now s.world).1 })
    unfolding fresh
    fresh-hit value t s h =
        let on_time : after (c.now s.world).0 t ≡ false = ground (arith, in_time s.world) in
        rw on_time refl

    cached_entry-hit :
        (key : Bytes) (value : EntryMeta) (t : Time) (s : Hybrid W)
        → s.entry_cache key ≡ some (record { value = value; expires_at = t })
        → limit ≤ t.instant
        → cached_entry c key s ≡ (ok (some value), record s { world = (c.now s.world).1 })
    unfolding cached_entry
    cached_entry-hit key value t s e h = ap (λ o. fresh c o s) e ∙ fresh-hit value t s h

    cached_volume-hit :
        (id : Bytes) (value : List VolumeLocation) (t : Time) (s : Hybrid W)
        → s.volume_cache id ≡ some (record { value = value; expires_at = t })
        → limit ≤ t.instant
        → cached_volume c id s ≡ (ok (some value), record s { world = (c.now s.world).1 })
    unfolding cached_volume
    cached_volume-hit id value t s e h = ap (λ o. fresh c o s) e ∙ fresh-hit value t s h

    module _ (key data_ : Bytes) (s : Hybrid W) (r : Readable limit key data_ s) where
      abbrev s1 : Hybrid W
      s1 = record s { world = (c.now s.world).1 }

      abbrev s2 : Hybrid W
      s2 = record s { world = (c.now (c.now s.world).1).1 }

      get_entry-hit : get_entry c key s ≡ (ok r.meta, s1)
      unfolding get_entry entry_or
      get_entry-hit =
          bind-ok (cached_entry c key) (entry_or c key) s s1 (some r.meta)
            (cached_entry-hit key r.meta r.entry_end s r.entry r.entry_late)

      locations-hit : get_volume_locations c r.meta.volume_id s1 ≡ (ok (r.location ∷ []), s2)
      unfolding get_volume_locations locations_or
      locations-hit =
          bind-ok (cached_volume c r.meta.volume_id) (locations_or c r.meta.volume_id) s1 s2
            (some (r.location ∷ []))
            (cached_volume-hit r.meta.volume_id (r.location ∷ []) r.volume_end s1 r.volume
              r.volume_late)

      resolve-hit : resolve_entry_and_volume c key s ≡ (ok (r.meta, r.location), s2)
      unfolding resolve_entry_and_volume resolved
      resolve-hit =
          bind-ok (get_entry c key) _ s s1 r.meta get_entry-hit
          ∙ rw (r.named) (
              bind-ok (get_volume_locations c r.meta.volume_id) (resolved c r.meta) s1 s2
                (r.location ∷ []) locations-hit)

      abbrev fetch : EntryMeta → Bytes → W → Result StorageError Bytes × W
      fetch meta url = c.volume_get url meta.file_id

      fetch-hit :
          retried c (fetch r.meta r.location.url) s2
          ≡ (ok data_, (retried c (fetch r.meta r.location.url) s2).1)
      fetch-hit =
          ap (λ x. (x, (retried c (fetch r.meta r.location.url) s2).1))
            (first_try c.wait (fetch r.meta r.location.url) data_ (c.now (c.now s.world).1).1 (
              laws.get_stored r.location.url r.meta.file_id data_ _ (
                laws.now_keeps r.location.url r.meta.file_id data_ _
                  (laws.now_keeps r.location.url r.meta.file_id data_ _ r.stored))))

      read-hit : (read_object c fetch key s).0 ≡ ok data_
      unfolding read_object after_fetch
      read-hit =
          ap (λ (x : Result StorageError Bytes × Hybrid W). x.0)
            (bind-ok (resolve_entry_and_volume c key) _ s s2 (r.meta, r.location) resolve-hit
              ∙ ap
                  (λ (x : Result StorageError (Result StorageError Bytes) × Hybrid W).
                    continue x.0 (after_fetch c (fetch r.meta) r.meta) x.1)
                  (ap (λ (x : Result StorageError Bytes × Hybrid W). (ok x.0, x.1)) fetch-hit))

      pub get-hit : (get c key s).0 ≡ ok data_
      unfolding get should_use_fallback use_fallback
      get-hit =
          ap (λ (x : Result StorageError Bytes × Hybrid W). x.0)
            (bind-ok (should_use_fallback c) _ s s false (no_fallback c s r.healthy))
          ∙ read-hit
