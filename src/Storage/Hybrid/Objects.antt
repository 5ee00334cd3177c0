-- ===== src/Storage/Hybrid/Objects.antt =====
-- Put, Get, GetRange, Delete and List of internal/storage/seaweed_hybrid.go.
pub mod Laws
pub mod Lookup
pub mod ReadBack
use record_storage.Common.{
  ℕ, Bool, true, false, ◌||◌, Option, none, some, List, [], ◌∷◌, map, Bytes, codes, bytes_eq,
  length, drop, ◌-◌, Result, ok, err, if◌then◌else◌, ◌==◌,
}
use record_storage.Clock.{unix_nano}
use record_storage.Storage.{
  StorageError, not_found, entry_pending_compensation, storage_degraded, volume_route_not_found,
  both_failed, AssignResult, VolumeLocation, EntryMeta,
}
use record_storage.Storage.Hybrid.State.{
  Clients, Hybrid, Call, Act, ◌>>=◌, ◌>>◌, pure, fail, modify, attempt, call, read_clock, retried,
}
use record_storage.Storage.Hybrid.Caches.{
  delete_key, cached_entry, cached_volume, set_entry_cache, set_volume_cache, delete_volume_cache,
}
use record_storage.Storage.Hybrid.Breaker.{
  record_control_failure, clear_control_failures, should_use_fallback,
}
use record_storage.Storage.Hybrid.Compensation.{enqueue_compensation}

-- strings.HasSuffix
ends_with : Bytes → Bytes → Bool
ends_with suffix text = bytes_eq (drop (length text - length suffix) text) suffix

-- detectMimeType
unfoldable pub detect_mime_type : Bytes → Bytes
unfolding ends_with
detect_mime_type key =
    if ends_with (codes ".mp4init") key || ends_with (codes ".frag") key
    then codes "video/mp4"
    else codes "application/octet-stream"

-- parseVolumeID of internal/storage/grpc_master_client.go: the part of a file id before a comma
unfoldable pub parse_volume_id : Bytes → Bytes
parse_volume_id [] = []
parse_volume_id (b ∷ bs) = let rest = parse_volume_id bs in if b == b',' then [] else b ∷ rest

-- errors.Is(err, ErrNotFound)
unfoldable pub is_not_found : StorageError → Bool
is_not_found not_found = true
is_not_found (both_failed e) = is_not_found e
is_not_found e = false

module _ {W : Type 0} (c : Clients W) where
  -- tryFallbackPut
  unfoldable pub fallback_answer : Result StorageError (Unit {0}) → Act W (Unit {0})
  fallback_answer (ok u) = fail storage_degraded
  fallback_answer (err e) = fail (both_failed e)

  unfoldable pub try_fallback_put : Bytes → Bytes → Act W (Unit {0})
  try_fallback_put key data_ = do r ← attempt (call (c.fallback_put key data_)); fallback_answer r

  unfoldable pub meta_for : Bytes → Bytes → AssignResult → ℕ → EntryMeta
  meta_for key data_ assign now = record {
    key = key;
    file_id = assign.fid;
    volume_id = assign.volume_id;
    size = length data_;
    mime_type = detect_mime_type key;
    created_at = now;
    modified_at = now;
    etag = c.md5_text data_;
  }

  -- The end of Put: what registering the entry gave.
  unfoldable pub registered :
      EntryMeta → AssignResult → Result StorageError (Unit {0}) → Act W (Unit {0})
  registered meta assign (err e) = do
    record_control_failure c
    modify (enqueue_compensation meta)
    fail entry_pending_compensation
  registered meta assign (ok u) = do
    modify clear_control_failures
    set_entry_cache c meta
    set_volume_cache c assign.volume_id
        (record { url = assign.volume_url; public_url = []; auth_token = assign.auth_token } ∷ [])

  unfoldable pub put_assigned : Bytes → Bytes → Result StorageError AssignResult → Act W (Unit {0})
  put_assigned key data_ (err e) = do record_control_failure c; try_fallback_put key data_
  put_assigned key data_ (ok assign) = do
    retried c (c.volume_put assign.volume_url assign.fid data_ assign.auth_token)
    t ← read_clock c
    let meta = meta_for key data_ assign (unix_nano t)
    made ← attempt (retried c (c.create_entry meta))
    registered meta assign made

  unfoldable pub put_primary : Bytes → Bytes → Act W (Unit {0})
  put_primary key data_ = do assign ← attempt (retried c c.assign); put_assigned key data_ assign

  -- Put
  unfoldable pub put : Bytes → Bytes → Act W (Unit {0})
  put key data_ = do
    fallback ← should_use_fallback c
    if fallback then call (c.fallback_put key data_) else put_primary key data_

  unfoldable pub entry_or : Bytes → Option EntryMeta → Act W EntryMeta
  entry_or key (some meta) = pure meta
  entry_or key none = do meta ← retried c (c.lookup_entry key); set_entry_cache c meta; pure meta

  -- getEntry
  unfoldable pub get_entry : Bytes → Act W EntryMeta
  get_entry key = do cached ← cached_entry c key; entry_or key cached

  -- getVolumeLocationsFresh
  unfoldable pub get_volume_locations_fresh : Bytes → Act W (List VolumeLocation)
  get_volume_locations_fresh volume_id = do
    result ← retried c (c.lookup_volume volume_id)
    set_volume_cache c volume_id (result volume_id)
    pure (result volume_id)

  unfoldable pub locations_or : Bytes → Option (List VolumeLocation) → Act W (List VolumeLocation)
  locations_or volume_id (some locations) = pure locations
  locations_or volume_id none = get_volume_locations_fresh volume_id

  -- getVolumeLocations
  unfoldable pub get_volume_locations : Bytes → Act W (List VolumeLocation)
  get_volume_locations volume_id = do
    cached ← cached_volume c volume_id
    locations_or volume_id cached

  -- The first location, for which `len(locations) == 0` has been tested.
  unfoldable pub resolved : EntryMeta → List VolumeLocation → Act W (EntryMeta × VolumeLocation)
  resolved meta [] = fail volume_route_not_found
  resolved meta (location ∷ rest) = pure (meta, location)

  -- resolveEntryAndVolume
  unfoldable pub resolve_entry_and_volume : Bytes → Act W (EntryMeta × VolumeLocation)
  resolve_entry_and_volume key = do
    meta ← get_entry key
    locations ←
        get_volume_locations
          (if length meta.volume_id == 0 then parse_volume_id meta.file_id else meta.volume_id)
    resolved meta locations

  -- `fetch` is the volume server's Get or GetRange of the file. After a lookup with no location the
  -- error of the lookup, which is nil, has replaced the one of the volume server.
  unfoldable pub refetch : (Bytes → Call W Bytes) → List VolumeLocation → Act W Bytes
  refetch fetch [] = pure []
  refetch fetch (location ∷ rest) = call (fetch location.url)

  unfoldable pub after_fetch :
      (Bytes → Call W Bytes) → EntryMeta → Result StorageError Bytes → Act W Bytes
  after_fetch fetch meta (ok bytes) = pure bytes
  after_fetch fetch meta (err e) =
      if is_not_found e
      then (do
        delete_volume_cache c meta.volume_id
        locations ← get_volume_locations_fresh meta.volume_id
        refetch fetch locations)
      else fail e

  unfoldable pub read_object : (EntryMeta → Bytes → Call W Bytes) → Bytes → Act W Bytes
  read_object fetch key = do
    at ← resolve_entry_and_volume key
    got ← attempt (retried c (fetch at.0 at.1.url))
    after_fetch (fetch at.0) at.0 got

  -- Get
  unfoldable pub get : Bytes → Act W Bytes
  get key = do
    fallback ← should_use_fallback c
    if fallback
        then call (c.fallback_get key)
        else read_object (λ meta url. c.volume_get url meta.file_id) key

  -- GetRange
  unfoldable pub get_range : Bytes → ℕ → ℕ → Act W Bytes
  get_range key offset n = do
    fallback ← should_use_fallback c
    if fallback
        then call (c.fallback_get_range key offset n)
        else read_object (λ meta url. c.volume_get_range url meta.file_id offset n) key

  unfoldable pub deleted : Bytes → Result StorageError (Unit {0}) → Act W (Unit {0})
  deleted key (err e) = do record_control_failure c; call (c.fallback_delete key)
  deleted key (ok u) =
      modify (λ s. clear_control_failures (record s { entry_cache = delete_key key s.entry_cache }))

  -- Delete
  unfoldable pub delete : Bytes → Act W (Unit {0})
  delete key = do
    fallback ← should_use_fallback c
    if fallback
        then call (c.fallback_delete key)
        else (do gone ← attempt (retried c (c.delete_entry key)); deleted key gone)

  unfoldable pub listed : Bytes → Result StorageError (List EntryMeta × Bool) → Act W (List Bytes)
  listed prefix (err e) = do record_control_failure c; call (c.fallback_list prefix)
  listed prefix (ok found) = pure (map (λ m. m.key) found.0)

  -- List, which drops the flag that there is more
  unfoldable pub list : Bytes → Act W (List Bytes)
  list prefix = do
    fallback ← should_use_fallback c
    if fallback
        then call (c.fallback_list prefix)
        else (do found ← attempt (retried c (c.list_entries prefix 1000)); listed prefix found)
