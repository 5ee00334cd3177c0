-- ===== src/Storage/Hybrid/Objects/ReadBack.antt =====
-- What Put (internal/storage/seaweed_hybrid.go) leaves for Get: the entry and the location that it
-- caches lead to the data on the volume server.
use record_storage.Common.{
  ℕ, ◌+◌, ◌≤◌, ◌≡◌, refl, sym, false, [], Bytes, length, Result, ok, err, ◌==◌, arith,
}
use record_storage.Clock.{add}
use record_storage.Storage.{StorageError, AssignResult, EntryMeta}
use mathlib.Core.Path.{subst}
use record_storage.Storage.Hybrid.Retry.{retry_value}
use record_storage.Storage.Hybrid.Retry.Attempts.{retry_value-keeps, retry_value-OnOk, OnOk}
use record_storage.Storage.Hybrid.State.{Clients, Hybrid, retried}
use record_storage.Storage.Hybrid.Caches.{set_entry_cache, set_volume_cache}
use record_storage.Storage.Hybrid.Breaker.{
  record_control_failure, should_use_fallback, clear_control_failures,
}
use record_storage.Storage.Hybrid.Objects.{
  put, put_primary, put_assigned, registered, try_fallback_put, fallback_answer, meta_for, get,
}
use record_storage.Storage.Hybrid.Objects.Laws.{
  VolumeLaws, ClockWithin, OnSuccess, success-continue, bind-ok, no_fallback, put_key-same,
}
use record_storage.Storage.Hybrid.Objects.Lookup.{Readable, get-hit}

module _ {W : Type 0} (c : Clients W) (laws : VolumeLaws c) where
  -- Put on a healthy backend, step by step.
  module _ (start ttl : ℕ) (clock : ClockWithin c start ttl) (key data_ : Bytes) where
    -- The file of `a` is on the volume server.
    record Kept (a : AssignResult) (s : Hybrid W) : Type 0 where
      ttl_of_entry : ttl ≤ s.entry_ttl
      ttl_of_volume : ttl ≤ s.volume_ttl
      kept : laws.Stored s.world a.volume_url a.fid data_

    late : (n d : ℕ) → start ≤ n → ttl ≤ d → start + ttl ≤ n + d
    late n d h e = omega (arith, h, e)

    registered-Readable :
        (a : AssignResult) (t : ℕ) (s : Hybrid W) (made : Result StorageError (Unit {0}))
        → (length a.volume_id == 0) ≡ false
        → Kept a s
        → OnSuccess
            (λ u. Readable c laws (start + ttl) key data_)
            (registered c (meta_for c key data_ a t) a made s)
    unfolding registered meta_for clear_control_failures set_entry_cache set_volume_cache
        record_control_failure
    registered-Readable a t s (err e) n k = tt
    registered-Readable a t s (ok u) n k = record {
      meta = meta_for c key data_ a t;
      location = record { url = a.volume_url; public_url = []; auth_token = a.auth_token };
      entry_end = add (c.now s.world).0 s.entry_ttl;
      volume_end = add (c.now (c.now s.world).1).0 s.volume_ttl;
      healthy = refl;
      entry = put_key-same key _ s.entry_cache;
      volume = put_key-same a.volume_id _ s.volume_cache;
      named = n;
      entry_late = late _ s.entry_ttl (clock.from s.world) k.ttl_of_entry;
      volume_late = late _ s.volume_ttl (clock.from (c.now s.world).1) k.ttl_of_volume;
      stored =
          laws.now_keeps a.volume_url a.fid data_ _
            (laws.now_keeps a.volume_url a.fid data_ s.world k.kept);
    }

    call-Kept :
        (a : AssignResult) (s : Hybrid W) (r : Result StorageError (Unit {0}) × W)
        → ttl ≤ s.entry_ttl
        → ttl ≤ s.volume_ttl
        → OnOk (λ u w. laws.Stored w a.volume_url a.fid data_) r
        → OnSuccess (λ u. Kept a) (r.0, record s { world = r.1 })
    call-Kept a s (ok u, w) e v h = record { ttl_of_entry = e; ttl_of_volume = v; kept = h }
    call-Kept a s (err x, w) e v h = tt

    Kept-on :
        (s : Hybrid W) (a : AssignResult)
        → Kept a s
        → (meta : EntryMeta)
        → Kept a
            (record s { world = (retry_value c.wait (c.create_entry meta) (c.now s.world).1).1 })
    Kept-on s a k meta = record {
      ttl_of_entry = k.ttl_of_entry;
      ttl_of_volume = k.ttl_of_volume;
      kept =
          retry_value-keeps (λ w. laws.Stored w a.volume_url a.fid data_) c.wait
            (c.create_entry meta) (λ d w. laws.wait_keeps d a.volume_url a.fid data_ w)
            (laws.create_keeps meta a.volume_url a.fid data_) _
            (laws.now_keeps a.volume_url a.fid data_ s.world k.kept);
    }

    put_assigned-Readable :
        (s : Hybrid W) (a : AssignResult)
        → ttl ≤ s.entry_ttl
        → ttl ≤ s.volume_ttl
        → (length a.volume_id == 0) ≡ false
        → OnSuccess
            (λ u. Readable c laws (start + ttl) key data_)
            (put_assigned c key data_ (ok a) s)
    unfolding put_assigned
    put_assigned-Readable s a e v n =
        success-continue (λ u. Kept a) _ _
          (retried c (c.volume_put a.volume_url a.fid data_ a.auth_token) s)
          (call-Kept a s _ e v (
            retry_value-OnOk (λ u w. laws.Stored w a.volume_url a.fid data_) c.wait _
              (laws.put_stores a.volume_url a.fid data_ a.auth_token) s.world))
          (λ u s' k. registered-Readable a _ _ _ n (Kept-on s' a k _))

    -- An assignment that failed: the fallback's answer is an error, also when it stores the object.
    fallback_answer-fails :
        (r : Result StorageError (Unit {0})) (s : Hybrid W) (Q : Unit {0} → Hybrid W → Type 0)
        → OnSuccess Q (fallback_answer c r s)
    unfolding fallback_answer
    fallback_answer-fails (ok u) s Q = tt
    fallback_answer-fails (err e) s Q = tt

    put_from-Readable :
        (s : Hybrid W) (r : Result StorageError AssignResult × W)
        → ttl ≤ s.entry_ttl
        → ttl ≤ s.volume_ttl
        → OnOk (λ a w. (length a.volume_id == 0) ≡ false) r
        → OnSuccess
            (λ u. Readable c laws (start + ttl) key data_)
            (put_assigned c key data_ r.0 (record s { world = r.1 }))
    unfolding put_assigned try_fallback_put record_control_failure
    put_from-Readable s (ok a, w) e v n = put_assigned-Readable (record s { world = w }) a e v n
    put_from-Readable s (err x, w) e v n = fallback_answer-fails _ _ _

    put_primary-Readable :
        (s : Hybrid W)
        → ttl ≤ s.entry_ttl
        → ttl ≤ s.volume_ttl
        → OnSuccess (λ u. Readable c laws (start + ttl) key data_) (put_primary c key data_ s)
    unfolding put_primary
    put_primary-Readable s e v = put_from-Readable s (retry_value c.wait c.assign s.world) e v (
        retry_value-OnOk (λ a w. (length a.volume_id == 0) ≡ false) c.wait c.assign
          laws.assign_named s.world)

    put-healthy :
        (s : Hybrid W) → s.degraded ≡ false → put c key data_ s ≡ put_primary c key data_ s
    unfolding put
    put-healthy s d = bind-ok (should_use_fallback c) _ s s false (no_fallback c s d)

    get_after :
        (r : Result StorageError (Unit {0}) × Hybrid W)
        → OnSuccess (λ u. Readable c laws (start + ttl) key data_) r
        → r.0 ≡ ok tt
        → (get c key r.1).0 ≡ ok data_
    get_after (ok u, s) h e = get-hit c laws (start + ttl) clock.until key data_ s h
    get_after (err x, s) h e = absurd (ground arith)

    -- What a successful Put on a backend that is not degraded stores is what Get gives back, where
    -- the clock, over the two calls, runs for no longer than the time to live of an entry and that of
    -- a location, whichever is the shorter: Get finds both in the caches and reads the file that Put
    -- wrote, given that a volume server keeps what it stored and that the master names the volume it
    -- assigns.
    pub put-get :
        (s : Hybrid W)
        → s.degraded ≡ false
        → ttl ≤ s.entry_ttl
        → ttl ≤ s.volume_ttl
        → (put c key data_ s).0 ≡ ok tt
        → (get c key (put c key data_ s).1).0 ≡ ok data_
    put-get s d e v h =
        get_after (put c key data_ s)
          (subst (OnSuccess (λ u. Readable c laws (start + ttl) key data_)) (sym (put-healthy s d))
            (put_primary-Readable s e v))
          h
