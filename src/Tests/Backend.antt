-- ===== src/Tests/Backend.antt =====
-- internal/storage/seaweed_hybrid.go at concrete inputs, with clients that work on one file.
use record_storage.Common.{
  ◌≡◌, ◌≤◌, ◌+◌, ◌*◌, refl, ap, false, none, some, Option, [], ◌∷◌, arith, Bytes, codes, leb,
  length, suc, Result, ok, err,
}
use record_storage.Clock.{second}
use record_storage.Storage.{StorageError, not_found}
use record_storage.Storage.Hybrid.Retry
use record_storage.Storage.Hybrid.Retry.Attempts.{counted, uncounted, retry_value-calls}
use record_storage.Storage.Hybrid.State.{Clients, Hybrid, new_hybrid}
use record_storage.Storage.Hybrid.Breaker.{
  should_use_fallback, use_fallback, clear_control_failures,
}
use record_storage.Storage.Hybrid.Breaker.Threshold.{failures, failures-degraded}
use record_storage.Storage.Hybrid.Objects.{put, get, put_primary, put_assigned, registered}
use record_storage.Storage.Hybrid.Caches.{set_entry_cache, set_volume_cache}
use record_storage.Storage.Hybrid.Objects.Laws.{VolumeLaws, ClockWithin}
use record_storage.Storage.Hybrid.Objects.ReadBack.{put-get}
use record_storage.Tests.Data.{at_second}

-- The world is the content of one file, if there is one.
abbrev World : Type 0
World = Option Bytes

abbrev read : World → Result StorageError Bytes × World
read none = (err not_found, none)
read (some bytes) = (ok bytes, some bytes)

abbrev clients : Clients World
clients = record {
  assign = λ w. (
    ok (record {
      fid = codes "3,01";
      volume_id = codes "3";
      volume_url = codes "v";
      auth_token = [];
    }),
    w,
  );
  lookup_volume = λ id w. (ok (λ v. []), w);
  ping_master = λ w. (ok tt, w);
  create_entry = λ meta w. (ok tt, w);
  lookup_entry = λ key w. (err not_found, w);
  delete_entry = λ key w. (ok tt, w);
  list_entries = λ prefix n w. (ok ([], false), w);
  ping_filer = λ w. (ok tt, w);
  volume_put = λ url fid bytes token w. (ok tt, some bytes);
  volume_get = λ url fid w. read w;
  volume_get_range = λ url fid offset n w. read w;
  fallback_put = λ key bytes w. (ok tt, w);
  fallback_get = λ key w. read w;
  fallback_get_range = λ key offset n w. read w;
  fallback_delete = λ key w. (ok tt, w);
  fallback_list = λ prefix w. (ok [], w);
  now = λ w. (at_second 100, w);
  wait = λ d w. (none, w);
  md5_text = λ bytes. [];
}

retry_value-calls_example :
    (5 + 1 ≤ (Retry.retry_value (uncounted clients.wait) (counted read) (5, none)).1.0)
    × ((Retry.retry_value (uncounted clients.wait) (counted read) (5, none)).1.0 ≤ 5 + 3)
retry_value-calls_example = retry_value-calls clients.wait read 5 none

abbrev node : Hybrid World
node = new_hybrid (120 * second) (300 * second) none

failures-degraded_example :
    (failures (at_second 1 ∷ at_second 2 ∷ []) (clear_control_failures node)).degraded
    ≡ leb 20 (suc (length (at_second 2 ∷ [])))
failures-degraded_example =
    failures-degraded (at_second 1) (at_second 2 ∷ []) node refl (omega arith, tt)

laws : VolumeLaws clients
laws = record {
  Stored = λ w url fid bytes. w ≡ some bytes;
  put_stores = λ url fid bytes token w. refl;
  get_stored = λ url fid bytes w e. ap (λ (x : World). (read x).0) e;
  create_keeps = λ meta url fid bytes w e. e;
  now_keeps = λ url fid bytes w e. e;
  wait_keeps = λ d url fid bytes w e. e;
  assign_named = λ w. refl;
}

clock : ClockWithin clients (at_second 100).instant (120 * second)
clock = record { from = λ w. omega arith; until = λ w. omega arith }

stored : (put clients (codes "k") (1 ∷ 2 ∷ []) node).0 ≡ ok tt
unfolding put new_hybrid should_use_fallback use_fallback put_primary put_assigned Retry.retry_value
    Retry.retry_from registered set_entry_cache set_volume_cache
stored = refl

put-get_example :
    (get clients (codes "k") (put clients (codes "k") (1 ∷ 2 ∷ []) node).1).0 ≡ ok (1 ∷ 2 ∷ [])
unfolding new_hybrid
put-get_example =
    put-get clients laws (at_second 100).instant (120 * second) clock (codes "k") (1 ∷ 2 ∷ []) node
      refl (omega arith) (omega arith) stored
