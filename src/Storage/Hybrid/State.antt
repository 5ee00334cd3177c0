-- ===== src/Storage/Hybrid/State.antt =====
-- SeaweedHybridStorage of internal/storage/seaweed_hybrid.go and the interfaces of its clients in
-- internal/storage/interface.go; the actions of the backend, which keep what they changed when they
-- fail.
use record_storage.Common.{ℕ, Bool, false, Option, none, List, [], Bytes, Result, ok, err}
use record_storage.Clock.{Time, zero_time}
use record_storage.Storage.{StorageError, AssignResult, VolumeLocation, EntryMeta}
use record_storage.Storage.Hybrid.Retry.{retry_value}

-- A call of the outside world.
abbrev pub Call : Type 0 → Type 0 → Type 0
Call W A = W → Result StorageError A × W

-- MasterClient, FilerClient, VolumeClient, the methods of the fallback, time.Now, a wait that the
-- context may cut short, and the text of an MD5 sum. `result[volumeID]` is no location for an id
-- that a lookup does not find.
pub record Clients (W : Type 0) : Type 0 where
  pub assign : Call W AssignResult
  pub lookup_volume : Bytes → Call W (Bytes → List VolumeLocation)
  pub ping_master : Call W (Unit {0})
  pub create_entry : EntryMeta → Call W (Unit {0})
  pub lookup_entry : Bytes → Call W EntryMeta
  pub delete_entry : Bytes → Call W (Unit {0})
  pub list_entries : Bytes → ℕ → Call W (List EntryMeta × Bool)
  pub ping_filer : Call W (Unit {0})
  pub volume_put : Bytes → Bytes → Bytes → Bytes → Call W (Unit {0})
  pub volume_get : Bytes → Bytes → Call W Bytes
  pub volume_get_range : Bytes → Bytes → ℕ → ℕ → Call W Bytes
  pub fallback_put : Bytes → Bytes → Call W (Unit {0})
  pub fallback_get : Bytes → Call W Bytes
  pub fallback_get_range : Bytes → ℕ → ℕ → Call W Bytes
  pub fallback_delete : Bytes → Call W (Unit {0})
  pub fallback_list : Bytes → Call W (List Bytes)
  pub now : W → Time × W
  pub wait : ℕ → W → Option StorageError × W
  pub md5_text : Bytes → Bytes

pub record CacheEntry (A : Type 0) : Type 0 where
  pub value : A
  pub expires_at : Time

-- The maps are functions of the key.
pub record Hybrid (W : Type 0) : Type 0 where
  pub entry_ttl : ℕ
  pub volume_ttl : ℕ
  pub entry_cache : Bytes → Option (CacheEntry EntryMeta)
  pub volume_cache : Bytes → Option (CacheEntry (List VolumeLocation))
  pub comp_pending : Bytes → Option EntryMeta
  pub comp_queue : List EntryMeta
  pub failure_count : ℕ
  pub window_start : Time
  pub degraded : Bool
  pub next_probe : Time
  pub world : W

-- newSeaweedHybridStorageWithClients, with the two lifetimes as durations
unfoldable pub new_hybrid : {W : Type 0} → ℕ → ℕ → W → Hybrid W
new_hybrid entry_ttl volume_ttl w = record {
  entry_ttl = entry_ttl;
  volume_ttl = volume_ttl;
  entry_cache = λ key. none;
  volume_cache = λ id. none;
  comp_pending = λ key. none;
  comp_queue = [];
  failure_count = 0;
  window_start = zero_time;
  degraded = false;
  next_probe = zero_time;
  world = w;
}

abbrev pub Act : Type 0 → Type 0 → Type 0
Act W A = Hybrid W → Result StorageError A × Hybrid W

module _ {W : Type 0} where
  abbrev pub continue : {A B : Type 0} → Result StorageError A → (A → Act W B) → Act W B
  continue (ok a) f s = f a s
  continue (err e) f s = (err e, s)

  infixl 5 ◌>>=◌ ◌>>◌
  abbrev pub ◌>>=◌ : {A B : Type 0} → Act W A → (A → Act W B) → Act W B
  ◌>>=◌ m f s = let (r, s') = m s in continue r f s'

  abbrev pub ◌>>◌ : {A B : Type 0} → Act W A → Act W B → Act W B
  m >> n = m >>= λ _. n

  abbrev pub pure : {A : Type 0} → A → Act W A
  pure a s = (ok a, s)

  abbrev pub fail : {A : Type 0} → StorageError → Act W A
  fail e s = (err e, s)

  abbrev pub gets : {A : Type 0} → (Hybrid W → A) → Act W A
  gets f s = (ok (f s), s)

  abbrev pub modify : (Hybrid W → Hybrid W) → Act W (Unit {0})
  modify f s = (ok tt, f s)

  abbrev pub attempt : {A : Type 0} → Act W A → Act W (Result StorageError A)
  attempt m s = let (r, s') = m s in (ok r, s')

  abbrev pub call : {A : Type 0} → Call W A → Act W A
  call f s = let (r, w) = f s.world in (r, record s { world = w })

  module _ (c : Clients W) where
    -- time.Now()
    abbrev pub read_clock : Act W Time
    read_clock s = let (t, w) = c.now s.world in (ok t, record s { world = w })

    -- A call with retryValue, retryDo or retryValue3 around it.
    abbrev pub retried : {A : Type 0} → Call W A → Act W A
    retried f = call (retry_value c.wait f)
