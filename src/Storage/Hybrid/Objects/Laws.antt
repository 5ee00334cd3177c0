-- ===== src/Storage/Hybrid/Objects/Laws.antt =====
-- What the reading and writing of an object (internal/storage/seaweed_hybrid.go) relies on, and
-- how its steps compose.
use record_storage.Common.{
  ℕ, ◌+◌, ◌≤◌, ◌≡◌, refl, ap, false, Option, some, Bytes, bytes_eq_refl, length, Result, ok, err,
  ◌==◌, arith,
}
use record_storage.Storage.{StorageError, EntryMeta}
use record_storage.Storage.Hybrid.Retry
use record_storage.Storage.Hybrid.Retry.{retry_value}
use record_storage.Storage.Hybrid.Retry.Attempts.{OnOk}
use record_storage.Storage.Hybrid.State.{Clients, Hybrid, Act, continue, ◌>>=◌}
use record_storage.Storage.Hybrid.Caches.{put_key}
use record_storage.Storage.Hybrid.Breaker.{should_use_fallback, use_fallback}

-- What the clients promise. `Stored w url fid data` says that the volume server at `url` holds
-- `data` as the file `fid`: a successful put makes it so, the calls that register an entry, the
-- clock and the waits keep it, and a get then returns the data. The master names a volume.
pub record VolumeLaws {W : Type 0} (c : Clients W) : Type 1 where
  pub Stored : W → Bytes → Bytes → Bytes → Type 0
  pub put_stores :
      (url fid data_ token : Bytes) (w : W)
      → OnOk (λ u w'. Stored w' url fid data_) (c.volume_put url fid data_ token w)
  pub get_stored :
      (url fid data_ : Bytes) (w : W)
      → Stored w url fid data_
      → (c.volume_get url fid w).0 ≡ ok data_
  pub create_keeps :
      (meta : EntryMeta) (url fid data_ : Bytes) (w : W)
      → Stored w url fid data_
      → Stored (c.create_entry meta w).1 url fid data_
  pub now_keeps :
      (url fid data_ : Bytes) (w : W) → Stored w url fid data_ → Stored (c.now w).1 url fid data_
  pub wait_keeps :
      (d : ℕ) (url fid data_ : Bytes) (w : W)
      → Stored w url fid data_
      → Stored (c.wait d w).1 url fid data_
  pub assign_named : (w : W) → OnOk (λ a w'. (length a.volume_id == 0) ≡ false) (c.assign w)

-- Every reading of the clock is within `ttl` of `start`.
pub record ClockWithin {W : Type 0} (c : Clients W) (start ttl : ℕ) : Type 0 where
  pub from : (w : W) → start ≤ (c.now w).0.instant
  pub until : (w : W) → (c.now w).0.instant ≤ start + ttl

-- A condition on the state after success, which may name the result.
abbrev pub OnSuccess :
    {W A : Type 0} → (A → Hybrid W → Type 0) → Result StorageError A × Hybrid W → Type 0
OnSuccess Q (ok a, s) = Q a s
OnSuccess Q (err e, s) = Unit {0}

pub success-continue :
    {W A B : Type 0} (Q : A → Hybrid W → Type 0) (R : B → Hybrid W → Type 0) (f : A → Act W B)
    (r : Result StorageError A × Hybrid W)
    → OnSuccess Q r
    → ((a : A) (s : Hybrid W) → Q a s → OnSuccess R (f a s))
    → OnSuccess R (continue r.0 f r.1)
success-continue Q R f (ok a, s) q k = k a s q
success-continue Q R f (err e, s) q k = tt

-- A call that returns: the state behind it.
pub bind-ok :
    {W A B : Type 0} (m : Act W A) (f : A → Act W B) (s s' : Hybrid W) (a : A)
    → m s ≡ (ok a, s')
    → (m >>= f) s ≡ f a s'
bind-ok m f s s' a e = ap (λ r. continue r.0 f r.1) e

pub put_key-same :
    {A : Type 0} (key : Bytes) (a : A) (m : Bytes → Option A) → put_key key a m key ≡ some a
put_key-same key a m = rw (bytes_eq_refl key) refl

pub no_fallback :
    {W : Type 0} (c : Clients W) (s : Hybrid W)
    → s.degraded ≡ false
    → should_use_fallback c s ≡ (ok false, s)
unfolding should_use_fallback use_fallback
no_fallback c s e = ap (λ b. use_fallback c b s) e

after_try-first :
    {W A : Type 0} (wait : W → Option StorageError × W) (again : W → Result StorageError A × W)
    (a : A) (r : Result StorageError A × W)
    → r.0 ≡ ok a
    → (Retry.after_try wait again r).0 ≡ ok a
unfolding Retry.after_try
after_try-first wait again a (ok b, w) e = e
after_try-first wait again a (err x, w) e = absurd (ground arith)

pub first_try :
    {W A : Type 0} (wait : ℕ → W → Option StorageError × W) (fn : W → Result StorageError A × W)
    (a : A) (w : W)
    → (fn w).0 ≡ ok a
    → (retry_value wait fn w).0 ≡ ok a
unfolding Retry.retry_value Retry.retry_from
first_try wait fn a w e = after_try-first _ _ a (fn w) e
