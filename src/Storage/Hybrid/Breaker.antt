-- ===== src/Storage/Hybrid/Breaker.antt =====
-- The circuit breaker of internal/storage/seaweed_hybrid.go: after twenty control plane failures
-- within thirty seconds the backend is degraded, and probes the control plane every five seconds.
pub mod Threshold
use record_storage.Common.{
  ℕ, ◌+◌, ◌*◌, Bool, true, false, ◌||◌, Bytes, Result, ok, err, leb, if◌then◌else◌,
}
use record_storage.Clock.{Time, zero_time, is_zero, before, add, sub_gtb, second}
use record_storage.Storage.Hybrid.State.{
  Clients, Hybrid, Act, ◌>>=◌, ◌>>◌, pure, gets, modify, attempt, call, read_clock,
}

-- recordControlFailure at time `t`
unfoldable pub count_failure : {W : Type 0} → Time → Hybrid W → Hybrid W
count_failure t s =
    let restart = is_zero s.window_start || sub_gtb t s.window_start (30 * second) in
    let count = if restart then 1 else s.failure_count + 1 in
    record s {
      window_start = if restart then t else s.window_start;
      failure_count = count;
      degraded = if leb 20 count then true else s.degraded;
      next_probe = if leb 20 count then add t (5 * second) else s.next_probe;
    }

-- clearControlFailures
unfoldable pub clear_control_failures : {W : Type 0} → Hybrid W → Hybrid W
clear_control_failures s = record s {
  failure_count = 0;
  window_start = zero_time;
  degraded = false;
  next_probe = zero_time;
}

module _ {W : Type 0} (c : Clients W) where
  -- recordControlFailure
  unfoldable pub record_control_failure : Act W (Unit {0})
  record_control_failure = do t ← read_clock c; modify (count_failure t)

  -- probeControlPlane
  unfoldable pub probe_control_plane : Act W (Unit {0})
  probe_control_plane = do call c.ping_master; call c.ping_filer

  -- What a probe decides: the answer of shouldUseFallback.
  unfoldable pub probed : {E : Type 0} → Result E (Unit {0}) → Act W Bool
  probed (err e) = do
    t ← read_clock c
    modify (λ s. record s { degraded = true; next_probe = add t (5 * second) })
    pure true
  probed (ok u) = do modify clear_control_failures; pure false

  unfoldable pub before_probe : Bool → Act W Bool
  before_probe true = pure true
  before_probe false = do r ← attempt probe_control_plane; probed r

  unfoldable pub use_fallback : Bool → Act W Bool
  use_fallback false = pure false
  use_fallback true = do
    next_probe ← gets (λ s. s.next_probe)
    t ← read_clock c
    before_probe (before t next_probe)

  -- shouldUseFallback
  unfoldable pub should_use_fallback : Act W Bool
  should_use_fallback = do degraded ← gets (λ s. s.degraded); use_fallback degraded
