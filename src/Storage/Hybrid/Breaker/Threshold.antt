-- ===== src/Storage/Hybrid/Breaker/Threshold.antt =====
-- When the circuit breaker of internal/storage/seaweed_hybrid.go opens.
use record_storage.Common.{
  suc, ◌+◌, ◌*◌, ◌≤◌, ◌≡◌, refl, sym, ap, ◌∙◌, ◌||◌, false, List, [], ◌∷◌, length, All, leb, arith,
}
use record_storage.Clock.{Time, is_zero, sub_gtb, second}
use record_storage.Storage.Hybrid.State.{Hybrid}
use record_storage.Storage.Hybrid.Breaker.{count_failure, clear_control_failures}

abbrev pub InWindow : Time → Time → Type 0
InWindow t0 t = t.instant ≤ t0.instant + 30 * second

module _ {W : Type 0} where
  -- Failures one after another, with no success between them.
  pub failures : List Time → Hybrid W → Hybrid W
  failures [] s = s
  failures (t ∷ ts) s = failures ts (count_failure t s)

  module _ (t0 t : Time) (s : Hybrid W) (z : is_zero t0 ≡ false) (w : s.window_start ≡ t0)
      (i : InWindow t0 t) where
    continues : (is_zero s.window_start || sub_gtb t s.window_start (30 * second)) ≡ false
    continues = rw w (ground arith)

    counted : (count_failure t s).failure_count ≡ s.failure_count + 1
    unfolding count_failure
    counted = rw continues refl

    same_window : (count_failure t s).window_start ≡ t0
    unfolding count_failure
    same_window = rw continues w

    opens :
        s.degraded ≡ leb 20 s.failure_count
        → (count_failure t s).degraded ≡ leb 20 (s.failure_count + 1)
    unfolding count_failure
    opens d = rw continues (rw d (ground arith))

  failures-InWindow :
      (t0 : Time) (ts : List Time) (s : Hybrid W)
      → is_zero t0 ≡ false
      → s.window_start ≡ t0
      → s.degraded ≡ leb 20 s.failure_count
      → All (InWindow t0) ts
      → (failures ts s).degraded ≡ leb 20 (s.failure_count + length ts)
  unfolding failures
  failures-InWindow t0 [] s z w d a = d ∙ ap (leb 20) (omega arith)
  failures-InWindow t0 (t ∷ ts) s z w d a =
      failures-InWindow t0 ts (count_failure t s) z (same_window t0 t s z w a.0)
        (opens t0 t s z w a.0 d ∙ ap (leb 20) (sym (counted t0 t s z w a.0))) a.1
      ∙ ap (λ n. leb 20 (n + length ts)) (counted t0 t s z w a.0)
      ∙ ap (leb 20) (omega arith)

  -- From a backend that is not failing, control plane failures within thirty seconds of the first
  -- one, with no success between them, open the circuit breaker at the twentieth and not before.
  pub failures-degraded :
      (t0 : Time) (ts : List Time) (s : Hybrid W)
      → is_zero t0 ≡ false
      → All (InWindow t0) ts
      → (failures (t0 ∷ ts) (clear_control_failures s)).degraded ≡ leb 20 (suc (length ts))
  unfolding failures count_failure clear_control_failures
  failures-degraded t0 ts s z a =
      failures-InWindow t0 ts (count_failure t0 (clear_control_failures s)) z refl refl a
      ∙ ap (leb 20) (omega arith)
