-- ===== src/Fmp4/Durations/Bounds.antt =====
-- Every sample gets one duration, which is a positive uint32 (internal/recorder/fmp4_builder.go).
use record_storage.Common.{ℕ, suc, ◌-◌, ◌≤◌, ◌<◌, ◌≡◌, refl, ap, List, [], ◌∷◌, length, All, arith}
use record_storage.Common.Words.{u32_mod}
use record_storage.Sample.{Sample}
use record_storage.Fmp4.Durations.{
  ticks, between, nonzero, durations_from, compute_sample_durations,
}

abbrev pub IsDuration : ℕ → Type 0
IsDuration d = (1 ≤ d) × (d < u32_mod)

ticks-lt : (delta : ℕ) → ticks delta < u32_mod
unfolding ticks
ticks-lt delta = omega arith

between-IsDuration : (s s' : Sample) → IsDuration (nonzero (between s.timestamp s'.timestamp))
unfolding nonzero between
between-IsDuration s s' = ground (arith, ticks-lt (s'.timestamp.instant - s.timestamp.instant))

abbrev Fits : List Sample → List ℕ → Type 0
Fits ss ds = (length ds ≡ length ss) × All IsDuration ds

durations_from-Fits :
    (prev : ℕ) (ss : List Sample) → IsDuration prev → Fits ss (durations_from prev ss)
unfolding durations_from
durations_from-Fits prev [] h = (refl, tt)
durations_from-Fits prev (s ∷ []) h = unfold nonzero in ground arith
durations_from-Fits prev (s ∷ s' ∷ ss) h =
    let d = between-IsDuration s s' in
    let (n, all) = durations_from-Fits (nonzero (between s.timestamp s'.timestamp)) (s' ∷ ss) d in
    (ap suc n, (d, all))

-- There are as many durations as samples, and each is at least 1 and below 2 ^ 32, whatever the
-- timestamps.
pub compute_sample_durations_bounds :
    (ss : List Sample)
    → (length (compute_sample_durations ss) ≡ length ss)
      × All IsDuration (compute_sample_durations ss)
unfolding compute_sample_durations
compute_sample_durations_bounds [] = (refl, tt)
compute_sample_durations_bounds (s ∷ []) = (refl, (omega arith, tt))
compute_sample_durations_bounds (s ∷ s' ∷ ss) = durations_from-Fits 3600 (s ∷ s' ∷ ss) (omega arith)
