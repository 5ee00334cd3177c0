-- ===== src/Fmp4/Durations.antt =====
-- computeSampleDurations of internal/recorder/fmp4_builder.go, and the decode times that
-- BuildFragment adds up from the durations.
pub mod Bounds
pub mod Accuracy
use record_storage.Common.{
  ℕ, ◌+◌, ◌-◌, ◌*◌, ◌/◌, Bool, List, [], ◌∷◌, ltb, leb, ◌==◌, if◌then◌else◌,
}
use record_storage.Common.Words.{half64, u64_mod, u32, u64, add64}
use record_storage.Clock.{Time, second}
use record_storage.Sample.{Sample}

abbrev pub fmp4_timescale : ℕ
fmp4_timescale = 90000

-- An int64 quotient by a positive number, rounded towards 0.
div_i64 : ℕ → ℕ → ℕ
div_i64 p d = if ltb p half64 then p / d else u64_mod - (u64_mod - p) / d

-- uint32(delta.Nanoseconds() * 90000 / 1e9) for delta > 0; the product wraps on 64 bits
unfoldable pub ticks : ℕ → ℕ
unfolding div_i64
ticks delta = u32 (div_i64 (u64 (delta * fmp4_timescale)) second)

between : Time → Time → ℕ
between t u = if leb u.instant t.instant then 3600 else ticks (u.instant - t.instant)

nonzero : ℕ → ℕ
nonzero d = if d == 0 then 1 else d

-- The rest of the loop; `prev` is the duration before, which the last sample takes over.
durations_from : ℕ → List Sample → List ℕ
durations_from prev [] = []
durations_from prev (s ∷ []) = nonzero prev ∷ []
durations_from prev (s ∷ s' ∷ ss) =
    let d = nonzero (between s.timestamp s'.timestamp) in d ∷ durations_from d (s' ∷ ss)

unfoldable pub compute_sample_durations : List Sample → List ℕ
unfolding durations_from nonzero between ticks
compute_sample_durations [] = []
compute_sample_durations (s ∷ []) = nonzero 3600 ∷ []
compute_sample_durations (s ∷ s' ∷ ss) = durations_from 3600 (s ∷ s' ∷ ss)

-- `decodeTime` before each sample of BuildFragment's loop, a uint64.
unfoldable pub decode_times : ℕ → List ℕ → List ℕ
decode_times acc [] = []
decode_times acc (d ∷ ds) = acc ∷ decode_times (add64 acc d) ds
