-- ===== src/Fmp4/Durations/Accuracy.antt =====
-- How far the decode times of internal/recorder/fmp4_builder.go lie behind the timestamps.
use record_storage.Common.{ℕ, ◌%◌, suc, ◌+◌, ◌-◌, ◌*◌, ◌≤◌, ◌<◌, ◌≡◌, List, [], ◌∷◌, arith}
use record_storage.Common.Words.{u64_mod}
use record_storage.Sample.{Sample}
use record_storage.Fmp4.Durations.{
  ticks, between, nonzero, durations_from, compute_sample_durations, decode_times,
}

-- Each gap is at least one tick of the 90 kHz clock (11112 ns) and at most 13 hours, and all lies
-- within 2 ^ 64 ns of the base.
abbrev pub IsSteady : ℕ → List Sample → Type 0
IsSteady base [] = Unit {0}
IsSteady base (s ∷ []) = s.timestamp.instant < base + u64_mod
IsSteady base (s ∷ s' ∷ ss) =
    (s.timestamp.instant + 11112 ≤ s'.timestamp.instant)
    × (s'.timestamp.instant ≤ s.timestamp.instant + 46800000000000)
    × IsSteady base (s' ∷ ss)

-- The k-th decode time t, in ticks of 100000 / 9 ns, is at most the k-th sample's distance from the
-- base, and at most k ticks behind it.
abbrev pub Tracks : ℕ → ℕ → List Sample → List ℕ → Type 0
Tracks base k [] [] = Unit {0}
Tracks base k (s ∷ ss) (t ∷ ts) =
    (9 * base + 100000 * t ≤ 9 * s.timestamp.instant)
    × (9 * s.timestamp.instant ≤ 9 * base + 100000 * (t + k))
    × Tracks base (suc k) ss ts
Tracks base k _ _ = ⊥

gap_ticks :
    (delta : ℕ)
    → 11112 ≤ delta
    → delta ≤ 46800000000000
    → (1 ≤ ticks delta)
      × (100000 * ticks delta ≤ 9 * delta)
      × (9 * delta ≤ 100000 * (ticks delta + 1))
unfolding ticks
gap_ticks delta lo hi = ground arith

between-ticks :
    (s s' : Sample)
    → s.timestamp.instant + 11112 ≤ s'.timestamp.instant
    → s'.timestamp.instant ≤ s.timestamp.instant + 46800000000000
    → nonzero (between s.timestamp s'.timestamp)
      ≡ ticks (s'.timestamp.instant - s.timestamp.instant)
unfolding between nonzero
between-ticks s s' lo hi = ground (arith, gap_ticks (s'.timestamp.instant - s.timestamp.instant))

durations_step :
    (prev : ℕ) (s s' : Sample) (ss : List Sample) (d : ℕ)
    → nonzero (between s.timestamp s'.timestamp) ≡ d
    → durations_from prev (s ∷ s' ∷ ss) ≡ d ∷ durations_from d (s' ∷ ss)
unfolding durations_from
durations_step prev s s' ss d e = rw e

decode_step :
    (acc d : ℕ) (ds : List ℕ)
    → acc + d < u64_mod
    → decode_times acc (d ∷ ds) ≡ acc ∷ decode_times (acc + d) ds
unfolding decode_times
decode_step acc d ds h = let e : (acc + d) % u64_mod ≡ acc + d = omega arith in rw e

IsSteady-lt :
    (base : ℕ) (s : Sample) (ss : List Sample)
    → IsSteady base (s ∷ ss)
    → s.timestamp.instant < base + u64_mod
IsSteady-lt base s [] st = st
IsSteady-lt base s (s' ∷ ss) st = omega (arith, IsSteady-lt base s' ss st.2)

Tracks-durations :
    (base k acc prev : ℕ) (s : Sample) (ss : List Sample)
    → IsSteady base (s ∷ ss)
    → 9 * base + 100000 * acc ≤ 9 * s.timestamp.instant
    → 9 * s.timestamp.instant ≤ 9 * base + 100000 * (acc + k)
    → Tracks base k (s ∷ ss) (decode_times acc (durations_from prev (s ∷ ss)))
Tracks-durations base k acc prev s [] st lo hi = unfold durations_from decode_times in (lo, hi, tt)
Tracks-durations base k acc prev s (s' ∷ ss) st lo hi =
    let gap = s'.timestamp.instant - s.timestamp.instant in
    let t = gap_ticks gap (omega arith) (omega arith) in
    let below = IsSteady-lt base s' ss st.2 in
    rw
      (
        durations_step prev s s' ss (ticks gap) (between-ticks s s' st.0 st.1),
        decode_step acc (ticks gap) (durations_from (ticks gap) (s' ∷ ss)) (omega arith),
      )
      (
        lo,
        hi,
        Tracks-durations base (suc k) (acc + ticks gap) (ticks gap) s' ss st.2 (omega arith)
            (omega arith),
      )

-- Where each gap between timestamps is at least one tick of the 90 kHz clock (11112 ns) and at most
-- 13 hours, and all lie within 2 ^ 64 ns of the first: the k-th decode time that BuildFragment
-- writes is never ahead of the k-th sample's distance from the first, and at most k ticks behind it.
pub decode_times-Tracks :
    (s : Sample) (ss : List Sample)
    → IsSteady s.timestamp.instant (s ∷ ss)
    → Tracks s.timestamp.instant 0 (s ∷ ss) (decode_times 0 (compute_sample_durations (s ∷ ss)))
unfolding compute_sample_durations
decode_times-Tracks s [] st = unfold decode_times in (omega arith, omega arith, tt)
decode_times-Tracks s (s' ∷ ss) st =
    Tracks-durations s.timestamp.instant 0 0 3600 s (s' ∷ ss) st (omega arith) (omega arith)
