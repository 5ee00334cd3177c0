-- ===== src/Fmp4/Builder/FragmentRoundTrip.antt =====
-- BuildFragment and ParseFragment of internal/recorder/fmp4_builder.go.
use record_storage.Common.{
  ℕ, ◌+◌, ◌<◌, ◌≡◌, ◌⊎◌, refl, true, some, List, [], ◌∷◌, Bytes, length, ok, arith, All,
  if◌then◌else◌,
}
use record_storage.Common.Words.{u32, u32_mod, add64}
use record_storage.Clock.{Time}
use record_storage.Sample.{Codec, h264, h265, Sample, frame_i, frame_p}
use record_storage.Fmp4.Units.{encode_units, encode_sample_data, decode_sample_data}
use record_storage.Fmp4.Units.RoundTrip.{
  FitsU32, all_nonempty, decode_sample_data-encode_sample_data,
}
use record_storage.Fmp4.Durations.{compute_sample_durations, decode_times}
use record_storage.Fmp4.Durations.Bounds.{compute_sample_durations_bounds}
use record_storage.Fmp4.Builder.{
  FullSample, MediaLibrary, Builder, full_samples, build_fragment, parse_samples, parse_fragment,
  presentation_time, no_params, lift_option-eq-ok, mp4_failed,
}

-- Samples with their true sizes, whose decode times start at `acc` and add up.
abbrev pub IsRun : ℕ → List FullSample → Type 0
IsRun acc [] = Unit {0}
IsRun acc (f ∷ fs) = (f.decode_time ≡ acc) × (f.size ≡ length f.bytes) × IsRun (add64 acc f.dur) fs

-- What the program relies on: a fragment of such samples decodes to them.
pub record FragmentLaws (lib : MediaLibrary) : Type 0 where
  pub decode-encode :
      (sequence : ℕ) (fulls : List FullSample) (bytes : Bytes)
      → IsRun 0 fulls
      → lib.encode_fragment sequence fulls ≡ some bytes
      → lib.decode_fragment bytes ≡ some fulls

-- A sample of nonempty NAL units that takes less than 2 ^ 32 bytes.
pub record IsStorable (s : Sample) : Type 0 where
  pub units_fit : All FitsU32 s.units
  pub nonempty : all_nonempty s.units ≡ true
  pub sample_fits : length (encode_units [] s.units) < u32_mod

-- What playback gets for the samples at the given decode times.
abbrev pub restored : Codec → Time → List Sample → List ℕ → List Sample
restored codec start (s ∷ ss) (t ∷ ts) =
    record {
      codec = codec;
      timestamp = presentation_time start t;
      units = s.units;
      is_key = s.is_key;
      frame_type = if s.is_key then frame_i else frame_p;
      params = no_params;
    }
    ∷ restored codec start ss ts
restored codec start _ _ = []

module _ (codec : Codec) (nal : (codec ≡ h264) ⊎ (codec ≡ h265)) where
  abbrev full : ℕ → Sample → ℕ → FullSample
  full t s d = record {
    sync = s.is_key;
    dur = d;
    size = u32 (length (encode_units [] s.units));
    decode_time = t;
    bytes = encode_units [] s.units;
  }

  abbrev fulls : ℕ → List Sample → List ℕ → List FullSample
  fulls t (s ∷ ss) (d ∷ ds) = full t s d ∷ fulls (add64 t d) ss ds
  fulls t _ _ = []

  encode_nal : (us : List Bytes) → encode_sample_data codec us ≡ ok (encode_units [] us)
  unfolding encode_sample_data
  encode_nal us = ground arith

  decode_nal :
      (s : Sample) → IsStorable s → decode_sample_data codec (encode_units [] s.units) ≡ ok s.units
  decode_nal s h =
      rw (encode_nal s.units, h.nonempty) at
        (decode_sample_data-encode_sample_data codec s.units nal h.units_fit)

  full_samples-fulls :
      (t : ℕ) (ss : List Sample) (ds : List ℕ)
      → length ds ≡ length ss
      → full_samples codec t ss ds ≡ ok (fulls t ss ds)
  unfolding full_samples
  full_samples-fulls t [] ds h = refl
  full_samples-fulls t (s ∷ ss) [] h = absurd (omega arith)
  full_samples-fulls t (s ∷ ss) (d ∷ ds) h =
      rw (encode_nal s.units, full_samples-fulls (add64 t d) ss ds (omega arith))

  fulls-IsRun :
      (t : ℕ) (ss : List Sample) (ds : List ℕ) → All IsStorable ss → IsRun t (fulls t ss ds)
  fulls-IsRun t [] ds h = tt
  fulls-IsRun t (s ∷ ss) [] h = tt
  fulls-IsRun t (s ∷ ss) (d ∷ ds) h =
      (refl, (let f = h.0.sample_fits in omega arith), fulls-IsRun (add64 t d) ss ds h.1)

  parse_samples-fulls :
      (start : Time) (t : ℕ) (ss : List Sample) (ds : List ℕ)
      → All IsStorable ss
      → parse_samples codec start (fulls t ss ds) ≡ ok (restored codec start ss (decode_times t ds))
  unfolding parse_samples decode_times
  parse_samples-fulls start t [] ds h = refl
  parse_samples-fulls start t (s ∷ ss) [] h = refl
  parse_samples-fulls start t (s ∷ ss) (d ∷ ds) h =
      rw (decode_nal s h.0, parse_samples-fulls start (add64 t d) ss ds h.1)

  decoded :
      (lib : MediaLibrary) (laws : FragmentLaws lib) (sequence : ℕ) (bytes : Bytes) (start : Time)
      (fs : List FullSample) (out : List Sample)
      → lib.encode_fragment sequence fs ≡ some bytes
      → IsRun 0 fs
      → parse_samples codec start fs ≡ ok out
      → parse_fragment lib bytes codec start ≡ ok out
  unfolding parse_fragment
  decoded lib laws sequence bytes start fs out e run p =
      rw (laws.decode-encode sequence fs bytes run e, p, parse_fragment)

-- Where the library's fragments decode to what they were made of: for H264 and H265 and samples of
-- nonempty NAL units below 2 ^ 32 bytes, whatever BuildFragment returns is parsed by ParseFragment
-- to as many samples, with the same units and key flags, frame type I or P by the key flag, and
-- the start time plus their decode times for timestamps.
pub parse_fragment-build_fragment :
    (lib : MediaLibrary) (f : Builder) (ss : List Sample) (start : Time) (bytes : Bytes)
    → FragmentLaws lib
    → (f.codec ≡ h264) ⊎ (f.codec ≡ h265)
    → All IsStorable ss
    → (build_fragment lib f ss).1 ≡ ok bytes
    → parse_fragment lib bytes f.codec start
      ≡ ok (restored f.codec start ss (decode_times 0 (compute_sample_durations ss)))
unfolding build_fragment
parse_fragment-build_fragment lib f [] start bytes laws nal h e = cc
parse_fragment-build_fragment lib f (s ∷ ss) start bytes laws nal h e =
    let ds = compute_sample_durations (s ∷ ss) in
    let fs = fulls f.codec nal 0 (s ∷ ss) ds in
    let n = (compute_sample_durations_bounds (s ∷ ss)).0 in
    let e' = rw (full_samples-fulls f.codec nal 0 (s ∷ ss) ds n) at e in
    decoded f.codec nal lib laws (u32 (f.sequence + 1)) bytes start fs _
      (lift_option-eq-ok mp4_failed _ e') (fulls-IsRun f.codec nal 0 (s ∷ ss) ds h)
      (parse_samples-fulls f.codec nal start 0 (s ∷ ss) ds h)
