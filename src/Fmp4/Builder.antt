-- ===== src/Fmp4/Builder.antt =====
-- FMP4Builder and the segment parsers of internal/recorder/fmp4_builder.go. mp4ff, encoding/json and
-- crypto/sha1 are the parameter `MediaLibrary`.
pub mod InitRoundTrip
pub mod FragmentRoundTrip
use record_storage.Common.{
  ◌≡◌, ℕ, suc, ◌+◌, ◌-◌, ◌*◌, ◌/◌, ◌%◌, Bool, true, false, ◌||◌, Option, none, some, List, [], ◌∷◌,
  ◌++◌, map, Bytes, codes, ltb, ◌==◌, length, take, if◌then◌else◌, Result, ok, err, ◌>>=◌, ◌>>◌,
}
use record_storage.Common.Words.{half64, u64_mod, u32, u64, add64}
use record_storage.Clock.{Time, second}
use record_storage.Sample.{
  Codec, h264, h265, mpeg4, other_codec, CodecParameters, InitSegment, Sample, frame_i, frame_p,
}
use record_storage.Fmp4.Boxes.{Boxes, BoxError, write_box, find_box, parse_boxes}
use record_storage.Fmp4.Units.{SampleError, encode_sample_data, decode_sample_data}
use record_storage.Fmp4.Durations.{fmp4_timescale, compute_sample_durations}

-- mp4.FullSample; the flags say whether the sample is a sync sample.
pub record FullSample : Type 0 where
  pub sync : Bool
  pub dur : ℕ
  pub size : ℕ
  pub decode_time : ℕ
  pub bytes : Bytes

-- What buildStandardInit asks of an empty init segment's track.
pub data Descriptor : Type 0 where
  avc : Bytes → Bytes → Descriptor
  hevc : Bytes → Bytes → Bytes → Descriptor
  mp4v : ℕ → ℕ → Bytes → Descriptor

pub data BuilderError : Type 0 where
  no_samples missing_sps_pps missing_vps_sps_pps unsupported_codec : BuilderError
  missing_init_metadata missing_moof mp4_failed json_failed : BuilderError
  bad_box : BoxError → BuilderError
  bad_sample : SampleError → BuilderError
  -- a Go panic
  index_out_of_range : BuilderError

-- The libraries' functions; `none` is any of their errors. `decode_fragment` is DecodeFile followed
-- by GetFullSamples on the first fragment of the first segment, if there is one.
pub record MediaLibrary : Type 0 where
  pub encode_init : Descriptor → Option Bytes
  pub encode_fragment : ℕ → List FullSample → Option Bytes
  pub decode_fragment : Bytes → Option (List FullSample)
  pub marshal_init : InitSegment → Option Bytes
  pub unmarshal_init : Bytes → Option InitSegment
  pub unmarshal_legacy : Bytes → Option (List Sample)
  pub sha1 : Bytes → Bytes

pub record Builder : Type 0 where
  pub codec : Codec
  pub params : CodecParameters
  pub sequence : ℕ

unfoldable pub new_builder : Codec → CodecParameters → Builder
new_builder codec params = record { codec = codec; params = params; sequence = 0 }

-- Carries an error of a callee over.
abbrev pub lift {ℓ κ} :
    {E : Type ℓ} {A : Type κ} → (E → BuilderError) → Result E A → Result BuilderError A
lift f (ok a) = ok a
lift f (err e) = err (f e)

abbrev pub lift_option {ℓ} : {A : Type ℓ} → BuilderError → Option A → Result BuilderError A
lift_option e none = err e
lift_option e (some a) = ok a

pub lift_option-eq-ok {ℓ} :
    {A : Type ℓ} (e : BuilderError) (o : Option A) {a : A} → lift_option e o ≡ ok a → o ≡ some a
lift_option-eq-ok e none h = cc
lift_option-eq-ok e (some a) h = cc

abbrev is_empty : Bytes → Bool
is_empty bytes = length bytes == 0

-- The `switch` of buildStandardInit.
descriptor : Codec → CodecParameters → Result BuilderError Descriptor
descriptor h264 p =
    if is_empty p.sps || is_empty p.pps then err missing_sps_pps else ok (avc p.sps p.pps)
descriptor h265 p =
    if is_empty p.vps || (is_empty p.sps || is_empty p.pps)
    then err missing_vps_sps_pps
    else ok (hevc p.vps p.sps p.pps)
descriptor mpeg4 p = ok (
    mp4v (if p.width == 0 then 1920 else p.width) (if p.height == 0 then 1080 else p.height)
      p.config)
descriptor (other_codec name) p = err unsupported_codec

-- fmt.Sprintf("%x", bytes)
hex_digit : ℕ → ℕ
hex_digit n = if ltb n 10 then b'0' + n else b'a' + n - 10

hex : Bytes → Bytes
unfolding hex_digit
hex [] = []
hex (b ∷ bs) = hex_digit (b / 16) ∷ (hex_digit (b % 16) ∷ hex bs)

abbrev pub init_meta_box : Bytes
init_meta_box = codes "rinf"

-- `boxes["rinf"]`, and `boxes["init"]` if there is none
init_payload : Boxes → Option Bytes
init_payload boxes = elim (find_box init_meta_box boxes) [
  | some payload ↦ some payload
  | none ↦ find_box (codes "init") boxes
]

-- The loop of BuildFragment over the samples and their durations.
full_samples : Codec → ℕ → List Sample → List ℕ → Result BuilderError (List FullSample)
full_samples codec decode_time [] durations = ok []
full_samples codec decode_time (s ∷ ss) [] = err index_out_of_range
full_samples codec decode_time (s ∷ ss) (d ∷ ds) = do
  bytes ← lift bad_sample (encode_sample_data codec s.units)
  rest ← full_samples codec (add64 decode_time d) ss ds
  ok (
      record {
        sync = s.is_key;
        dur = d;
        size = u32 (length bytes);
        decode_time = decode_time;
        bytes = bytes;
      }
      ∷ rest)

-- startTime.Add(time.Duration(pts) * time.Second / 90000); the product wraps on 64 bits
pub presentation_time : Time → ℕ → Time
presentation_time start pts =
    let p = u64 (pts * second) in
    if ltb p half64
    then record start { instant = start.instant + p / fmp4_timescale }
    else record start { instant = start.instant - (u64_mod - p) / fmp4_timescale }

pub no_params : CodecParameters
no_params = record {
  payload_type = 0;
  width = 0;
  height = 0;
  sps = [];
  pps = [];
  vps = [];
  config = [];
}

-- The loop of parseActualFragment. The samples have no composition time offset.
parse_samples : Codec → Time → List FullSample → Result BuilderError (List Sample)
parse_samples codec start [] = ok []
parse_samples codec start (full ∷ fulls) = do
  units ← lift bad_sample (decode_sample_data codec full.bytes)
  rest ← parse_samples codec start fulls
  ok (
      record {
        codec = codec;
        timestamp = presentation_time start full.decode_time;
        units = units;
        is_key = full.sync;
        frame_type = if full.sync then frame_i else frame_p;
        params = no_params;
      }
      ∷ rest)

module _ (lib : MediaLibrary) where
  open lib use {
    encode_init, encode_fragment, decode_fragment, marshal_init, unmarshal_init, unmarshal_legacy,
    sha1,
  }

  unfoldable pub build_standard_init : Builder → Result BuilderError Bytes
  unfolding descriptor
  build_standard_init f = do d ← descriptor f.codec f.params; lift_option mp4_failed (encode_init d)

  unfoldable pub build_init : Builder → Result BuilderError (Bytes × Bytes)
  unfolding hex
  build_init f = do
    payload ← lift_option json_failed (marshal_init (record { codec = f.codec; params = f.params }))
    standard ← build_standard_init f
    ok (write_box standard init_meta_box payload, hex (take 8 (sha1 payload)))

  unfoldable pub parse_init_segment : Bytes → Result BuilderError InitSegment
  unfolding init_payload
  parse_init_segment bytes = do
    boxes ← lift bad_box (parse_boxes bytes)
    payload ← lift_option missing_init_metadata (init_payload boxes)
    lift_option json_failed (unmarshal_init payload)

  unfoldable pub build_fragment : Builder → List Sample → Builder × Result BuilderError Bytes
  unfolding full_samples
  build_fragment f [] = (f, err no_samples)
  build_fragment f (s ∷ ss) =
      let f' = record f { sequence = u32 (f.sequence + 1) } in
      (
        f',
        full_samples f.codec 0 (s ∷ ss) (compute_sample_durations (s ∷ ss)) >>= λ fulls.
            lift_option mp4_failed (encode_fragment f'.sequence fulls),
      )

  parse_actual_fragment : Bytes → Codec → Time → Result BuilderError (List Sample)
  unfolding parse_samples
  parse_actual_fragment bytes codec start = do
    fulls ← lift_option mp4_failed (decode_fragment bytes)
    parse_samples codec start fulls

  parse_legacy_fragment : Bytes → Result BuilderError (List Sample)
  parse_legacy_fragment bytes = do
    boxes ← lift bad_box (parse_boxes bytes)
    payload ← lift_option missing_moof (find_box (codes "moof") boxes)
    lift_option json_failed (unmarshal_legacy payload)

  unfoldable pub parse_fragment : Bytes → Codec → Time → Result BuilderError (List Sample)
  unfolding parse_actual_fragment parse_legacy_fragment presentation_time
  parse_fragment bytes codec start = elim (parse_actual_fragment bytes codec start) [
    | ok samples ↦ ok samples
    | err e ↦ parse_legacy_fragment bytes
  ]
