-- ===== src/Tests/Fragments.antt =====
-- internal/recorder/fmp4_builder.go at concrete inputs, with libraries that keep what they are given.
use record_storage.Common.{
  ◌≡◌, ◌≢◌, refl, inr, true, List, [], ◌∷◌, arith, Bytes, codes, length, ok, err, ◌>>=◌,
  if◌then◌else◌,
}
use record_storage.Sample.{h264, h265, Sample}
use record_storage.Fmp4.Boxes.{parse_boxes, write_box, params_equal, out_of_fuel}
use record_storage.Fmp4.Boxes.RoundTrip.{parse_boxes_total, params_equal_iff}
use record_storage.Fmp4.Units
use record_storage.Fmp4.Units.{encode_sample_data, decode_sample_data, invalid_nalu_size}
use record_storage.Fmp4.Units.RoundTrip.{decode_sample_data-encode_sample_data, all_nonempty}
use record_storage.Fmp4.Durations.{compute_sample_durations, decode_times}
use record_storage.Fmp4.Durations.Accuracy.{decode_times-Tracks, Tracks}
use record_storage.Sample.{InitSegment, CodecParameters, Codec, mpeg4, other_codec}
use record_storage.Common.{bytes_eq, ℕ, some, none, Option, inl, Bool-cases, ap, sym}
use record_storage.Fmp4.Builder.{
  build_standard_init, FullSample, MediaLibrary, new_builder, build_init, build_fragment,
  parse_fragment, parse_init_segment,
}
use record_storage.Fmp4.Builder.InitRoundTrip.{InitLaws, parse_init_segment-build_init}
use record_storage.Fmp4.Builder.FragmentRoundTrip.{
  FragmentLaws, IsRun, IsStorable, restored, parse_fragment-build_fragment,
}
use record_storage.Common.BigEndian.{put_be}
use record_storage.Tests.Data.{at_second, key_sample, next_sample, params}

parse_boxes_total_example : parse_boxes (0 ∷ 0 ∷ 0 ∷ []) ≢ err out_of_fuel
parse_boxes_total_example = parse_boxes_total (0 ∷ 0 ∷ 0 ∷ [])

abbrev units : List Bytes
units = (1 ∷ 2 ∷ 3 ∷ []) ∷ (4 ∷ []) ∷ []

decode_sample_data-encode_sample_data_example :
    (encode_sample_data h265 units >>= λ bytes. decode_sample_data h265 bytes)
    ≡ (if all_nonempty units then ok units else err invalid_nalu_size)
decode_sample_data-encode_sample_data_example =
    decode_sample_data-encode_sample_data h265 units (inr refl) (omega arith, (omega arith, tt))

abbrev samples : List Sample
samples = key_sample ∷ next_sample ∷ []

decode_times-Tracks_example :
    Tracks key_sample.timestamp.instant 0 samples
      (decode_times 0 (compute_sample_durations samples))
decode_times-Tracks_example =
    decode_times-Tracks key_sample (next_sample ∷ []) (omega arith, omega arith, omega arith)

-- A library that knows one init segment, and fragments of one key frame.
abbrev marshal : InitSegment → Option Bytes
marshal segment = elim segment.codec [
  | h264 ↦ if params_equal segment.params params then some (9 ∷ []) else none
  | _ ↦ none
]

abbrev write_one : ℕ → List FullSample → Option Bytes
write_one sequence (f ∷ []) = if f.sync then some (f.dur ∷ f.bytes) else none
write_one sequence _ = none

abbrev read_one : Bytes → Option (List FullSample)
read_one [] = none
read_one (d ∷ bytes) =
    some (record { sync = true; dur = d; size = length bytes; decode_time = 0; bytes = bytes } ∷ [])

abbrev pub lib : MediaLibrary
lib = record {
  encode_init = λ d. some [];
  encode_fragment = write_one;
  decode_fragment = read_one;
  marshal_init = marshal;
  unmarshal_init = λ payload. some (record { codec = h264; params = params });
  unmarshal_legacy = λ payload. none;
  sha1 = λ bytes. bytes;
}

segment_of : CodecParameters → Option InitSegment
segment_of q = some (record { codec = h264; params = q })

marshalled :
    (codec : Codec) (p : CodecParameters) (payload : Bytes)
    → marshal (record { codec = codec; params = p }) ≡ some payload
    → ◌≡◌ {A = Option InitSegment}
        (some (record { codec = h264; params = params }))
        (some (record { codec = codec; params = p }))
unfolding segment_of
marshalled h264 p payload e = elim (Bool-cases (params_equal p params)) [
  | inl t ↦ ap (segment_of) (sym ((params_equal_iff p params).0 t))
  | inr f ↦ absurd (ground arith)
]
marshalled h265 p payload e = absurd (ground arith)
marshalled mpeg4 p payload e = absurd (ground arith)
marshalled (other_codec name) p payload e = absurd (ground arith)

lib_init : InitLaws lib
lib_init = record {
  boxes = λ d bytes e. ([], tt, ground arith);
  json = λ segment payload e. marshalled segment.codec segment.params payload e;
}

written :
    (sequence : ℕ) (fulls : List FullSample) (bytes : Bytes)
    → IsRun 0 fulls
    → write_one sequence fulls ≡ some bytes
    → read_one bytes ≡ some fulls
written sequence [] bytes run e = absurd (ground arith)
written sequence (f ∷ []) bytes run e = ground arith
written sequence (f ∷ g ∷ fs) bytes run e = absurd (ground arith)

lib_fragment : FragmentLaws lib
lib_fragment = record {
  decode-encode = λ sequence fulls bytes run e. written sequence fulls bytes run e;
}

abbrev init_bytes : Bytes
init_bytes = write_box [] (codes "rinf") (9 ∷ [])

built_init : build_init lib (new_builder h264 params) ≡ ok (init_bytes, codes "09")
unfolding build_init new_builder params_equal bytes_eq build_standard_init
built_init = refl

known : marshal (record { codec = h264; params = params }) ≡ some (9 ∷ [])
unfolding params_equal bytes_eq
known = refl

parse_init_segment-build_init_example :
    parse_init_segment lib init_bytes ≡ ok (record { codec = h264; params = params })
unfolding new_builder params_equal
parse_init_segment-build_init_example =
    parse_init_segment-build_init lib lib_init (new_builder h264 params) (9 ∷ []) init_bytes
      (codes "09") known (omega arith) built_init

abbrev fragment_bytes : Bytes
fragment_bytes = 3600 ∷ 0 ∷ 0 ∷ 0 ∷ 3 ∷ 1 ∷ 2 ∷ 3 ∷ 0 ∷ 0 ∷ 0 ∷ 1 ∷ 4 ∷ []

built_fragment :
    (build_fragment lib (new_builder h264 params) (key_sample ∷ [])).1 ≡ ok fragment_bytes
unfolding build_fragment new_builder compute_sample_durations encode_sample_data Units.encode_units
    put_be
built_fragment = refl

storable : IsStorable key_sample
unfolding Units.encode_units put_be
storable = record {
  units_fit = (omega arith, (omega arith, tt));
  nonempty = refl;
  sample_fits = omega arith;
}

parse_fragment-build_fragment_example :
    parse_fragment lib fragment_bytes h264 (at_second 10)
    ≡ ok (
        restored h264
          (at_second 10)
          (key_sample ∷ [])
          (decode_times 0 (compute_sample_durations (key_sample ∷ []))))
unfolding new_builder
parse_fragment-build_fragment_example =
    parse_fragment-build_fragment lib (new_builder h264 params) (key_sample ∷ []) (at_second 10)
      fragment_bytes lib_fragment (inl refl) (storable, tt) built_fragment
