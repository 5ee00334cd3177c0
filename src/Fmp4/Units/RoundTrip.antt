-- ===== src/Fmp4/Units/RoundTrip.antt =====
-- Encoding NAL units and decoding them again (internal/recorder/fmp4_builder.go).
use record_storage.Common.{
  ℕ, zero, suc, ◌+◌, ◌<◌, ◌≤◌, ◌≡◌, ◌≢◌, ◌∙◌, ◌⊎◌, ap, refl, sym, Bool, true, ◌&&◌, List, [], ◌∷◌,
  ◌++◌, Bytes, ltb, ◌==◌, length, take, drop, if◌then◌else◌, ok, err, ◌>>=◌, arith, All, append-nil,
  append_assoc, length-append, take_front, drop_front, take-length-append, drop-length-append,
  length-drop,
}
use record_storage.Common.BigEndian.{put_be, get_be, length-put_be, get_be-put_be}
use record_storage.Common.Words.{u32, u32_mod}
use record_storage.Sample.{Codec, h264, h265, mpeg4, other_codec}
use record_storage.Fmp4.Units.{
  encode_units, encode_sample_data, decode_loop, decode_sample_data, finish, out_of_fuel,
  invalid_nalu_size,
}

decode_loop-ne_out :
    (fuel : ℕ) (rest : Bytes) (units : List Bytes)
    → length rest < fuel
    → decode_loop fuel rest units ≢ err out_of_fuel
unfolding decode_loop finish
decode_loop-ne_out zero rest units h = absurd (omega arith)
decode_loop-ne_out (suc fuel) rest units h =
    let size = get_be (take 4 rest) in
    let body = drop 4 rest in
    ground (
      arith,
      length-drop 4 rest,
      length-drop size body,
      decode_loop-ne_out fuel (drop size body) (units ++ (take size body ∷ [])),
    )

-- The decoder answers on every input and for every codec: its fuel does not run out.
pub decode_sample_data_total :
    (codec : Codec) (bytes : Bytes) → decode_sample_data codec bytes ≢ err out_of_fuel
decode_sample_data_total h264 bytes =
    unfold decode_sample_data in decode_loop-ne_out (suc (length bytes)) bytes [] (omega arith)
decode_sample_data_total h265 bytes =
    unfold decode_sample_data in decode_loop-ne_out (suc (length bytes)) bytes [] (omega arith)
decode_sample_data_total mpeg4 bytes = unfold decode_sample_data in λ e. cc
decode_sample_data_total (other_codec c) bytes = unfold decode_sample_data in λ e. cc

-- A unit in front of some data.
abbrev framed : Bytes → Bytes → Bytes
framed unit rest = put_be 4 (length unit) ++ (unit ++ rest)

abbrev frames : List Bytes → Bytes
frames [] = []
frames (u ∷ us) = framed u (frames us)

abbrev pub FitsU32 : Bytes → Type 0
FitsU32 u = length u < u32_mod

encode_units-frames :
    (buf : Bytes) (us : List Bytes) → All FitsU32 us → encode_units buf us ≡ buf ++ frames us
unfolding encode_units
encode_units-frames buf [] h = sym (append-nil buf)
encode_units-frames buf (u ∷ us) h =
    let e : u32 (length u) ≡ length u = omega arith in
    encode_units-frames ((buf ++ put_be 4 (u32 (length u))) ++ u) us h.1
    ∙ rw e (
        append_assoc (buf ++ put_be 4 (length u)) u (frames us)
        ∙ append_assoc buf (put_be 4 (length u)) (u ++ frames us))

abbrev pub all_nonempty : List Bytes → Bool
all_nonempty [] = true
all_nonempty (u ∷ us) = ltb 0 (length u) && all_nonempty us

decode_loop-step :
    (fuel : ℕ) (rest : Bytes) (units : List Bytes) (size : ℕ) (body : Bytes)
    → get_be (take 4 rest) ≡ size
    → drop 4 rest ≡ body
    → 4 ≤ length rest
    → size ≤ length body
    → decode_loop (suc fuel) rest units ≡ (
        if size == 0
        then err invalid_nalu_size
        else decode_loop fuel (drop size body) (units ++ (take size body ∷ [])))
unfolding decode_loop
decode_loop-step fuel rest units size body e b h k = rw (e, b) (ground arith)

module _ (u rest : Bytes) (fits : FitsU32 u) where
  size-framed : get_be (take 4 (framed u rest)) ≡ length u
  size-framed =
      ap get_be (take_front 4 _ _ (length-put_be 4 (length u)))
      ∙ get_be-put_be 4 (length u) (omega arith)

  body-framed : drop 4 (framed u rest) ≡ u ++ rest
  body-framed = drop_front 4 _ _ (length-put_be 4 (length u))

  length-framed : length (framed u rest) ≡ 4 + length u + length rest
  length-framed = omega (
    arith,
    length-append (put_be 4 (length u)) (u ++ rest),
    length-append u rest,
    length-put_be 4 (length u),
  )

  decode_loop-framed :
      (fuel : ℕ) (units : List Bytes)
      → decode_loop (suc fuel) (framed u rest) units ≡ (
          if length u == 0
          then err invalid_nalu_size
          else decode_loop fuel rest (units ++ (u ∷ [])))
  decode_loop-framed fuel units =
      decode_loop-step fuel (framed u rest) units (length u) (u ++ rest) size-framed body-framed
        (omega (arith, length-framed)) (omega (arith, length-append u rest))
      ∙ rw (take-length-append u rest, drop-length-append u rest)

decode_loop-frames :
    (us : List Bytes) (fuel : ℕ) (units : List Bytes)
    → All FitsU32 us
    → length (frames us) < fuel
    → decode_loop fuel (frames us) units
      ≡ (if all_nonempty us then ok (units ++ us) else err invalid_nalu_size)
decode_loop-frames us zero units h k = absurd (omega arith)
decode_loop-frames [] (suc fuel) units h k = rw append-nil (unfold decode_loop finish in refl)
decode_loop-frames (u ∷ us) (suc fuel) units h k =
    decode_loop-framed u (frames us) h.0 fuel units
    ∙ rw
        (decode_loop-frames us fuel (units ++ (u ∷ [])) h.1
          (omega (arith, length-framed u (frames us) h.0)))
        (rw append_assoc (ground arith))

decode_units :
    (us : List Bytes)
    → All FitsU32 us
    → decode_loop (suc (length (encode_units [] us))) (encode_units [] us) []
      ≡ (if all_nonempty us then ok us else err invalid_nalu_size)
decode_units us h =
    rw (encode_units-frames [] us h)
      (decode_loop-frames us (suc (length (frames us))) [] h (omega arith))

-- For H264 and H265 and units shorter than 2 ^ 32 bytes, encoding succeeds, and decoding what was
-- encoded gives the units back if none is empty and fails on the empty unit's size otherwise.
pub decode_sample_data-encode_sample_data :
    (codec : Codec) (us : List Bytes)
    → (codec ≡ h264) ⊎ (codec ≡ h265)
    → All FitsU32 us
    → (encode_sample_data codec us >>= λ bytes. decode_sample_data codec bytes)
      ≡ (if all_nonempty us then ok us else err invalid_nalu_size)
unfolding encode_sample_data decode_sample_data
decode_sample_data-encode_sample_data h264 us c h = decode_units us h
decode_sample_data-encode_sample_data h265 us c h = decode_units us h
decode_sample_data-encode_sample_data mpeg4 us c h = ground arith
decode_sample_data-encode_sample_data (other_codec n) us c h = ground arith
