-- ===== src/Fmp4/Units.antt =====
-- encodeSampleData and decodeSampleData of internal/recorder/fmp4_builder.go.
pub mod RoundTrip
use record_storage.Common.{
  ℕ, zero, suc, ◌+◌, Bool, ◌||◌, List, [], ◌∷◌, ◌++◌, Bytes, ltb, ◌==◌, length, take, drop,
  if◌then◌else◌, Result, ok, err,
}
use record_storage.Common.BigEndian.{put_be, get_be}
use record_storage.Common.Words.{u32}
use record_storage.Sample.{Codec, h264, h265, mpeg4, other_codec}

pub data SampleError : Type 0 where
  no_mpeg4_frame unsupported_codec invalid_nalu_size trailing_data : SampleError
  -- no Go value: the loop ran out of fuel
  out_of_fuel : SampleError

-- Each unit behind its length as a big-endian uint32.
unfoldable pub encode_units : Bytes → List Bytes → Bytes
encode_units buf [] = buf
encode_units buf (unit ∷ units) = encode_units ((buf ++ put_be 4 (u32 (length unit))) ++ unit) units

encode_frame : List Bytes → Result SampleError Bytes
encode_frame [] = err no_mpeg4_frame
encode_frame (unit ∷ units) = ok unit

unfoldable pub encode_sample_data : Codec → List Bytes → Result SampleError Bytes
unfolding encode_frame
encode_sample_data h264 units = ok (encode_units [] units)
encode_sample_data h265 units = ok (encode_units [] units)
encode_sample_data mpeg4 units = encode_frame units
encode_sample_data (other_codec name) units = err unsupported_codec

finish : Bytes → List Bytes → Result SampleError (List Bytes)
finish rest units = if length rest == 0 then ok units else err trailing_data

-- The loop of decodeSampleData over the data that is left.
decode_loop : ℕ → Bytes → List Bytes → Result SampleError (List Bytes)
decode_loop zero rest units = err out_of_fuel
decode_loop (suc fuel) rest units =
    let size = get_be (take 4 rest) in
    let body = drop 4 rest in
    let next = decode_loop fuel (drop size body) (units ++ (take size body ∷ [])) in
    if ltb (length rest) 4
    then finish rest units
    else if size == 0 || ltb (length body) size
    then err invalid_nalu_size
    else next

-- A round takes at least 4 bytes, so as many rounds as bytes, and one to stop, are enough.
unfoldable pub decode_sample_data : Codec → Bytes → Result SampleError (List Bytes)
unfolding decode_loop finish
decode_sample_data h264 bytes = decode_loop (suc (length bytes)) bytes []
decode_sample_data h265 bytes = decode_loop (suc (length bytes)) bytes []
decode_sample_data mpeg4 bytes = ok (bytes ∷ [])
decode_sample_data (other_codec name) bytes = err unsupported_codec
