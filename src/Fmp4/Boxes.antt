-- ===== src/Fmp4/Boxes.antt =====
-- writeBox, parseBoxes and ParamsEqual of internal/recorder/fmp4_builder.go.
pub mod RoundTrip
use record_storage.Common.{
  ℕ, zero, suc, ◌+◌, ◌-◌, Bool, true, false, ◌&&◌, ◌||◌, Option, none, some, List, [], ◌∷◌, ◌++◌,
  Bytes, ltb, leb, ◌==◌, length, take, drop, bytes_eq, if◌then◌else◌, Result, ok, err,
}
use record_storage.Common.BigEndian.{put_be, get_be}
use record_storage.Common.Words.{u32}
use record_storage.Sample.{CodecParameters}

unfoldable pub write_box : Bytes → Bytes → Bytes → Bytes
write_box buf name payload =
    let size = u32 (8 + length payload) in ((buf ++ put_be 4 size) ++ name) ++ payload

-- The map from box names to payloads. A later box of a name replaces an earlier one.
abbrev pub Boxes : Type 0
Boxes = List (Bytes × Bytes)

unfoldable pub find_box : Bytes → Boxes → Option Bytes
find_box name [] = none
find_box name ((n, payload) ∷ boxes) =
    let rest = find_box name boxes in if bytes_eq n name then some payload else rest

pub data BoxError : Type 0 where
  invalid_box_size : BoxError
  -- no Go value: the loop ran out of fuel
  out_of_fuel : BoxError

-- The loop of parseBoxes over the data that is left. A new box is put in front, so that it is
-- found first.
unfoldable pub parse_loop : ℕ → Bytes → Boxes → Result BoxError Boxes
parse_loop zero rest result = err out_of_fuel
parse_loop (suc fuel) rest result =
    let size = get_be (take 4 rest) in
    let name = take 4 (drop 4 rest) in
    let next = parse_loop fuel (drop size rest) ((name, take (size - 8) (drop 8 rest)) ∷ result) in
    if ltb (length rest) 8
    then ok result
    else if ltb size 8 || ltb (length rest) size
    then err invalid_box_size
    else next

-- A round takes at least 8 bytes, so as many rounds as bytes, and one to stop, are enough.
unfoldable pub parse_boxes : Bytes → Result BoxError Boxes
parse_boxes data_bytes = parse_loop (suc (length data_bytes)) data_bytes []

unfoldable pub params_equal : CodecParameters → CodecParameters → Bool
params_equal left right =
    bytes_eq left.sps right.sps
    && (bytes_eq left.pps right.pps
        && (bytes_eq left.vps right.vps
            && (bytes_eq left.config right.config
                && ((left.payload_type == right.payload_type)
                    && ((left.width == right.width) && (left.height == right.height))))))
