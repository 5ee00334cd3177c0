-- ===== src/Sample.antt =====
-- internal/recorder/types.go: codecs, frame types, recorder states, samples and init segments.
-- A Go string type with named constants is a data type with a constructor for any other text.
use record_storage.Common.{ℕ, Bool, true, false, List, Bytes}
use record_storage.Common.{bytes_eq}
use record_storage.Clock.{Time}

pub data Codec : Type 0 where
  h264 h265 mpeg4 : Codec
  other_codec : Bytes → Codec

-- `left == right` on two codecs
unfoldable pub codec_eq : Codec → Codec → Bool
codec_eq h264 h264 = true
codec_eq h265 h265 = true
codec_eq mpeg4 mpeg4 = true
codec_eq (other_codec a) (other_codec b) = bytes_eq a b
codec_eq _ _ = false

pub data FrameType : Type 0 where
  frame_i frame_p frame_b : FrameType
  other_frame : Bytes → FrameType

abbrev pub is_b : FrameType → Bool
is_b frame_b = true
is_b _ = false

abbrev pub is_p : FrameType → Bool
is_p frame_p = true
is_p _ = false

pub data RecorderState : Type 0 where
  idle waiting_key_frame recording stopping : RecorderState

pub record CodecParameters : Type 0 where
  pub payload_type : ℕ
  pub width : ℕ
  pub height : ℕ
  pub sps : Bytes
  pub pps : Bytes
  pub vps : Bytes
  pub config : Bytes

pub record Sample : Type 0 where
  pub codec : Codec
  pub timestamp : Time
  pub units : List Bytes
  pub is_key : Bool
  pub frame_type : FrameType
  pub params : CodecParameters

pub record InitSegment : Type 0 where
  pub codec : Codec
  pub params : CodecParameters
