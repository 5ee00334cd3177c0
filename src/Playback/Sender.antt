-- ===== src/Playback/Sender.antt =====
-- internal/playback/rtp_sender.go. gortsplib's encoders and stream are parameters.
pub mod Laws
use record_storage.Common.{
  ℕ, ◌==◌, Bool, true, false, Option, none, some, List, [], ◌∷◌, ◌++◌, Bytes, length, Result, ok,
  err, ◌>>=◌, if◌then◌else◌,
}
use record_storage.Clock.{Time, is_zero, zero_time}
use record_storage.Sample.{
  Codec, h264, h265, mpeg4, other_codec, CodecParameters, Sample, InitSegment, frame_i,
}

-- format.Format, with the fields that BuildDescription sets
pub data Format : Type 0 where
  h264_format : ℕ → Bytes → Bytes → ℕ → Format
  h265_format : ℕ → Bytes → Bytes → Bytes → Format
  mpeg4_format : ℕ → Bytes → ℕ → Format

pub data SendError (E : Type 0) : Type 0 where
  unsupported_codec : SendError E
  failed : E → SendError E
  -- a Go panic: Encode on an interface that is nil
  nil_encoder : SendError E

-- CreateEncoder and Encode by format, the time encoder's result for a sample's time and the base
-- time, and WritePacketRTP, which is given the packet and its time stamp.
pub record Rtp (E W P : Type 0) : Type 0 where
  pub create_encoder : Format → Result E (Unit {0})
  pub encode : Format → List Bytes → Result E (List P)
  pub rtp_time : Time → Time → ℕ
  pub write_packet : ℕ → P → W → Result E (Unit {0}) × W

-- The stream, the media and the encoder of time stamps are those of Rtp.
pub record RtpSender : Type 0 where
  pub format : Format
  pub base_time : Time
  pub init : InitSegment

-- The fields h264Enc, h265Enc and mp4vEnc, of which NewRTPSender sets the one of the format and leaves
-- the others nil: an encoder is known by the format that created it.
unfoldable pub h264_enc : Format → Option Format
h264_enc (h264_format t sps pps mode) = some (h264_format t sps pps mode)
h264_enc _ = none

unfoldable pub h265_enc : Format → Option Format
h265_enc (h265_format t vps sps pps) = some (h265_format t vps sps pps)
h265_enc _ = none

unfoldable pub mp4v_enc : Format → Option Format
mp4v_enc (mpeg4_format t config level) = some (mpeg4_format t config level)
mp4v_enc _ = none

abbrev payload_type : InitSegment → ℕ
payload_type init = if init.params.payload_type == 0 then 96 else init.params.payload_type

format_of : {E : Type 0} → Codec → InitSegment → Result (SendError E) Format
format_of h264 init = ok (h264_format (payload_type init) init.params.sps init.params.pps 1)
format_of h265 init =
    ok (h265_format (payload_type init) init.params.vps init.params.sps init.params.pps)
format_of mpeg4 init = ok (mpeg4_format (payload_type init) init.params.config 1)
format_of (other_codec name) init = err unsupported_codec

-- BuildDescription: the format of the one media of the session
unfoldable pub build_description : {E : Type 0} → InitSegment → Result (SendError E) Format
unfolding format_of
build_description init = format_of init.codec init

add_unit : Bytes → List Bytes → List Bytes
add_unit unit units = if length unit == 0 then units else unit ∷ units

-- The parameter sets that SendCodecParams sends.
unfoldable pub param_units : InitSegment → List Bytes
unfolding add_unit
param_units init = elim init.codec [
  | h264 ↦ add_unit init.params.sps (add_unit init.params.pps [])
  | h265 ↦ add_unit init.params.vps (add_unit init.params.sps (add_unit init.params.pps []))
  | mpeg4 ↦ []
  | other_codec name ↦ []
]

no_params : CodecParameters
no_params = record {
  payload_type = 0;
  width = 0;
  height = 0;
  sps = [];
  pps = [];
  vps = [];
  config = [];
}

param_sample : InitSegment → Time → List Bytes → Sample
unfolding no_params
param_sample init ts units = record {
  codec = init.codec;
  timestamp = ts;
  units = units;
  is_key = true;
  frame_type = frame_i;
  params = no_params;
}

lift_failed : {E A : Type 0} → Result E A → Result (SendError E) A
lift_failed (ok a) = ok a
lift_failed (err e) = err (failed e)

with_base : Time → RtpSender → RtpSender
with_base ts s = if is_zero s.base_time then record s { base_time = ts } else s

module _ {E W P : Type 0} (rtp : Rtp E W P) where
  unfoldable pub new_rtp_sender : Format → InitSegment → Result (SendError E) RtpSender
  unfolding lift_failed
  new_rtp_sender format init = do
    created ← lift_failed (rtp.create_encoder format)
    ok (record { format = format; base_time = zero_time; init = init })

  -- A call of Encode on a field, which panics if the field is nil.
  encode_with : Option Format → List Bytes → Result (SendError E) (List P)
  unfolding lift_failed
  encode_with none units = err nil_encoder
  encode_with (some encoder) units = lift_failed (rtp.encode encoder units)

  -- The switch of SendSample
  unfoldable pub encode_sample : Codec → List Bytes → Format → Result (SendError E) (List P)
  unfolding encode_with h264_enc h265_enc mp4v_enc
  encode_sample h264 units format = encode_with (h264_enc format) units
  encode_sample h265 units format = encode_with (h265_enc format) units
  encode_sample mpeg4 [] format = ok []
  encode_sample mpeg4 (unit ∷ units) format = encode_with (mp4v_enc format) (unit ∷ [])
  encode_sample (other_codec name) units format = err unsupported_codec

  go_on :
      (W → Result (SendError E) (Unit {0}) × W)
      → Result E (Unit {0}) × W
      → Result (SendError E) (Unit {0}) × W
  go_on next (ok done, w) = next w
  go_on next (err e, w) = (err (failed e), w)

  write_packets : ℕ → List P → W → Result (SendError E) (Unit {0}) × W
  unfolding go_on
  write_packets ts [] w = (ok tt, w)
  write_packets ts (p ∷ ps) w = go_on (write_packets ts ps) (rtp.write_packet ts p w)

  write_encoded : ℕ → Result (SendError E) (List P) → W → Result (SendError E) (Unit {0}) × W
  unfolding write_packets
  write_encoded ts (ok packets) w = write_packets ts packets w
  write_encoded ts (err e) w = (err e, w)

  unfoldable pub send_sample :
      Sample → RtpSender → W → RtpSender × Result (SendError E) (Unit {0}) × W
  unfolding write_encoded with_base encode_sample
  send_sample sample s w =
      let s' = with_base sample.timestamp s in
      let r =
        write_encoded (rtp.rtp_time sample.timestamp s'.base_time)
          (encode_sample sample.codec sample.units s.format) w in
      (s', r.0, r.1)

  unfoldable pub send_codec_params :
      Time → RtpSender → W → RtpSender × Result (SendError E) (Unit {0}) × W
  unfolding send_sample param_units param_sample
  send_codec_params ts s w =
      let units = param_units s.init in
      if length units == 0 then (s, ok tt, w) else send_sample (param_sample s.init ts units) s w
