-- ===== src/Puller/Packets.antt =====
-- handleH264, handleH265 and handleMPEG4 of internal/puller/rtsp_puller.go. The numbers of the NAL
-- unit types and the start code are mediacommon's, and PacketPTS and Decode are gortsplib's: they are
-- parameters.
use record_storage.Common.{
  ℕ, ◌/◌, ◌%◌, ◌==◌, Bool, true, false, ◌||◌, Option, none, some, List, [], ◌∷◌, Bytes, starts_with,
  if◌then◌else◌,
}
use record_storage.Clock.{Time, add, is_zero}
use record_storage.Sample.{
  Codec, h264, h265, mpeg4, CodecParameters, FrameType, frame_i, frame_p, Sample,
}

pub record H264Types : Type 0 where
  pub idr : ℕ
  pub sps : ℕ
  pub pps : ℕ

pub record H265Types : Type 0 where
  pub idr_w_radl : ℕ
  pub idr_n_lp : ℕ
  pub cra : ℕ
  pub vps : ℕ
  pub sps : ℕ
  pub pps : ℕ

-- What a packet leads to: nothing, a call of onSample, or a Go panic.
pub data Handled : Type 0 where
  dropped panicked : Handled
  delivered : Sample → Handled

-- nalu[0] & 0x1F and (nalu[0] >> 1) & 0b111111
abbrev pub h264_type : ℕ → ℕ
h264_type b = b % 32

abbrev pub h265_type : ℕ → ℕ
h265_type b = b / 2 % 64

unfoldable pub is_h264_key : H264Types → List Bytes → Bool
is_h264_key types [] = false
is_h264_key types ([] ∷ units) = is_h264_key types units
is_h264_key types ((b ∷ bs) ∷ units) =
    (h264_type b == types.idr)
    || (h264_type b == types.sps)
    || (h264_type b == types.pps)
    || is_h264_key types units

h265_key_type : H265Types → ℕ → Bool
h265_key_type types n =
    (n == types.idr_w_radl)
    || (n == types.idr_n_lp)
    || (n == types.cra)
    || (n == types.vps)
    || (n == types.sps)
    || (n == types.pps)

unfoldable pub is_h265_key : H265Types → List Bytes → Bool
unfolding h265_key_type
is_h265_key types [] = false
is_h265_key types ([] ∷ units) = is_h265_key types units
is_h265_key types ((b ∷ []) ∷ units) = is_h265_key types units
is_h265_key types ((b ∷ c ∷ bs) ∷ units) =
    h265_key_type types (h265_type b) || is_h265_key types units

-- bytes.Contains
unfoldable pub contains : Bytes → Bytes → Bool
contains part [] = starts_with part []
contains part (b ∷ bs) = starts_with part (b ∷ bs) || contains part bs

unfoldable pub frame_type_from_key : Bool → FrameType
frame_type_from_key true = frame_i
frame_type_from_key false = frame_p

-- The loop over the units that takes over their parameter sets; none is the panic on nalu[0].
unfoldable pub take_h264_params : H264Types → List Bytes → CodecParameters → Option CodecParameters
take_h264_params types [] params = some params
take_h264_params types ([] ∷ units) params = none
take_h264_params types ((b ∷ bs) ∷ units) params = take_h264_params types units (
    if h264_type b == types.sps
    then record params { sps = b ∷ bs }
    else if h264_type b == types.pps
    then record params { pps = b ∷ bs }
    else params)

unfoldable pub take_h265_params : H265Types → List Bytes → CodecParameters → Option CodecParameters
take_h265_params types [] params = some params
take_h265_params types ([] ∷ units) params = none
take_h265_params types ((b ∷ bs) ∷ units) params = take_h265_params types units (
    if h265_type b == types.vps
    then record params { vps = b ∷ bs }
    else if h265_type b == types.sps
    then record params { sps = b ∷ bs }
    else if h265_type b == types.pps
    then record params { pps = b ∷ bs }
    else params)

-- timestampFromPTS; `now` is time.Now()
unfoldable pub timestamp_from_pts : Time → Time → ℕ → Time
timestamp_from_pts now base_time pts = add (if is_zero base_time then now else base_time) pts

unfoldable pub deliver : Codec → Time → List Bytes → Bool → Option CodecParameters → Handled
unfolding frame_type_from_key
deliver codec timestamp units is_key none = panicked
deliver codec timestamp units is_key (some params) = delivered (record {
  codec = codec;
  timestamp = timestamp;
  units = units;
  is_key = is_key;
  frame_type = frame_type_from_key is_key;
  params = params;
})

module _ (now base_time : Time) where
  -- What PacketPTS and Decode gave, and the parameters of the format.
  unfoldable pub handle_h264 :
      H264Types → Option ℕ → Option (List Bytes) → CodecParameters → Handled
  unfolding deliver
  handle_h264 types (some pts) (some units) params =
      deliver h264 (timestamp_from_pts now base_time pts) units (is_h264_key types units)
        (take_h264_params types units params)
  handle_h264 types (some pts) none params = dropped
  handle_h264 types none decoded params = dropped

  unfoldable pub handle_h265 :
      H265Types → Option ℕ → Option (List Bytes) → CodecParameters → Handled
  unfolding deliver
  handle_h265 types (some pts) (some units) params =
      deliver h265 (timestamp_from_pts now base_time pts) units (is_h265_key types units)
        (take_h265_params types units params)
  handle_h265 types (some pts) none params = dropped
  handle_h265 types none decoded params = dropped

  -- `code` is byte(mpeg4video.GroupOfVOPStartCode).
  unfoldable pub handle_mpeg4 : ℕ → Option ℕ → Option Bytes → CodecParameters → Handled
  unfolding deliver
  handle_mpeg4 code (some pts) (some (b ∷ bs)) params =
      deliver mpeg4 (timestamp_from_pts now base_time pts) ((b ∷ bs) ∷ [])
        (contains (0 ∷ 0 ∷ 1 ∷ code ∷ []) (b ∷ bs)) (some params)
  handle_mpeg4 code (some pts) (some []) params = dropped
  handle_mpeg4 code (some pts) none params = dropped
  handle_mpeg4 code none decoded params = dropped
