-- ===== src/Tests/Data.antt =====
-- Test data.
use record_storage.Common.{ℕ, Bool, [], ◌∷◌, ◌+◌, ◌*◌, codes, true, false}
use record_storage.Clock.{Time, utc, epoch, second}
use record_storage.Sample.{h264, FrameType, frame_i, frame_p, CodecParameters, Sample}
use record_storage.Index.{GopMeta}
use record_storage.Writer.{WriteJob}

abbrev pub at_second : ℕ → Time
at_second n = record { instant = epoch + n * second; zone = utc }

abbrev pub params : CodecParameters
params = record {
  payload_type = 96;
  width = 640;
  height = 480;
  sps = 1 ∷ 2 ∷ [];
  pps = 3 ∷ [];
  vps = [];
  config = [];
}

abbrev pub sample : ℕ → Bool → FrameType → Sample
sample n is_key frame_type = record {
  codec = h264;
  timestamp = at_second n;
  units = (1 ∷ 2 ∷ 3 ∷ []) ∷ (4 ∷ []) ∷ [];
  is_key = is_key;
  frame_type = frame_type;
  params = params;
}

abbrev pub key_sample : Sample
key_sample = sample 10 true frame_i

abbrev pub next_sample : Sample
next_sample = sample 11 false frame_p

abbrev pub meta : GopMeta
meta = record {
  camera_id = codes "cam";
  start_time = at_second 10;
  end_time = at_second 11;
  object_key = codes "gop";
  init_key = [];
  size = 3;
  frame_count = 2;
  codec = codes "h264";
}

abbrev pub job : WriteJob
job = record { camera_id = codes "cam"; gop_data = 7 ∷ 8 ∷ 9 ∷ []; init_data = []; meta = meta }
