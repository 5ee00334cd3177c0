-- ===== src/Tests/Configuring.antt =====
-- internal/config/config.go at a concrete configuration.
use record_storage.Common.{
  ◌≡◌, refl, true, false, Option, some, [], ◌∷◌, Bytes, bytes_eq, codes, ok,
}
use record_storage.Schedule.Match.{parse_clock_minutes, minutes_from, two_digits}
use record_storage.Playback.Request.Text.{to_lower, trim_space}
use record_storage.Config.{Config, CameraConfig}
use record_storage.Config.Integer.{pos}
use record_storage.Config.Defaults.{or_number, or_text, apply_defaults}
use record_storage.Config.Validate.{
  Url, check, seen_before, validate_schedule, valid_transport, normalized, validate_port,
  validate_rtsp_url, validate_cameras, validate_storage, validate_recorder, validate,
}
use record_storage.Config.Valid.{IsValid, validate-IsValid}

abbrev camera : CameraConfig
camera = record {
  id = codes "cam";
  rtsp_url = codes "rtsp://host";
  transport = [];
  enabled = true;
  auto_start = true;
  schedule = record { weekdays = []; start = codes "08:00"; end = codes "9:30" } ∷ [];
}

abbrev config : Config
config = record {
  server = record { rtsp_playback_port = pos 0; api_port = pos 80; metrics_port = pos 0 };
  memory = record { max_memory_mb = pos 0; gop_buffer_pool_size = pos 0 };
  storage = record {
    mode = codes "Filer_HTTP";
    filer_http_url = codes "http://filer";
    master_grpc_addrs = [];
    filer_grpc_addrs = [];
    volume_http_scheme = [];
    grpc = record {
      keepalive_seconds = pos 0;
      max_recv_msg_mb = pos 0;
      max_send_msg_mb = pos 0;
      master_pool_size = pos 0;
      filer_pool_size = pos 0;
    };
    fid_pool = record { batch_assign_count = pos 0; low_watermark = pos 0 };
    cache = record {
      volume_ttl_seconds = pos 0;
      entry_lru_size = pos 0;
      entry_ttl_seconds = pos 0;
    };
    security = record {
      enable_mtls = false;
      ca_file = [];
      cert_file = [];
      key_file = [];
      jwt_token = [];
    };
  };
  index = record { bolt_path = []; batch_interval_ms = pos 0; snapshot_interval = pos 0 };
  recorder = record {
    segment_mode = [];
    chunk_max_gops = pos 0;
    async_writer_workers = pos 0;
    async_writer_queue_size = pos 0;
    retry_max = pos 0;
    retention_days = pos 0;
  };
  cameras = camera ∷ record camera { id = codes "door" } ∷ [];
}

abbrev with_defaults : Config
with_defaults = apply_defaults (codes "data/recordings.db") config

parse_url : Bytes → Option Url
parse_url text = some (record { scheme = codes "rtsp"; host = codes "host" })

accepted : validate parse_url with_defaults ≡ ok tt
unfolding parse_url validate validate_port check apply_defaults or_number validate_storage bytes_eq
    normalized to_lower trim_space or_text validate_recorder validate_cameras seen_before
    validate_rtsp_url valid_transport validate_schedule parse_clock_minutes minutes_from two_digits
accepted = refl

validate-IsValid_example : IsValid with_defaults
validate-IsValid_example = validate-IsValid parse_url with_defaults accepted
