-- ===== src/Config/Validate.antt =====
-- Validate of internal/config/config.go, without the warnings it logs. url.Parse is a parameter.
use record_storage.Common.{
  ◌==◌, Bool, true, false, not, ◌&&◌, ◌||◌, Option, none, some, List, [], ◌∷◌, Bytes, codes,
  bytes_eq, length, Result, ok, err, ◌>>◌, if◌then◌else◌,
}
use record_storage.Schedule.Match.{ScheduleConfig, parse_clock_minutes}
use record_storage.Playback.Request.Text.{to_lower, trim_space}
use record_storage.Config.{Config, CameraConfig, SeaweedFsConfig, RecorderConfig}
use record_storage.Config.Integer.{ℤ, is_positive, at_most}

pub data ConfigError : Type 0 where
  invalid_port invalid_storage_mode missing_filer_http_url invalid_filer_http_url : ConfigError
  missing_master_addrs missing_filer_addrs missing_bolt_path : ConfigError
  no_workers no_queue invalid_segment_mode no_cameras : ConfigError
  missing_camera_id duplicate_camera_id : ConfigError
  missing_rtsp_url invalid_rtsp_url unsupported_scheme missing_host : ConfigError
  invalid_transport invalid_schedule_start invalid_schedule_end : ConfigError

pub record Url : Type 0 where
  pub scheme : Bytes
  pub host : Bytes

-- if !good { return failure }
unfoldable pub check : Bool → ConfigError → Result ConfigError (Unit {0})
check true failure = ok tt
check false failure = err failure

abbrev pub is_empty : Bytes → Bool
is_empty text = length text == 0

abbrev pub parsed : {A : Type 0} → Option A → Bool
parsed none = false
parsed (some a) = true

unfoldable pub validate_port : ℤ → Result ConfigError (Unit {0})
validate_port port = check (is_positive port && at_most port 65535) invalid_port

-- strings.ToLower(strings.TrimSpace(text))
unfoldable pub normalized : Bytes → Bytes
normalized text = to_lower (trim_space text)

unfoldable pub seen_before : Bytes → List Bytes → Bool
seen_before id [] = false
seen_before id (x ∷ xs) = bytes_eq id x || seen_before id xs

unfoldable pub validate_schedule : List ScheduleConfig → Result ConfigError (Unit {0})
validate_schedule [] = ok tt
validate_schedule (s ∷ ss) =
    check (parsed (parse_clock_minutes s.start)) invalid_schedule_start
    >> (check (parsed (parse_clock_minutes s.end)) invalid_schedule_end >> validate_schedule ss)

unfoldable pub valid_transport : Bytes → Bool
valid_transport text =
    bytes_eq text (codes "auto") || bytes_eq text (codes "tcp") || bytes_eq text (codes "udp")

module _ (parse_url : Bytes → Option Url) where
  validate_url : Option Url → Result ConfigError (Unit {0})
  validate_url none = err invalid_rtsp_url
  validate_url (some u) =
      check (bytes_eq u.scheme (codes "rtsp") || bytes_eq u.scheme (codes "rtsps"))
        unsupported_scheme
      >> check (not (is_empty u.host)) missing_host

  unfoldable pub validate_rtsp_url : Bytes → Result ConfigError (Unit {0})
  unfolding validate_url
  validate_rtsp_url raw =
      check (not (is_empty raw)) missing_rtsp_url >> validate_url (parse_url raw)

  -- The loop over the cameras, with the ids that were seen.
  unfoldable pub validate_cameras : List Bytes → List CameraConfig → Result ConfigError (Unit {0})
  validate_cameras seen [] = ok tt
  validate_cameras seen (c ∷ cs) =
      check (not (is_empty (trim_space c.id))) missing_camera_id
      >> (check (not (seen_before c.id seen)) duplicate_camera_id
          >> (validate_rtsp_url c.rtsp_url
              >> (check (valid_transport (normalized c.transport)) invalid_transport
                  >> (validate_schedule c.schedule >> validate_cameras (c.id ∷ seen) cs))))

  unfoldable pub validate_storage : SeaweedFsConfig → Result ConfigError (Unit {0})
  validate_storage c =
      check
        (bytes_eq (normalized c.mode) (codes "hybrid")
          || bytes_eq (normalized c.mode) (codes "filer_http"))
        invalid_storage_mode
      >> (check (not (is_empty c.filer_http_url)) missing_filer_http_url
          >> (check (parsed (parse_url c.filer_http_url)) invalid_filer_http_url
              >> (if bytes_eq (normalized c.mode) (codes "hybrid")
                  then (check (not (length c.master_grpc_addrs == 0)) missing_master_addrs
                      >> check (not (length c.filer_grpc_addrs == 0)) missing_filer_addrs)
                  else ok tt)))

  unfoldable pub validate_recorder : RecorderConfig → Result ConfigError (Unit {0})
  validate_recorder c =
      check (is_positive c.async_writer_workers) no_workers
      >> (check (is_positive c.async_writer_queue_size) no_queue
          >> check
              (bytes_eq c.segment_mode (codes "gop") || bytes_eq c.segment_mode (codes "chunk"))
              invalid_segment_mode)

  unfoldable pub validate : Config → Result ConfigError (Unit {0})
  validate c =
      validate_port c.server.rtsp_playback_port
      >> (validate_port c.server.api_port
          >> (validate_port c.server.metrics_port
              >> (validate_storage c.storage
                  >> (check (not (is_empty c.index.bolt_path)) missing_bolt_path
                      >> (validate_recorder c.recorder
                          >> (check (not (length c.cameras == 0)) no_cameras
                              >> validate_cameras [] c.cameras))))))
