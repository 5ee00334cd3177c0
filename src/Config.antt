-- ===== src/Config.antt =====
-- internal/config/config.go: the configuration, its defaults and Validate. An int is an integer.
pub mod Defaults
pub mod Integer
pub mod Validate
pub mod Valid
use record_storage.Common.{ℕ, ◌*◌, Bool, List, Bytes}
use record_storage.Clock.{millisecond}
use record_storage.Schedule.Match.{ScheduleConfig}
use record_storage.Config.Integer.{ℤ}

pub record ServerConfig : Type 0 where
  pub rtsp_playback_port : ℤ
  pub api_port : ℤ
  pub metrics_port : ℤ

pub record MemoryConfig : Type 0 where
  pub max_memory_mb : ℤ
  pub gop_buffer_pool_size : ℤ

pub record SeaweedGrpcConfig : Type 0 where
  pub keepalive_seconds : ℤ
  pub max_recv_msg_mb : ℤ
  pub max_send_msg_mb : ℤ
  pub master_pool_size : ℤ
  pub filer_pool_size : ℤ

pub record SeaweedFidPool : Type 0 where
  pub batch_assign_count : ℤ
  pub low_watermark : ℤ

pub record SeaweedCacheConfig : Type 0 where
  pub volume_ttl_seconds : ℤ
  pub entry_lru_size : ℤ
  pub entry_ttl_seconds : ℤ

pub record SeaweedSecurity : Type 0 where
  pub enable_mtls : Bool
  pub ca_file : Bytes
  pub cert_file : Bytes
  pub key_file : Bytes
  pub jwt_token : Bytes

pub record SeaweedFsConfig : Type 0 where
  pub mode : Bytes
  pub filer_http_url : Bytes
  pub master_grpc_addrs : List Bytes
  pub filer_grpc_addrs : List Bytes
  pub volume_http_scheme : Bytes
  pub grpc : SeaweedGrpcConfig
  pub fid_pool : SeaweedFidPool
  pub cache : SeaweedCacheConfig
  pub security : SeaweedSecurity

pub record IndexConfig : Type 0 where
  pub bolt_path : Bytes
  pub batch_interval_ms : ℤ
  pub snapshot_interval : ℤ

pub record RecorderConfig : Type 0 where
  pub segment_mode : Bytes
  pub chunk_max_gops : ℤ
  pub async_writer_workers : ℤ
  pub async_writer_queue_size : ℤ
  pub retry_max : ℤ
  pub retention_days : ℤ

pub record CameraConfig : Type 0 where
  pub id : Bytes
  pub rtsp_url : Bytes
  pub transport : Bytes
  pub enabled : Bool
  pub auto_start : Bool
  pub schedule : List ScheduleConfig

-- StorageConfig holds nothing but the configuration of SeaweedFS.
pub record Config : Type 0 where
  pub server : ServerConfig
  pub memory : MemoryConfig
  pub storage : SeaweedFsConfig
  pub index : IndexConfig
  pub recorder : RecorderConfig
  pub cameras : List CameraConfig
