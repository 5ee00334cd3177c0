-- ===== src/Config/Defaults.antt =====
-- applyDefaults of internal/config/config.go. The default path of the index, which path/filepath makes
-- of the configuration's path, is a parameter.
use record_storage.Common.{
  ℕ, ◌*◌, ◌≡◌, refl, inl, inr, List, [], ◌∷◌, Bytes, codes, Bool-cases, if◌then◌else◌, arith,
}
use record_storage.Config.{
  Config, ServerConfig, MemoryConfig, SeaweedGrpcConfig, SeaweedFidPool, SeaweedCacheConfig,
  SeaweedFsConfig, IndexConfig, RecorderConfig, CameraConfig,
}
use record_storage.Config.Integer.{ℤ, pos, is_zero}

-- if n == 0 { n = d }
unfoldable pub or_number : ℕ → ℤ → ℤ
or_number d n = if is_zero n then pos d else n

-- if text == "" { text = d }
unfoldable pub or_text : Bytes → Bytes → Bytes
or_text d [] = d
or_text d (b ∷ bs) = b ∷ bs

server_defaults : ServerConfig → ServerConfig
server_defaults c = record {
  rtsp_playback_port = or_number 8554 c.rtsp_playback_port;
  api_port = or_number 8080 c.api_port;
  metrics_port = or_number 9090 c.metrics_port;
}

memory_defaults : MemoryConfig → MemoryConfig
memory_defaults c = record {
  max_memory_mb = or_number 4096 c.max_memory_mb;
  gop_buffer_pool_size = or_number (2 * 1024 * 1024) c.gop_buffer_pool_size;
}

grpc_defaults : SeaweedGrpcConfig → SeaweedGrpcConfig
grpc_defaults c = record c {
  keepalive_seconds = or_number 30 c.keepalive_seconds;
  max_recv_msg_mb = or_number 4 c.max_recv_msg_mb;
  max_send_msg_mb = or_number 4 c.max_send_msg_mb;
}

fid_pool_defaults : SeaweedFidPool → SeaweedFidPool
fid_pool_defaults c = record {
  batch_assign_count = or_number 100 c.batch_assign_count;
  low_watermark = or_number 20 c.low_watermark;
}

cache_defaults : SeaweedCacheConfig → SeaweedCacheConfig
cache_defaults c = record {
  volume_ttl_seconds = or_number 300 c.volume_ttl_seconds;
  entry_lru_size = or_number 10000 c.entry_lru_size;
  entry_ttl_seconds = or_number 120 c.entry_ttl_seconds;
}

storage_defaults : SeaweedFsConfig → SeaweedFsConfig
unfolding grpc_defaults fid_pool_defaults cache_defaults
storage_defaults c = record c {
  mode = or_text (codes "hybrid") c.mode;
  volume_http_scheme = or_text (codes "http") c.volume_http_scheme;
  grpc = grpc_defaults c.grpc;
  fid_pool = fid_pool_defaults c.fid_pool;
  cache = cache_defaults c.cache;
}

recorder_defaults : RecorderConfig → RecorderConfig
recorder_defaults c = record {
  segment_mode = or_text (codes "gop") c.segment_mode;
  chunk_max_gops = or_number 15 c.chunk_max_gops;
  async_writer_workers = or_number 4 c.async_writer_workers;
  async_writer_queue_size = or_number 256 c.async_writer_queue_size;
  retry_max = or_number 3 c.retry_max;
  retention_days = or_number 30 c.retention_days;
}

camera_defaults : List CameraConfig → List CameraConfig
camera_defaults [] = []
camera_defaults (c ∷ cs) =
    record c { transport = or_text (codes "auto") c.transport } ∷ camera_defaults cs

module _ (default_bolt_path : Bytes) where
  index_defaults : IndexConfig → IndexConfig
  index_defaults c = record {
    bolt_path = or_text default_bolt_path c.bolt_path;
    batch_interval_ms = or_number 100 c.batch_interval_ms;
    snapshot_interval = or_number 300 c.snapshot_interval;
  }

  unfoldable pub apply_defaults : Config → Config
  unfolding server_defaults memory_defaults storage_defaults index_defaults recorder_defaults
      camera_defaults
  apply_defaults c = record {
    server = server_defaults c.server;
    memory = memory_defaults c.memory;
    storage = storage_defaults c.storage;
    index = index_defaults c.index;
    recorder = recorder_defaults c.recorder;
    cameras = camera_defaults c.cameras;
  }

or_number-or_number : (d : ℕ) (n : ℤ) → or_number d (or_number d n) ≡ or_number d n
unfolding or_number
or_number-or_number d n = elim (Bool-cases (is_zero n)) [
  | inl t ↦ rw t (twice d)
  | inr t ↦ rw t (rw t refl)
]
  where
    twice : (d : ℕ) → (if is_zero (pos d) then pos d else pos d) ≡ pos d
    twice d = ground arith

or_text-or_text : (d text : Bytes) → or_text d (or_text d text) ≡ or_text d text
unfolding or_text
or_text-or_text [] [] = refl
or_text-or_text (x ∷ xs) [] = refl
or_text-or_text d (b ∷ bs) = refl

camera_defaults-camera_defaults :
    (cs : List CameraConfig) → camera_defaults (camera_defaults cs) ≡ camera_defaults cs
unfolding camera_defaults
camera_defaults-camera_defaults [] = refl
camera_defaults-camera_defaults (c ∷ cs) =
    rw (or_text-or_text (codes "auto") c.transport, camera_defaults-camera_defaults cs) refl

ruleset twice = (or_number-or_number, or_text-or_text, camera_defaults-camera_defaults)

-- Applying the defaults a second time changes nothing.
pub apply_defaults-apply_defaults :
    (default_bolt_path : Bytes) (c : Config)
    → apply_defaults default_bolt_path (apply_defaults default_bolt_path c)
      ≡ apply_defaults default_bolt_path c
unfolding apply_defaults
apply_defaults-apply_defaults default_bolt_path c = simp twice
