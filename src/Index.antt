-- ===== src/Index.antt =====
-- internal/index: the records of interface.go. The children model the bbolt index.
pub mod Bolt
pub mod Cursor
pub mod Keys
pub mod Ranges
pub mod Store
use record_storage.Common.{ℕ, List, Bytes}
use record_storage.Clock.{Time}

pub record GopMeta : Type 0 where
  pub camera_id : Bytes
  pub start_time : Time
  pub end_time : Time
  pub object_key : Bytes
  pub init_key : Bytes
  pub size : ℕ
  pub frame_count : ℕ
  pub codec : Bytes

pub record RecordingEvent : Type 0 where
  pub event_type : Bytes
  pub timestamp : Time
  pub metadata : List (Bytes × Bytes)

pub record TimeRange : Type 0 where
  pub start : Time
  pub end : Time
