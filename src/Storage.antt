-- ===== src/Storage.antt =====
-- internal/storage: the errors and records of interface.go. The children model the hybrid backend.
pub mod ObjectKey
pub mod Hybrid
pub mod Filer
pub mod Master
pub mod Http
use record_storage.Common.{ℕ, Bytes}

-- ErrNotFound, ErrInvalidFID, ErrEntryPendingCompensation, ErrStorageDegraded,
-- ErrVolumeRouteNotFound, context.Canceled, an error that wraps the one of a failed fallback, and any
-- other error with its text
pub data StorageError : Type 0 where
  not_found invalid_fid entry_pending_compensation storage_degraded : StorageError
  volume_route_not_found canceled : StorageError
  both_failed : StorageError → StorageError
  other_error : Bytes → StorageError

pub record AssignResult : Type 0 where
  pub fid : Bytes
  pub volume_id : Bytes
  pub volume_url : Bytes
  pub auth_token : Bytes

pub record VolumeLocation : Type 0 where
  pub url : Bytes
  pub public_url : Bytes
  pub auth_token : Bytes

-- CreatedAt and ModifiedAt are int64 patterns.
pub record EntryMeta : Type 0 where
  pub key : Bytes
  pub file_id : Bytes
  pub volume_id : Bytes
  pub size : ℕ
  pub mime_type : Bytes
  pub created_at : ℕ
  pub modified_at : ℕ
  pub etag : Bytes
