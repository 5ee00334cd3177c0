-- ===== src/Storage/Filer.antt =====
-- GRPCFilerClient of internal/storage/grpc_filer_client.go. The stub that the protobuf compiler makes
-- is a parameter, which answers within the deadline or with an error; so is Go's path package.
pub mod Lookup
use record_storage.Common.{
  ℕ, ◌+◌, ◌-◌, ◌*◌, ◌/◌, ◌%◌, ◌==◌, Bool, true, false, ◌&&◌, Option, none, some, List, [], ◌∷◌,
  ◌++◌, Bytes, bytes_eq, codes, length, ltb, leb, Result, ok, err, ◌>>=◌, if◌then◌else◌,
}
use record_storage.Common.Words.{u32, half64, u64, u64_mod}
use record_storage.Clock.{second}
use record_storage.Playback.Request.Text.{trim_space, trim_prefix}
use record_storage.Storage.{StorageError, not_found, EntryMeta}
use record_storage.Storage.Hybrid.State.{Call}
use record_storage.Storage.Hybrid.Objects.{parse_volume_id}
use mathlib.Core.List.{reverse}

pub record PathLibrary : Type 0 where
  pub dir : Bytes → Bytes
  pub base : Bytes → Bytes
  pub join : Bytes → Bytes → Bytes

-- An error of a call with the status NotFound, with another status, and one without a status
pub data RpcError : Type 0 where
  status_not_found : RpcError
  other_status : StorageError → RpcError
  no_status : StorageError → RpcError

unfoldable pub classify_grpc_error : RpcError → StorageError
classify_grpc_error status_not_found = not_found
classify_grpc_error (other_status e) = e
classify_grpc_error (no_status e) = e

-- filer_pb.FuseAttributes, FileChunk and Entry, with the fields that the client reads or writes;
-- integers of 64 bits are patterns. A map of byte strings is a function, which gives the empty string
-- at a missing key, as reading a Go map does.
pub record FuseAttributes : Type 0 where
  pub file_size : ℕ
  pub mtime : ℕ
  pub crtime : ℕ
  pub mime : Bytes

pub record FileChunk : Type 0 where
  pub file_id : Bytes
  pub offset : ℕ
  pub size : ℕ
  pub modified_ts_ns : ℕ
  pub etag : Bytes

pub record Entry : Type 0 where
  pub name : Bytes
  pub attributes : Option FuseAttributes
  pub chunks : List FileChunk
  pub extended : Option (Bytes → Bytes)

pub record FilerStub (W : Type 0) : Type 0 where
  pub create_entry : Bytes → Entry → Bool → W → Result RpcError (Unit {0}) × W
  pub lookup_directory_entry : Bytes → Bytes → W → Result RpcError (Option Entry) × W
  pub delete_entry : Bytes → Bytes → Bool → Bool → W → Result RpcError (Unit {0}) × W
  -- what the stream receives, up to its end
  pub list_entries :
      Bytes → Bytes → Bytes → ℕ → W → Result RpcError (List (Result RpcError (Option Entry))) × W
  pub ping : W → Result RpcError (Unit {0}) × W

-- An int64 divided by, or multiplied by, the nanoseconds of a second. The division truncates.
unfoldable pub to_seconds : ℕ → ℕ
to_seconds n = if ltb n half64 then n / second else u64 (u64_mod - (u64_mod - n) / second)

unfoldable pub from_seconds : ℕ → ℕ
from_seconds n = u64 (n * second)

-- strings.TrimSuffix(text, "/")
unfoldable pub trim_slash : Bytes → Bytes
trim_slash bs = reverse (trim_prefix (reverse bs) (codes "/"))

unfoldable pub entry_of : Bytes → EntryMeta → Entry
unfolding to_seconds
entry_of name meta = record {
  name = name;
  attributes = some (record {
    file_size = meta.size;
    mtime = to_seconds meta.modified_at;
    crtime = to_seconds meta.created_at;
    mime = meta.mime_type;
  });
  chunks =
      record {
        file_id = meta.file_id;
        offset = 0;
        size = meta.size;
        modified_ts_ns = meta.modified_at;
        etag = meta.etag;
      }
      ∷ [];
  extended = some (λ key. if bytes_eq key (codes "volume_id") then meta.volume_id else []);
}

-- EntryMeta{Key: key}
abbrev pub meta_of_key : Bytes → EntryMeta
meta_of_key key = record {
  key = key;
  file_id = [];
  volume_id = [];
  size = 0;
  mime_type = [];
  created_at = 0;
  modified_at = 0;
  etag = [];
}

unfoldable pub take_attributes : Option FuseAttributes → EntryMeta → EntryMeta
unfolding from_seconds
take_attributes none meta = meta
take_attributes (some a) meta = record meta {
  size = a.file_size;
  mime_type = a.mime;
  created_at = from_seconds a.crtime;
  modified_at = from_seconds a.mtime;
}

unfoldable pub take_chunk : List FileChunk → EntryMeta → EntryMeta
take_chunk [] meta = meta
take_chunk (chunk ∷ chunks) meta = record meta { file_id = chunk.file_id; etag = chunk.etag }

-- Of LookupEntry only: the size of the first chunk where the attributes give none.
unfoldable pub take_size : List FileChunk → EntryMeta → EntryMeta
take_size [] meta = meta
take_size (chunk ∷ chunks) meta = record meta {
  size = if meta.size == 0 then chunk.size else meta.size;
}

unfoldable pub take_extended : Option (Bytes → Bytes) → EntryMeta → EntryMeta
take_extended none meta = meta
take_extended (some extended) meta = record meta { volume_id = extended (codes "volume_id") }

unfoldable pub take_volume : EntryMeta → EntryMeta
take_volume meta = record meta {
  volume_id = if length meta.volume_id == 0 then parse_volume_id meta.file_id else meta.volume_id;
}

unfoldable pub looked_up : Bytes → Option Entry → Result StorageError EntryMeta
unfolding take_attributes take_chunk take_size take_extended take_volume
looked_up key none = err not_found
looked_up key (some entry) = ok (
    take_volume (
      take_extended entry.extended (
        take_size entry.chunks
          (take_chunk entry.chunks (take_attributes entry.attributes (meta_of_key key))))))

unfoldable pub entry_to_meta : Bytes → Option Entry → Result StorageError EntryMeta
unfolding take_attributes take_chunk take_extended take_volume
entry_to_meta key none = err not_found
entry_to_meta key (some entry) = ok (
    take_volume (
      take_extended entry.extended
        (take_chunk entry.chunks (take_attributes entry.attributes (meta_of_key key)))))

-- if err != nil { return classifyGRPCError(err) }
unfoldable pub answered : {A : Type 0} → Result RpcError A → Result StorageError A
unfolding classify_grpc_error
answered (ok a) = ok a
answered (err e) = err (classify_grpc_error e)

unfoldable pub lookup_answer :
    Bytes → Result RpcError (Option Entry) → Result StorageError EntryMeta
unfolding classify_grpc_error looked_up
lookup_answer key (ok entry) = looked_up key entry
lookup_answer key (err e) = err (classify_grpc_error e)

module _ (paths : PathLibrary) where
  unfoldable pub split_object_key : Bytes → Bytes × Bytes
  split_object_key key =
      let clean = b'/' ∷ trim_prefix (trim_space key) (codes "/") in
      (paths.dir clean, paths.base clean)

  -- The loop over the stream
  unfoldable pub receive :
      Bytes → List (Result RpcError (Option Entry)) → Result StorageError (List EntryMeta)
  unfolding entry_to_meta classify_grpc_error trim_slash
  receive dir [] = ok []
  receive dir (err e ∷ rest) = err (classify_grpc_error e)
  receive dir (ok none ∷ rest) = receive dir rest
  receive dir (ok (some entry) ∷ rest) = do
    meta ← entry_to_meta (paths.join (trim_slash dir) entry.name) (some entry)
    metas ← receive dir rest
    ok (meta ∷ metas)

  unfoldable pub stream_answer :
      Bytes
      → ℕ
      → Result RpcError (List (Result RpcError (Option Entry)))
      → Result StorageError (List EntryMeta × Bool)
  unfolding receive classify_grpc_error
  stream_answer dir limit (err e) = err (classify_grpc_error e)
  stream_answer dir limit (ok stream) = do
    metas ← receive dir stream
    ok (metas, leb limit (length metas) && ltb 0 limit)

  module _ {W : Type 0} (stub : FilerStub W) where
    unfoldable pub create_entry : EntryMeta → Call W (Unit {0})
    unfolding split_object_key entry_of answered
    create_entry meta w =
        let (dir, name) = split_object_key meta.key in
        let (r, w') = stub.create_entry dir (entry_of name meta) true w in (answered r, w')

    unfoldable pub lookup_entry : Bytes → Call W EntryMeta
    unfolding split_object_key lookup_answer
    lookup_entry key w =
        let (dir, name) = split_object_key key in
        let (r, w') = stub.lookup_directory_entry dir name w in (lookup_answer key r, w')

    unfoldable pub delete_entry : Bytes → Bool → Call W (Unit {0})
    unfolding split_object_key answered
    delete_entry key recursive w =
        let (dir, name) = split_object_key key in
        let (r, w') = stub.delete_entry dir name true recursive w in (answered r, w')

    unfoldable pub list_entries : Bytes → ℕ → Bytes → Call W (List EntryMeta × Bool)
    unfolding split_object_key stream_answer trim_slash
    list_entries prefix limit start_from w =
        let (dir, start_name) = split_object_key (trim_slash prefix ++ codes "/") in
        let start = if length start_from == 0 then start_name else paths.base start_from in
        let (r, w') =
          stub.list_entries (trim_slash dir) (paths.base (trim_slash prefix)) start (u32 limit) w in
        (stream_answer dir limit r, w')

    unfoldable pub ping : Call W (Unit {0})
    unfolding answered
    ping w = let (r, w') = stub.ping w in (answered r, w')
