-- ===== src/Storage/Master.antt =====
-- GRPCMasterClient of internal/storage/grpc_master_client.go. The stub that the protobuf compiler
-- makes is a parameter, which answers within the deadline or with an error.
use record_storage.Common.{
  ℕ, ◌==◌, Bool, ◌||◌, Option, none, some, List, [], ◌∷◌, ◌++◌, Bytes, bytes_eq, starts_with, codes,
  length, Result, ok, err, if◌then◌else◌,
}
use record_storage.Playback.Request.Text.{trim_space}
use record_storage.Storage.{
  StorageError, volume_route_not_found, other_error, AssignResult, VolumeLocation,
}
use record_storage.Storage.Hybrid.State.{Call}
use record_storage.Storage.Hybrid.Objects.{parse_volume_id}
use record_storage.Storage.Filer.{RpcError, classify_grpc_error, answered}

pub record AssignParams : Type 0 where
  pub count : ℕ
  pub collection : Bytes
  pub replication : Bytes
  pub ttl : Bytes
  pub data_center : Bytes
  pub rack : Bytes
  pub data_node : Bytes
  pub disk_type : Bytes

-- master_pb.Location, AssignResponse and VolumeIdLocation, with the fields that the client reads
pub record Location : Type 0 where
  pub url : Bytes
  pub public_url : Bytes

pub record AssignResponse : Type 0 where
  pub error : Bytes
  pub fid : Bytes
  pub auth : Bytes
  pub location : Option Location

pub record VolumeIdLocation : Type 0 where
  pub volume_or_file_id : Bytes
  pub locations : List Location
  pub auth : Bytes

-- The fields of an AssignRequest are those of AssignParams.
pub record MasterStub (W : Type 0) : Type 0 where
  pub assign : AssignParams → W → Result RpcError AssignResponse × W
  pub lookup_volume : List Bytes → W → Result RpcError (List VolumeIdLocation) × W
  pub ping : W → Result RpcError (Unit {0}) × W

has_scheme : Bytes → Bool
has_scheme target = starts_with (codes "http://") target || starts_with (codes "https://") target

with_scheme : Bytes → Bytes
unfolding has_scheme
with_scheme target = if has_scheme target then target else codes "http://" ++ target

unfoldable pub build_http_url : Bytes → Bytes → Bytes
unfolding with_scheme
build_http_url public_url internal_url =
    let target = trim_space public_url in
    with_scheme (if length target == 0 then trim_space internal_url else target)

unfoldable pub assigned_at : AssignResponse → Option Location → Result StorageError AssignResult
unfolding build_http_url
assigned_at response none = err volume_route_not_found
assigned_at response (some location) =
    if length location.url == 0
    then err volume_route_not_found
    else ok (record {
      fid = response.fid;
      volume_id = parse_volume_id response.fid;
      volume_url = build_http_url location.public_url location.url;
      auth_token = response.auth;
    })

unfoldable pub assign_answer : Result RpcError AssignResponse → Result StorageError AssignResult
unfolding assigned_at classify_grpc_error
assign_answer (err e) = err (classify_grpc_error e)
assign_answer (ok response) =
    if length response.error == 0
    then assigned_at response response.location
    else err (other_error (codes "assign failed: " ++ response.error))

unfoldable pub volume_locations : Bytes → List Location → List VolumeLocation
unfolding build_http_url
volume_locations auth [] = []
volume_locations auth (location ∷ rest) =
    record {
      url = build_http_url location.public_url location.url;
      public_url = location.public_url;
      auth_token = auth;
    }
    ∷ volume_locations auth rest

-- The map of the results, from the ids that precede: a later item of an id replaces an earlier one.
unfoldable pub located :
    List VolumeIdLocation → (Bytes → List VolumeLocation) → Bytes → List VolumeLocation
unfolding volume_locations
located [] before = before
located (item ∷ items) before = located items λ id.
    if bytes_eq id item.volume_or_file_id
    then volume_locations item.auth item.locations
    else before id

unfoldable pub lookup_answer :
    Result RpcError (List VolumeIdLocation) → Result StorageError (Bytes → List VolumeLocation)
unfolding located classify_grpc_error
lookup_answer (err e) = err (classify_grpc_error e)
lookup_answer (ok items) = ok (located items λ id. [])

module _ {W : Type 0} (stub : MasterStub W) where
  unfoldable pub assign : AssignParams → Call W AssignResult
  unfolding assign_answer
  assign params w = let (r, w') = stub.assign params w in (assign_answer r, w')

  unfoldable pub lookup_volume : List Bytes → Call W (Bytes → List VolumeLocation)
  unfolding lookup_answer
  lookup_volume ids w = let (r, w') = stub.lookup_volume ids w in (lookup_answer r, w')

  unfoldable pub ping : Call W (Unit {0})
  unfolding answered
  ping w = let (r, w') = stub.ping w in (answered r, w')
