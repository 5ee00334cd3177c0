-- ===== src/Index/Store.antt =====
-- internal/index/bolt_index.go: BoltIndex over bbolt's buckets. encoding/json is the parameters
-- `encode`, `encode_event` and `decode`, FNV-1a the parameter `hash`. An update is a transaction: an
-- error (err) leaves the index as it was, so the new index comes with success only.
pub mod Days
pub mod Emptied
pub mod Deleting
pub mod Found
pub mod Migrated
pub mod Put
pub mod Written
use record_storage.Common.{
  ℕ, ◌-◌, ◌<◌, ◌==◌, ltb, Bool, true, false, ◌&&◌, ◌||◌, not, Option, none, some, List, [], ◌∷◌,
  ◌++◌, Bytes, bytes_eq, starts_with, Result, ok, err, ◌>>=◌, ◌>>◌, if◌then◌else◌, codes,
}
use record_storage.Common.Words.{half64, u64_mod}
use record_storage.Common.Decimal.{signed_decimal}
use record_storage.Clock.{Time, before, after, date_of, truncate_day, add, day, unix_nano}
use record_storage.Index.{GopMeta, RecordingEvent}
use record_storage.Index.Bolt.{Bolt, Entry}
use record_storage.Index.Cursor.{walk, keep}
use record_storage.Index.Keys.{make_binary_key}
use record_storage.Index.Store.Days.{query_days}

pub record WriteItem : Type 0 where
  pub camera_id : Bytes
  pub meta : GopMeta

unfoldable pub make_gop_key : Bytes → Time → Bytes
make_gop_key camera_id t = camera_id ++ (b':' ∷ signed_decimal (unix_nano t))

unfoldable pub make_event_key : Bytes → Time → Bytes
make_event_key camera_id t = camera_id ++ (b':' ∷ signed_decimal (unix_nano t))

-- What the program takes from bbolt, encoding/json and hash/fnv.
pub record Deps (E : Type 0) : Type 1 where
  pub bolt : Bolt E
  pub encode : GopMeta → Result E Bytes
  pub encode_event : RecordingEvent → Result E Bytes
  pub decode : Bytes → Option GopMeta
  pub hash : Bytes → ℕ

-- The bucket "gop_v2" holds a bucket for each camera, which holds a bucket for each date.
abbrev pub Dates : Type 0 → Type 0
Dates Bucket = ℕ → Option Bucket

pub record BoltIndex (Bucket : Type 0) : Type 0 where
  pub use_v2 : Bool
  pub gops : Bucket
  pub cameras : Bytes → Option (Dates Bucket)
  pub events : Bucket

unfoldable pub new_bolt_index : {E : Type 0} (d : Deps E) → BoltIndex d.bolt.Bucket
new_bolt_index d = record {
  use_v2 = true;
  gops = d.bolt.empty;
  cameras = λ camera. none;
  events = d.bolt.empty;
}

unfoldable pub dates_of : {B : Type 0} → Option (Dates B) → Dates B
dates_of none date = none
dates_of (some dates) date = dates date

unfoldable pub or_else : {B : Type 0} → B → Option B → B
or_else b none = b
or_else b (some b') = b'

unfoldable pub set_bucket : {B : Type 0} → Bytes → ℕ → Option B → BoltIndex B → BoltIndex B
unfolding dates_of
set_bucket camera date bucket idx = record idx {
  cameras = λ c.
      if bytes_eq c camera
      then some (λ n. if n == date then bucket else dates_of (idx.cameras camera) n)
      else idx.cameras c;
}

-- decodeGOPMeta in a loop over entries, which goes on at an error
unfoldable pub decode_all : (Bytes → Option GopMeta) → List Entry → List GopMeta
decode_all decode [] = []
decode_all decode (e ∷ es) =
    let rest = decode_all decode es in elim (decode e.1) [ none ↦ rest | some m ↦ m ∷ rest ]

unfoldable pub in_window : Time → Time → GopMeta → Bool
in_window start end m = not (before m.start_time start || after m.start_time end)

module _ {E : Type 0} (d : Deps E) where
  abbrev pub Idx : Type 0
  Idx = BoltIndex d.bolt.Bucket

  unfoldable pub get_or_create_date_bucket : Bytes → Time → Idx → Result E d.bolt.Bucket
  unfolding dates_of or_else
  get_or_create_date_bucket camera t idx = do
    d.bolt.check_name camera
    ok (or_else d.bolt.empty (dates_of (idx.cameras camera) (date_of t)))

  -- Put into the bucket of the date.
  unfoldable pub put_v2 : Bytes → Time → Bytes → Idx → Result E Idx
  unfolding get_or_create_date_bucket
  put_v2 camera t value idx = do
    bucket ← get_or_create_date_bucket camera t idx
    bucket' ← d.bolt.put (make_binary_key d.hash camera t) value bucket
    ok (set_bucket camera (date_of t) (some bucket') idx)

  unfoldable pub put_v1 : Bytes → Time → Bytes → Idx → Result E Idx
  put_v1 camera t value idx = do
    gops' ← d.bolt.put (make_gop_key camera t) value idx.gops
    ok (record idx { gops = gops' })

  unfoldable pub write_gop : Bytes → GopMeta → Idx → Result E Idx
  unfolding put_v2 put_v1
  write_gop camera meta idx = do
    value ← d.encode meta
    idx' ← if idx.use_v2 then put_v2 camera meta.start_time value idx else ok idx
    put_v1 camera meta.start_time value idx'

  -- BatchWriteGOP: one transaction for all items
  unfoldable pub batch_write_gop : List WriteItem → Idx → Result E Idx
  unfolding write_gop
  batch_write_gop [] idx = ok idx
  batch_write_gop (item ∷ items) idx = do
    idx' ← write_gop item.camera_id item.meta idx
    batch_write_gop items idx'

  unfoldable pub write_event : Bytes → RecordingEvent → Idx → Result E Idx
  write_event camera event idx = do
    value ← d.encode_event event
    events' ← d.bolt.put (make_event_key camera event.timestamp) value idx.events
    ok (record idx { events = events' })

  unfoldable pub walk_date : Bytes → Time → Time → d.bolt.Bucket → List Entry
  walk_date camera start end bucket =
      walk (make_binary_key d.hash camera start) (make_binary_key d.hash camera end)
        (d.bolt.entries bucket)

  unfoldable pub query_date : Bytes → Time → Time → Option d.bolt.Bucket → List GopMeta
  query_date camera start end none = []
  query_date camera start end (some bucket) =
      keep (in_window start end) (decode_all d.decode (walk_date camera start end bucket))

  unfoldable pub query_dates : Bytes → Time → Time → Dates d.bolt.Bucket → List Time → List GopMeta
  unfolding query_date
  query_dates camera start end dates [] = []
  query_dates camera start end dates (t ∷ ts) =
      query_date camera start end (dates (date_of t)) ++ query_dates camera start end dates ts

  unfoldable pub query_v2 : Bytes → Time → Time → Idx → List GopMeta
  unfolding query_dates dates_of
  query_v2 camera start end idx =
      query_dates camera start end (dates_of (idx.cameras camera)) (query_days start end)

  -- The entries of the camera's prefix, from the key of `start` to the key of `end`.
  unfoldable pub walk_gops : Bytes → Time → Time → d.bolt.Bucket → List Entry
  walk_gops camera start end bucket =
      keep (λ (e : Entry). starts_with (camera ++ (b':' ∷ [])) e.0)
        (walk (make_gop_key camera start) (make_gop_key camera end) (d.bolt.entries bucket))

  unfoldable pub query_v1 : Bytes → Time → Time → Idx → List GopMeta
  query_v1 camera start end idx = decode_all d.decode (walk_gops camera start end idx.gops)

  unfoldable pub query_range : Bytes → Time → Time → Idx → List GopMeta
  unfolding query_v2 query_v1
  query_range camera start end idx =
      if idx.use_v2 then query_v2 camera start end idx else query_v1 camera start end idx

  unfoldable pub delete_all : List Entry → d.bolt.Bucket → Result E d.bolt.Bucket
  delete_all [] bucket = ok bucket
  delete_all (e ∷ es) bucket = d.bolt.delete e.0 bucket >>= delete_all es

  -- The bucket after a deletion, or none where it counts no key and is removed itself.
  unfoldable pub left_of : d.bolt.Bucket → Option d.bolt.Bucket
  left_of bucket = if d.bolt.key_n bucket == 0 then none else some bucket

  unfoldable pub delete_date :
      Bytes → Time → Time → Option d.bolt.Bucket → Result E (Option d.bolt.Bucket)
  unfolding left_of
  delete_date camera start end none = ok none
  delete_date camera start end (some bucket) = do
    bucket' ← delete_all (walk_date camera start end bucket) bucket
    ok (left_of bucket')

  unfoldable pub delete_dates : Bytes → Time → Time → List Time → Idx → Result E Idx
  unfolding delete_date dates_of
  delete_dates camera start end [] idx = ok idx
  delete_dates camera start end (t ∷ ts) idx = do
    bucket ← delete_date camera start end (dates_of (idx.cameras camera) (date_of t))
    delete_dates camera start end ts (set_bucket camera (date_of t) bucket idx)

  unfoldable pub delete_v2 : Bytes → Time → Time → Idx → Result E Idx
  unfolding delete_dates
  delete_v2 camera start end idx = elim (idx.cameras camera) [
    | none ↦ ok idx
    | some dates ↦ delete_dates camera start end (query_days start end) idx
  ]

  unfoldable pub delete_range : Bytes → Time → Time → Idx → Result E Idx
  unfolding delete_v2
  delete_range camera start end idx = do
    idx' ← if idx.use_v2 then delete_v2 camera start end idx else ok idx
    gops' ← delete_all (walk_gops camera start end idx'.gops) idx'.gops
    ok (record idx' { gops = gops' })

  -- cmd/migrate: the entries of "gop_index" into "gop_v2"
  unfoldable pub migrate_entries : List Entry → Idx → Result E Idx
  unfolding put_v2
  migrate_entries [] idx = ok idx
  migrate_entries (e ∷ es) idx = elim (d.decode e.1) [
    | none ↦ migrate_entries es idx
    | some m ↦ put_v2 m.camera_id m.start_time e.1 idx >>= migrate_entries es
  ]

  unfoldable pub migrate : Idx → Result E Idx
  unfolding migrate_entries
  migrate idx = migrate_entries (d.bolt.entries idx.gops) idx
