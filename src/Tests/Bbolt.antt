-- ===== src/Tests/Bbolt.antt =====
-- Writing, asking, deleting and migrating in internal/index/bolt_index.go at concrete inputs.
use record_storage.Common.{
  bytes_eq, bytes_leb, ℕ, ◌≡◌, refl, List, [], ◌∷◌, codes, length, Result, ok, err,
}
use record_storage.Common.Decimal.{decimal, signed_decimal}
use record_storage.Index.Store.Days.{query_days}
use record_storage.Common.BigEndian.{put_be}
use record_storage.Index.{GopMeta}
use record_storage.Index.Bolt.{Entry}
use record_storage.Index.Cursor.{walk, up_to, seek, keep}
use record_storage.Index.Keys.{make_binary_key}
use record_storage.Index.Store.{
  delete_all, walk_date, walk_gops, set_bucket, Deps, Idx, WriteItem, new_bolt_index,
  batch_write_gop, query_range, delete_range, migrate, put_v1, make_gop_key,
}
use record_storage.Index.Store.Deleting.{query_range-delete_range}
use record_storage.Tests.Data.{meta, at_second}
use record_storage.Tests.Sorted.{sorted_bolt, sorted_bolt-IsBolt}
use record_storage.Tests.Encoding.{encode_meta, decode_meta}

abbrev deps : Deps ℕ
deps = record {
  bolt = sorted_bolt;
  encode = λ m. ok (encode_meta m);
  encode_event = λ e. ok [];
  decode = decode_meta;
  hash = length;
}

abbrev later : GopMeta
later = record meta { start_time = at_second 20; end_time = at_second 21 }

abbrev items : List WriteItem
items =
    record { camera_id = codes "cam"; meta = meta }
    ∷ record { camera_id = codes "cam"; meta = later }
    ∷ []

or_start : Result ℕ (Idx deps) → Idx deps
or_start (ok idx) = idx
or_start (err e) = new_bolt_index deps

written : Idx deps
unfolding or_start
written = or_start (batch_write_gop deps items (new_bolt_index deps))

emptied : Idx deps
unfolding or_start
emptied = or_start (delete_range deps (codes "cam") (at_second 5) (at_second 15) written)

emptied-done : delete_range deps (codes "cam") (at_second 5) (at_second 15) written ≡ ok emptied
unfolding written emptied delete_range batch_write_gop new_bolt_index sorted_bolt set_bucket
    bytes_eq query_days delete_all walk_date walk up_to seek make_binary_key put_be bytes_leb
    walk_gops keep make_gop_key signed_decimal decimal
emptied-done = refl

query_range-delete_range_example :
    query_range deps (codes "cam") (at_second 5) (at_second 15) emptied ≡ []
query_range-delete_range_example =
    query_range-delete_range deps sorted_bolt-IsBolt (codes "cam") (at_second 5) (at_second 15)
      written emptied emptied-done

-- An index of the old version.
old : Idx deps
unfolding or_start
old = or_start (put_v1 deps (codes "cam") (at_second 20) (encode_meta later) (new_bolt_index deps))

migrated : Idx deps
unfolding or_start
migrated = or_start (migrate deps old)

old_entry : Entry
old_entry = (make_gop_key (codes "cam") (at_second 20), encode_meta later)
