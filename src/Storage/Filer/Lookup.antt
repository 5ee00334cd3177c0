-- ===== src/Storage/Filer/Lookup.antt =====
-- LookupEntry against CreateEntry, of internal/storage/grpc_filer_client.go.
use record_storage.Common.{
  ℕ, ◌==◌, ◌≡◌, refl, ap, ◌∙◌, Bool, true, false, some, Bytes, bytes_eq, length, Result, ok, err,
  if◌then◌else◌, arith,
}
use record_storage.Storage.{EntryMeta}
use record_storage.Storage.Hybrid.Objects.{parse_volume_id}
use record_storage.Storage.Filer.{
  PathLibrary, RpcError, FilerStub, Entry, entry_of, to_seconds, from_seconds, take_attributes,
  take_chunk, take_size, take_extended, take_volume, looked_up, lookup_answer, answered,
  split_object_key, create_entry, lookup_entry,
}

-- The filer gives back an entry that it has created.
pub record IsFiler {W : Type 0} (stub : FilerStub W) : Type 0 where
  pub found :
      (dir : Bytes) (entry : Entry) (w : W)
      → (stub.create_entry dir entry true w).0 ≡ ok tt
      → (stub.lookup_directory_entry dir entry.name (stub.create_entry dir entry true w).1).0
        ≡ ok (some entry)

-- What the filer keeps of the metadata: times in whole seconds, and a volume id in any case.
unfoldable pub kept : EntryMeta → EntryMeta
kept meta = record meta {
  created_at = from_seconds (to_seconds meta.created_at);
  modified_at = from_seconds (to_seconds meta.modified_at);
  volume_id = if length meta.volume_id == 0 then parse_volume_id meta.file_id else meta.volume_id;
}

if_same : {A : Type 0} (b : Bool) (a : A) → (if b then a else a) ≡ a
if_same true a = refl
if_same false a = refl

looked_up-entry_of :
    (name : Bytes) (meta : EntryMeta)
    → looked_up meta.key (some (entry_of name meta)) ≡ ok (kept meta)
unfolding looked_up entry_of kept take_attributes take_chunk take_size take_extended take_volume
    from_seconds to_seconds bytes_eq
looked_up-entry_of name meta =
    ap (λ (n : ℕ). ok (record (kept meta) { size = n })) (if_same (meta.size == 0) meta.size)

answered-ok : (r : Result RpcError (Unit {0})) → answered r ≡ ok tt → r ≡ ok tt
unfolding answered
answered-ok (ok tt) h = refl
answered-ok (err e) h = absurd (ground (arith, h))

module _ (paths : PathLibrary) {W : Type 0} (stub : FilerStub W) where
  -- What CreateEntry has stored is what LookupEntry of its key gives back, but for the times, which
  -- are cut to whole seconds, and a missing volume id, which is read off the file id, given that the
  -- filer gives back an entry that it has created.
  pub lookup_entry-create_entry :
      (laws : IsFiler stub) (meta : EntryMeta) (w : W)
      → (create_entry paths stub meta w).0 ≡ ok tt
      → (lookup_entry paths stub meta.key (create_entry paths stub meta w).1).0 ≡ ok (kept meta)
  unfolding create_entry lookup_entry lookup_answer
  lookup_entry-create_entry laws meta w h =
      let (dir, name) = split_object_key paths meta.key in
      ap (lookup_answer meta.key) (laws.found dir (entry_of name meta) w (answered-ok _ h))
      ∙ looked_up-entry_of name meta
