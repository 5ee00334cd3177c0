-- ===== src/Writer/Batch.antt =====
-- processJob and processBatch of internal/recorder/async_writer.go: a batch's objects go to storage,
-- and then its entries go to the index in one transaction.
pub mod Reference
use record_storage.Common.{
  Bool, Option, none, some, List, [], ◌∷◌, Bytes, ltb, length, map, ◌&&◌, if◌then◌else◌,
}
use record_storage.Index.{GopMeta}
use record_storage.Storage.{StorageError, entry_pending_compensation}
use record_storage.Writer.{WriteJob}

pub data WriteError (E : Type 0) : Type 0 where
  put_init_failed : StorageError → WriteError E
  put_gop_failed : StorageError → WriteError E
  write_index_failed : E → WriteError E

-- `err != nil && err != storage.ErrEntryPendingCompensation`
unfoldable pub hard_error : Option StorageError → Option StorageError
hard_error (some entry_pending_compensation) = none
hard_error e = e

-- The storage and the index as states with the operations that the writer calls.
pub record Stores : Type 1 where
  pub Store : Type 0
  pub Idx : Type 0
  pub IdxError : Type 0
  pub put : Store → Bytes → Bytes → Store × Option StorageError
  pub write_gop : Idx → Bytes → GopMeta → Idx × Option IdxError
  pub batch_write_gop : Idx → List (Bytes × GopMeta) → Idx × Option IdxError

-- `len(job.InitData) > 0 && job.Meta.InitKey != ""`
unfoldable pub has_init : WriteJob → Bool
has_init job = ltb 0 (length job.init_data) && ltb 0 (length job.meta.init_key)

abbrev pub item_of : WriteJob → Bytes × GopMeta
item_of job = (job.camera_id, job.meta)

module _ (st : Stores) where
  open st use {Store, Idx, IdxError, put, write_gop, batch_write_gop}

  put_init : Store → WriteJob → Store × Option (WriteError IdxError)
  put_init s job =
      if has_init job
      then (let (s', e) = put s job.meta.init_key job.init_data in
          (s', elim (hard_error e) [ none ↦ none | some x ↦ some (put_init_failed x) ]))
      else (s, none)

  put_gop : Store → WriteJob → Store × Option (WriteError IdxError)
  put_gop s job =
      let (s', e) = put s job.meta.object_key job.gop_data in
      (s', elim (hard_error e) [ none ↦ none | some x ↦ some (put_gop_failed x) ])

  -- The two puts of one job; a failed first one ends it.
  unfoldable pub put_job : Store → WriteJob → Store × Option (WriteError IdxError)
  unfolding put_init put_gop
  put_job s job =
      let (s', e) = put_init s job in elim e [ none ↦ put_gop s' job | some x ↦ (s', some x) ]

  -- processJob, which nothing calls
  unfoldable pub process_job : Store → Idx → WriteJob → Store × Idx × Option (WriteError IdxError)
  process_job s i job =
      let (s', e) = put_job s job in
      let (i', x) = write_gop i job.camera_id job.meta in
      elim e [
        | none ↦ (s', i', elim x [ none ↦ none | some y ↦ some (write_index_failed y) ])
        | some y ↦ (s', i, some y)
      ]

  -- The first loop of processBatch.
  unfoldable pub put_jobs : Store → List WriteJob → Store × Option (WriteError IdxError)
  put_jobs s [] = (s, none)
  put_jobs s (job ∷ jobs) =
      let (s', e) = put_job s job in elim e [ none ↦ put_jobs s' jobs | some x ↦ (s', some x) ]

  -- The index is a BoltIndex, which has BatchWriteGOP.
  unfoldable pub process_batch :
      Store → Idx → List WriteJob → Store × Idx × Option (WriteError IdxError)
  process_batch s i jobs =
      let (s', e) = put_jobs s jobs in
      let (i', x) = batch_write_gop i (map item_of jobs) in
      elim e [
        | none ↦ (s', i', elim x [ none ↦ none | some y ↦ some (write_index_failed y) ])
        | some y ↦ (s', i, some y)
      ]
