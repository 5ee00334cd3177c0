-- ===== src/Writer/Batch/Reference.antt =====
-- processBatch of internal/recorder/async_writer.go against a flat list of puts.
use record_storage.Common.{
  ◌≡◌, refl, ap, Bool, true, false, Option, none, some, List, [], ◌∷◌, Bytes, map, if◌then◌else◌,
  arith, Bool-cases, inl, inr, ◌∙◌,
}
use record_storage.Storage.{StorageError}
use record_storage.Writer.{WriteJob}
use record_storage.Writer.Batch.{
  Stores, WriteError, put_init_failed, put_gop_failed, write_index_failed, hard_error, has_init,
  item_of, put_job, put_jobs, process_batch,
}

-- One object to be put: an init segment or a GOP.
pub record PutOp : Type 0 where
  pub is_init : Bool
  pub key : Bytes
  pub bytes : Bytes

abbrev pub gop_put : WriteJob → PutOp
gop_put job = record { is_init = false; key = job.meta.object_key; bytes = job.gop_data }

abbrev pub init_put : WriteJob → PutOp
init_put job = record { is_init = true; key = job.meta.init_key; bytes = job.init_data }

-- All objects of a batch, in order: a job's init segment, if it has one and a key for it, and then
-- its GOP.
abbrev pub puts_of : List WriteJob → List PutOp
puts_of [] = []
puts_of (job ∷ jobs) =
    if has_init job then init_put job ∷ gop_put job ∷ puts_of jobs else gop_put job ∷ puts_of jobs

module _ (st : Stores) where
  abbrev pub put_error : PutOp → StorageError → WriteError st.IdxError
  put_error op e = if op.is_init then put_init_failed e else put_gop_failed e

  abbrev pub run_put : st.Store → PutOp → st.Store × Option StorageError
  run_put s op = let (s', e) = st.put s op.key op.bytes in (s', hard_error e)

  -- The puts in order, up to the first that fails otherwise than by a pending entry.
  unfoldable pub run_puts : st.Store → List PutOp → st.Store × Option (WriteError st.IdxError)
  run_puts s [] = (s, none)
  run_puts s (op ∷ ops) =
      let (s', e) = run_put s op in
      elim e [ none ↦ run_puts s' ops | some x ↦ (s', some (put_error op x)) ]

  -- One index transaction with the batch's entries if all puts went through, and none otherwise.
  abbrev pub commit :
      st.Idx
      → List WriteJob
      → st.Store × Option (WriteError st.IdxError)
      → st.Store × st.Idx × Option (WriteError st.IdxError)
  commit i jobs (s, some x) = (s, i, some x)
  commit i jobs (s, none) =
      let (i', e) = st.batch_write_gop i (map item_of jobs) in
      (s, i', elim e [ none ↦ none | some x ↦ some (write_index_failed x) ])

  run_puts-gop :
      (s : st.Store) (job : WriteJob) (jobs : List WriteJob)
      → ((s : st.Store) → put_jobs st s jobs ≡ run_puts s (puts_of jobs))
      → has_init job ≡ false
      → put_jobs st s (job ∷ jobs) ≡ run_puts s (gop_put job ∷ puts_of jobs)
  unfolding put_jobs put_job run_puts
  run_puts-gop s job jobs ih h = ground (arith, ih (st.put s job.meta.object_key job.gop_data).0)

  run_puts-init :
      (s : st.Store) (job : WriteJob) (jobs : List WriteJob)
      → ((s : st.Store) → put_jobs st s jobs ≡ run_puts s (puts_of jobs))
      → has_init job ≡ true
      → put_jobs st s (job ∷ jobs) ≡ run_puts s (init_put job ∷ gop_put job ∷ puts_of jobs)
  unfolding put_jobs put_job run_puts
  run_puts-init s job jobs ih h = ground (
    arith,
    ih (st.put (st.put s job.meta.init_key job.init_data).0 job.meta.object_key job.gop_data).0,
  )

  put_jobs-run_puts :
      (jobs : List WriteJob) (s : st.Store) → put_jobs st s jobs ≡ run_puts s (puts_of jobs)
  put_jobs-run_puts [] s = unfold put_jobs run_puts in refl
  put_jobs-run_puts (job ∷ jobs) s = elim (Bool-cases (has_init job)) [
    | inl h ↦ rw h (run_puts-init s job jobs (put_jobs-run_puts jobs) h)
    | inr h ↦ rw h (run_puts-gop s job jobs (put_jobs-run_puts jobs) h)
  ]

commit_cases :
    (st : Stores) (i : st.Idx) (jobs : List WriteJob)
    (r : st.Store × Option (WriteError st.IdxError))
    → (elim r.1 [
      | none ↦ (
        r.0,
        (st.batch_write_gop i (map item_of jobs)).0,
        elim (st.batch_write_gop i (map item_of jobs)).1 [
          | none ↦ none
          | some y ↦ some (write_index_failed y)
        ],
      )
      | some y ↦ (r.0, i, some y)
    ])
      ≡ commit st i jobs r
commit_cases st i jobs (s', none) = refl
commit_cases st i jobs (s', some x) = refl

commit_lem :
    (st : Stores) (i : st.Idx) (jobs : List WriteJob) (s : st.Store)
    → process_batch st s i jobs ≡ commit st i jobs (put_jobs st s jobs)
unfolding process_batch
commit_lem st i jobs s = commit_cases st i jobs (put_jobs st s jobs)

-- For any storage and index: a batch puts its objects in order, each job's init segment (if it has
-- one and a key for it) before its GOP, up to the first put that fails other than by a pending
-- entry; such a failure leaves the index untouched and is the result, and otherwise the entries of
-- all the batch's jobs go to the index in one call, whose error is the result.
pub process_batch-run_puts :
    (st : Stores) (s : st.Store) (i : st.Idx) (jobs : List WriteJob)
    → process_batch st s i jobs ≡ commit st i jobs (run_puts st s (puts_of jobs))
process_batch-run_puts st s i jobs =
    commit_lem st i jobs s ∙ ap (commit st i jobs) (put_jobs-run_puts st jobs s)
