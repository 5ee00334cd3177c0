-- ===== src/Tests/Writing.antt =====
-- internal/recorder/async_writer.go and the object keys at concrete inputs.
use record_storage.Common.{
  ℕ, ◌≡◌, ◌+◌, refl, true, none, some, Option, List, [], ◌∷◌, Bytes, codes, length,
}
use record_storage.Memory.{Controller, allocate}
use record_storage.Storage.{StorageError, storage_degraded}
use record_storage.Writer.{
  Writer, new_writer, set_memory_controller, collect, block, check_closed, admit_checked,
  send_admitted, take_memory, memory_from, hold_admitted, measure, after_allocate, admit, close,
}
use record_storage.Writer.Steps.{Steps}
use record_storage.Writer.Batch.{Stores, process_batch}
use record_storage.Writer.Batch.Reference.{process_batch-run_puts, run_puts, puts_of, commit}
use record_storage.Tests.Data.{job}

abbrev memory : Controller
memory = record { max_bytes = 1000; used_bytes = 20 }

abbrev writer : Writer
writer = set_memory_controller memory (new_writer 2 block)

abbrev checked : Writer
checked = check_closed job writer

abbrev held : Writer
held = admit_checked job [] checked

abbrev measured_writer : Writer
measured_writer = measure 500 held

abbrev sent : Writer
sent = send_admitted job [] measured_writer

abbrev worked : Writer
worked = collect sent

-- An interleaving of Submit and Close: the send of a job that had passed the check panics.
crashes : (send_admitted job [] (close held)).crashed ≡ true
unfolding close check_closed admit_checked take_memory memory_from hold_admitted new_writer
    set_memory_controller after_allocate allocate send_admitted admit
crashes = refl

-- A store that keeps the keys it was given, and is degraded from the second on; an index that keeps
-- the number of its entries.
abbrev put_key : List Bytes → Bytes → Bytes → List Bytes × Option StorageError
put_key [] key bytes = (key ∷ [], none)
put_key (k ∷ keys) key bytes = (key ∷ k ∷ keys, some storage_degraded)

abbrev stores : Stores
stores = record {
  Store = List Bytes;
  Idx = ℕ;
  IdxError = ℕ;
  put = put_key;
  write_gop = λ i camera meta. (i + 1, none);
  batch_write_gop = λ i items. (i + length items, none);
}

process_batch-run_puts_example :
    process_batch stores [] 0 (job ∷ job ∷ [])
    ≡ commit stores 0 (job ∷ job ∷ []) (run_puts stores [] (puts_of (job ∷ job ∷ [])))
process_batch-run_puts_example = process_batch-run_puts stores [] 0 (job ∷ job ∷ [])

abbrev date_text : ℕ → Bytes
date_text day = codes "2026-01-01"
