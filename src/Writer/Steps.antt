-- ===== src/Writer/Steps.antt =====
-- The interleavings of callers and workers of internal/recorder/async_writer.go, and of the memory
-- measurements of cmd/server/main.go.
use record_storage.Common.{ℕ, ◌<◌, ◌≡◌, Bool, false, List, ◌∷◌, ◌++◌}
use record_storage.Common.Words.{u64_mod}
use record_storage.Writer.{
  Writer, WriteJob, check_closed, admit_checked, send_admitted, unblock, collect, finish_batch,
  close, measure,
}

-- One step of some goroutine, any of those at its point.
pub data Step (w : Writer) : Writer → Type 0 where
  checking : (job : WriteJob) → Step w (check_closed job w)
  allocating :
      (front : List WriteJob) (job : WriteJob) (back : List WriteJob)
      → w.checked ≡ front ++ (job ∷ back)
      → Step w (admit_checked job (front ++ back) w)
  sending :
      (front : List WriteJob) (job : WriteJob) (back : List WriteJob)
      → w.admitted ≡ front ++ (job ∷ back)
      → Step w (send_admitted job (front ++ back) w)
  unblocking : Step w (unblock w)
  collecting : Step w (collect w)
  finishing :
      (front : List (List WriteJob)) (batch : List WriteJob) (back : List (List WriteJob))
      (success : Bool)
      → w.in_flight ≡ front ++ (batch ∷ back)
      → Step w (finish_batch batch (front ++ back) success w)
  closing : Step w (close w)

-- Steps without a measurement between them. A panic ends the process.
pub data Steps (w : Writer) : Writer → Type 0 where
  stay : Steps w w
  step : {v u : Writer} → Steps w v → v.crashed ≡ false → Step v u → Steps w u

-- Steps and measurements.
pub data Reach (w : Writer) : Writer → Type 0 where
  here : Reach w w
  next : {v u : Writer} → Reach w v → v.crashed ≡ false → Step v u → Reach w u
  measured :
      {v : Writer} (alloc : ℕ)
      → Reach w v
      → v.crashed ≡ false
      → alloc < u64_mod
      → Reach w (measure alloc v)
