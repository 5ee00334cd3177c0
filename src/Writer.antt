-- ===== src/Writer.antt =====
-- internal/recorder/async_writer.go: the queue between the recorders and the workers. A state holds
-- the channel, the jobs whose Submit is under way, and the batches that workers hold. Submit is its
-- steps in a row: the check of `closed`, the memory, and the send; other goroutines may act between
-- them. Sending on a closed channel panics, which ends the process.
pub mod Batch
pub mod Steps
pub mod Accounted
pub mod Accounting
use record_storage.Common.{
  ℕ, suc, ◌+◌, Bool, true, false, ◌||◌, Option, none, some, List, [], ◌∷◌, ◌++◌, Bytes, ltb, length,
  take, drop, sum_of, if◌then◌else◌,
}
use record_storage.Common.Words.{add64}
use record_storage.Memory.{Controller, MemoryError, allocate, release, update_metrics}
use record_storage.Index.{GopMeta}

pub data BackpressureStrategy : Type 0 where
  block drop_new drop_oldest : BackpressureStrategy
  other_strategy : Bytes → BackpressureStrategy

pub record WriteJob : Type 0 where
  pub camera_id : Bytes
  pub gop_data : Bytes
  pub init_data : Bytes
  pub meta : GopMeta

pub record Writer : Type 0 where
  pub queue : List WriteJob
  pub queue_size : ℕ
  pub strategy : BackpressureStrategy
  pub mem_ctrl : Option Controller
  pub closed : Bool
  pub submitted : ℕ
  pub failed : ℕ
  pub dropped : ℕ
  -- past the check of `closed`, and past the memory controller
  pub checked : List WriteJob
  pub admitted : List WriteJob
  -- blocked in `w.queue <- job`
  pub senders : List WriteJob
  -- taken by workers and not finished
  pub in_flight : List (List WriteJob)
  -- whether a send on the closed channel has panicked
  pub crashed : Bool

pub data SubmitError : Type 0 where
  writer_closed memory_limit_exceeded queue_full : SubmitError

-- What the caller of Submit sees at once.
pub data Outcome : Type 0 where
  accepted : Outcome
  blocked : Outcome
  panicked : Outcome
  refused : SubmitError → Outcome

-- NewAsyncWriterWithStrategy, and SetMemoryController
unfoldable pub new_writer : ℕ → BackpressureStrategy → Writer
new_writer queue_size strategy = record {
  queue = [];
  queue_size = queue_size;
  strategy = strategy;
  mem_ctrl = none;
  closed = false;
  submitted = 0;
  failed = 0;
  dropped = 0;
  checked = [];
  admitted = [];
  senders = [];
  in_flight = [];
  crashed = false;
}

unfoldable pub set_memory_controller : Controller → Writer → Writer
set_memory_controller mc w = record w { mem_ctrl = some mc }

abbrev pub job_size : WriteJob → ℕ
job_size job = length job.gop_data + length job.init_data

abbrev has_room : Writer → Bool
has_room w = ltb (length w.queue) w.queue_size

enqueue : WriteJob → Writer → Writer
enqueue job w = record w { queue = w.queue ++ (job ∷ []) }

-- `w.queue <- job`
send : WriteJob → Writer → Writer × Outcome
send job w =
    if has_room w
    then (enqueue job w, accepted)
    else (record w { senders = w.senders ++ (job ∷ []) }, blocked)

count_dropped : Writer → Writer
count_dropped w = record w { dropped = add64 w.dropped 1 }

-- `case <-w.queue` with its count, or `default` on an empty channel
drop_head : List WriteJob → Writer → Writer
drop_head [] w = w
drop_head (oldest ∷ rest) w = count_dropped (record w { queue = rest })

by_strategy : BackpressureStrategy → WriteJob → Writer → Writer × Outcome
by_strategy block job w = send job w
by_strategy drop_oldest job w =
    if has_room w then (enqueue job w, accepted) else send job (drop_head w.queue w)
by_strategy _ job w =
    if has_room w then (enqueue job w, accepted) else (count_dropped w, refused queue_full)

-- A send on the closed channel
crash : WriteJob → Writer → Writer × Outcome
crash job w = (record w { crashed = true; senders = w.senders ++ (job ∷ []) }, panicked)

count_submitted : Writer → Writer
count_submitted w = record w { submitted = add64 w.submitted 1 }

-- The rest of Submit after the memory was taken.
unfoldable pub admit : WriteJob → Writer → Writer × Outcome
unfolding crash count_submitted by_strategy drop_head count_dropped send enqueue
admit job w =
    if w.closed
    then crash job (count_submitted w)
    else by_strategy w.strategy job (count_submitted w)

unfoldable pub after_allocate :
    Writer → Controller × Option MemoryError → Writer × Option SubmitError
unfolding count_dropped
after_allocate w (mc, none) = (record w { mem_ctrl = some mc }, none)
after_allocate w (mc, some e) =
    (count_dropped (record w { mem_ctrl = some mc }), some memory_limit_exceeded)

unfoldable pub memory_from : Option Controller → WriteJob → Writer → Writer × Option SubmitError
unfolding after_allocate
memory_from none job w = (w, none)
memory_from (some mc) job w = after_allocate w (allocate mc (job_size job))

-- The memory of the job
unfoldable pub take_memory : WriteJob → Writer → Writer × Option SubmitError
unfolding memory_from
take_memory job w = memory_from w.mem_ctrl job w

go_on : WriteJob → Writer × Option SubmitError → Writer × Outcome
unfolding admit
go_on job (w, none) = admit job w
go_on job (w, some e) = (w, refused e)

-- Submit with no other goroutine between its steps
unfoldable pub submit : WriteJob → Writer → Writer × Outcome
unfolding go_on take_memory
submit job w = if w.closed then (w, refused writer_closed) else go_on job (take_memory job w)

-- The same steps one by one, where `rest` are the other jobs at the same point.
unfoldable pub check_closed : WriteJob → Writer → Writer
check_closed job w = if w.closed then w else record w { checked = job ∷ w.checked }

unfoldable pub hold_admitted : WriteJob → Writer × Option SubmitError → Writer
hold_admitted job (w, none) = record w { admitted = job ∷ w.admitted }
hold_admitted job (w, some e) = w

unfoldable pub admit_checked : WriteJob → List WriteJob → Writer → Writer
unfolding hold_admitted take_memory
admit_checked job rest w = hold_admitted job (take_memory job (record w { checked = rest }))

unfoldable pub send_admitted : WriteJob → List WriteJob → Writer → Writer
unfolding admit
send_admitted job rest w = (admit job (record w { admitted = rest })).0

-- A blocked send goes through when the channel has room. Close leaves none that could.
unblock_first : List WriteJob → Writer → Writer
unfolding enqueue
unblock_first [] w = w
unblock_first (job ∷ rest) w = if has_room w then enqueue job (record w { senders = rest }) else w

unfoldable pub unblock : Writer → Writer
unfolding unblock_first
unblock w = if w.closed then w else unblock_first w.senders w

abbrev pub max_batch_size : ℕ
max_batch_size = 10

-- The worker's receive loop: a first job, and more without blocking up to ten.
take_batch : List WriteJob → Writer → Writer
take_batch [] w = w
take_batch (job ∷ rest) w = record w {
  queue = drop max_batch_size (job ∷ rest);
  in_flight = take max_batch_size (job ∷ rest) ∷ w.in_flight;
}

unfoldable pub collect : Writer → Writer
unfolding take_batch
collect w = take_batch w.queue w

release_each : List WriteJob → Option Controller → Option Controller
release_each jobs none = none
release_each [] (some mc) = some mc
release_each (job ∷ jobs) (some mc) = release_each jobs (some (release mc (job_size job)))

-- The end of a worker's round, where `others` are the batches of the other workers: a failed
-- batch is counted, and the memory of each job is released.
unfoldable pub finish_batch : List WriteJob → List (List WriteJob) → Bool → Writer → Writer
unfolding release_each
finish_batch batch others success w = record w {
  failed = if success then w.failed else add64 w.failed (length batch);
  mem_ctrl = release_each batch w.mem_ctrl;
  in_flight = others;
}

is_blocking : List WriteJob → Bool
is_blocking [] = false
is_blocking (job ∷ jobs) = true

-- Close up to `wg.Wait`: a blocked send panics, and closing again does nothing.
unfoldable pub close : Writer → Writer
unfolding is_blocking
close w =
    if w.closed then w else record w { closed = true; crashed = w.crashed || is_blocking w.senders }

measure_from : ℕ → Option Controller → Option Controller
measure_from alloc none = none
measure_from alloc (some mc) = some (update_metrics alloc mc)

-- UpdateMetrics of the controller, which main calls every ten seconds
unfoldable pub measure : ℕ → Writer → Writer
unfolding measure_from
measure alloc w = record w { mem_ctrl = measure_from alloc w.mem_ctrl }
