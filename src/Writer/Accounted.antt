-- ===== src/Writer/Accounted.antt =====
-- The memory that a state of internal/recorder/async_writer.go accounts for, and its steps.
use record_storage.Common.{
  ℕ, zero, suc, ◌+◌, ◌≤◌, ◌≡◌, ◌⊎◌, inl, inr, refl, Bool, true, false, Option, none, some, List, [],
  ◌∷◌, ◌++◌, if◌then◌else◌, length, take, drop, sum_of, sum_of-append, length-append, length-drop,
  ap, ltb→lt, Bool-cases, arith,
}
use record_storage.Common.Words.{u64, add64, sub64, lt_i64}
use record_storage.Memory.{Controller, allocate, release, memory_limit}
use record_storage.Writer.{
  block, Writer, WriteJob, job_size, unblock, collect, finish_batch, close, unblock_first,
  take_batch, release_each, has_room, send, enqueue, admit, by_strategy, memory_from,
  after_allocate, count_dropped, count_submitted, crash, hold_admitted, check_closed, admit_checked,
  send_admitted, take_memory,
}

abbrev pub batch_size : List WriteJob → ℕ
batch_size = sum_of job_size

-- The bytes of all jobs that the writer has taken and not finished.
abbrev pub outstanding : Writer → ℕ
outstanding w =
    batch_size w.admitted
    + batch_size w.queue
    + batch_size w.senders
    + sum_of batch_size w.in_flight

-- The counter stands at `base`, which others have taken, and the writer's bytes.
abbrev pub UsedIs : ℕ → Option Controller → ℕ → Type 0
UsedIs base none held = Unit {0}
UsedIs base (some c) held = c.used_bytes ≡ u64 (base + held)

pub record IsAccounted (base : ℕ) (w : Writer) : Type 0 where
  pub used : UsedIs base w.mem_ctrl (outstanding w)
  pub bounded : length w.queue ≤ w.queue_size

sum_of-take-drop :
    (n : ℕ) (jobs : List WriteJob)
    → batch_size (take n jobs) + batch_size (drop n jobs) ≡ batch_size jobs
sum_of-take-drop zero jobs = omega arith
sum_of-take-drop (suc n) [] = refl
sum_of-take-drop (suc n) (j ∷ jobs) = omega (arith, sum_of-take-drop n jobs)

sum_of-middle :
    (front : List (List WriteJob)) (batch : List WriteJob) (back : List (List WriteJob))
    → sum_of batch_size (front ++ (batch ∷ back))
      ≡ batch_size batch + sum_of batch_size (front ++ back)
sum_of-middle [] batch back = refl
sum_of-middle (b ∷ front) batch back = omega (arith, sum_of-middle front batch back)

release_each-UsedIs :
    (base held : ℕ) (jobs : List WriteJob) (mc : Option Controller)
    → UsedIs base mc (held + batch_size jobs)
    → UsedIs base (release_each jobs mc) held
unfolding release_each
release_each-UsedIs base held [] none h = tt
release_each-UsedIs base held (j ∷ jobs) none h = tt
release_each-UsedIs base held [] (some c) h = ground arith
release_each-UsedIs base held (j ∷ jobs) (some c) h =
    release_each-UsedIs base held jobs (some (release c (job_size j)))
      (unfold release in ground arith)

UsedIs-eq :
    (base : ℕ) (mc : Option Controller) {held held' : ℕ}
    → held ≡ held'
    → UsedIs base mc held
    → UsedIs base mc held'
UsedIs-eq base mc e h = rw (← e) h

allocated :
    (base : ℕ) (job : WriteJob) (c : Controller) (held : ℕ)
    → UsedIs base (some c) held
    → ((c' : Controller) × (allocate c (job_size job) ≡ (c', none))
        × UsedIs base (some c') (held + job_size job))
      ⊎ ((c' : Controller) × (allocate c (job_size job) ≡ (c', some memory_limit))
          × UsedIs base (some c') held)
unfolding allocate
allocated base job c held h =
    elim (Bool-cases (lt_i64 c.max_bytes (add64 c.used_bytes (job_size job)))) [
      | inl over ↦ inr (
        record c { used_bytes = sub64 (add64 c.used_bytes (job_size job)) (job_size job) },
        rw over,
        omega arith,
      )
      | inr fits ↦
          inl (record c { used_bytes = add64 c.used_bytes (job_size job) }, rw fits, omega arith)
    ]

sum_of-one :
    (front : List WriteJob) (job : WriteJob) (back : List WriteJob)
    → batch_size (front ++ (job ∷ back)) ≡ job_size job + batch_size (front ++ back)
sum_of-one [] job back = refl
sum_of-one (j ∷ front) job back = omega (arith, sum_of-one front job back)

if-IsAccounted :
    (base : ℕ) (b : Bool) (w v : Writer)
    → IsAccounted base w
    → IsAccounted base v
    → IsAccounted base (if b then w else v)
if-IsAccounted base true w v h k = h
if-IsAccounted base false w v h k = k

admit_open :
    (job : WriteJob) (w : Writer)
    → w.closed ≡ false
    → w.strategy ≡ block
    → admit job w ≡ send job (count_submitted w)
unfolding admit by_strategy
admit_open job w o s = rw (o, s) refl

admit_closed :
    (job : WriteJob) (w : Writer) → w.closed ≡ true → admit job w ≡ crash job (count_submitted w)
unfolding admit
admit_closed job w c = rw c refl

module _ (base : ℕ) (job : WriteJob) where
  send-IsAccounted :
      (w : Writer)
      → UsedIs base w.mem_ctrl (outstanding w + job_size job)
      → length w.queue ≤ w.queue_size
      → IsAccounted base (send job w).0
  unfolding send enqueue
  send-IsAccounted w h b = elim (Bool-cases (has_room w)) [
    | inl room ↦ rw room (record {
      used = UsedIs-eq base w.mem_ctrl (omega (arith, sum_of-append job_size w.queue (job ∷ []))) h;
      bounded = omega (arith, ltb→lt _ _ room, length-append w.queue (job ∷ []));
    })
    | inr full ↦ rw full (record {
      used =
          UsedIs-eq base w.mem_ctrl (omega (arith, sum_of-append job_size w.senders (job ∷ []))) h;
      bounded = b;
    })
  ]

  crash-IsAccounted :
      (w : Writer)
      → UsedIs base w.mem_ctrl (outstanding w + job_size job)
      → length w.queue ≤ w.queue_size
      → IsAccounted base (crash job w).0
  unfolding crash
  crash-IsAccounted w h b = record {
    used = UsedIs-eq base w.mem_ctrl (omega (arith, sum_of-append job_size w.senders (job ∷ []))) h;
    bounded = b;
  }

  admit-IsAccounted :
      (w : Writer)
      → w.strategy ≡ block
      → UsedIs base w.mem_ctrl (outstanding w + job_size job)
      → length w.queue ≤ w.queue_size
      → IsAccounted base (admit job w).0
  unfolding count_submitted
  admit-IsAccounted w s h b = elim (Bool-cases w.closed) [
    | inl c ↦ rw (admit_closed job w c) (crash-IsAccounted (count_submitted w) h b)
    | inr o ↦ rw (admit_open job w o s) (send-IsAccounted (count_submitted w) h b)
  ]

  memory-IsAccounted :
      (w : Writer) (mc : Option Controller)
      → UsedIs base mc (outstanding w)
      → w.mem_ctrl ≡ mc
      → length w.queue ≤ w.queue_size
      → IsAccounted base (hold_admitted job (memory_from mc job w))
  unfolding memory_from
  memory-IsAccounted w none h e b = unfold hold_admitted in record { used = rw e tt; bounded = b }
  memory-IsAccounted w (some c) h e b = elim (allocated base job c (outstanding w) h) [
    | inl (c', eq, used) ↦ rw eq (
        unfold after_allocate hold_admitted in
        record { used = UsedIs-eq base (some c') (omega arith) used; bounded = b })
    | inr (c', eq, used) ↦
        rw eq
          (unfold after_allocate hold_admitted count_dropped in record { used = used; bounded = b })
  ]

pub check_closed-IsAccounted :
    (base : ℕ) (job : WriteJob) (w : Writer)
    → IsAccounted base w
    → IsAccounted base (check_closed job w)
unfolding check_closed
check_closed-IsAccounted base job w h =
    if-IsAccounted base w.closed w _ h (record { used = h.used; bounded = h.bounded })

pub admit_checked-IsAccounted :
    (base : ℕ) (job : WriteJob) (rest : List WriteJob) (w : Writer)
    → IsAccounted base w
    → IsAccounted base (admit_checked job rest w)
unfolding admit_checked take_memory
admit_checked-IsAccounted base job rest w h =
    memory-IsAccounted base job (record w { checked = rest }) w.mem_ctrl h.used refl h.bounded

pub send_admitted-IsAccounted :
    (base : ℕ) (front : List WriteJob) (job : WriteJob) (back : List WriteJob) (w : Writer)
    → w.admitted ≡ front ++ (job ∷ back)
    → w.strategy ≡ block
    → IsAccounted base w
    → IsAccounted base (send_admitted job (front ++ back) w)
unfolding send_admitted
send_admitted-IsAccounted base front job back w e s h =
    admit-IsAccounted base job (record w { admitted = front ++ back }) s
      (UsedIs-eq base w.mem_ctrl (omega (arith, ap batch_size e, sum_of-one front job back)) h.used)
      h.bounded

pub unblock-IsAccounted :
    (base : ℕ) (w : Writer) → IsAccounted base w → IsAccounted base (unblock w)
unfolding unblock
unblock-IsAccounted base w h = if-IsAccounted base w.closed w _ h (go w.senders refl)
  where
    go : (ss : List WriteJob) → w.senders ≡ ss → IsAccounted base (unblock_first ss w)
    go [] e = h
    go (j ∷ ss) e = elim (Bool-cases (has_room w)) [
      | inl room ↦ rw room (record {
        used =
            UsedIs-eq base w.mem_ctrl
              (rw e (omega (arith, sum_of-append job_size w.queue (j ∷ [])))) h.used;
        bounded = omega (arith, ltb→lt _ _ room, h.bounded, length-append w.queue (j ∷ []));
      })
      | inr full ↦ rw full h
    ]

pub collect-IsAccounted :
    (base : ℕ) (w : Writer) → IsAccounted base w → IsAccounted base (collect w)
unfolding collect
collect-IsAccounted base w h = go w.queue refl
  where
    go : (js : List WriteJob) → w.queue ≡ js → IsAccounted base (take_batch js w)
    go [] e = h
    go (j ∷ js) e = record {
      used = UsedIs-eq base w.mem_ctrl (rw e (omega (arith, sum_of-take-drop 9 js))) h.used;
      bounded = omega (arith, length-drop 9 js, h.bounded, ap (λ (q : List WriteJob). length q) e);
    }

pub finish_batch-IsAccounted :
    (base : ℕ) (front : List (List WriteJob)) (batch : List WriteJob) (back : List (List WriteJob))
    (success : Bool) (w : Writer)
    → w.in_flight ≡ front ++ (batch ∷ back)
    → IsAccounted base w
    → IsAccounted base (finish_batch batch (front ++ back) success w)
unfolding finish_batch
finish_batch-IsAccounted base front batch back success w e h = record {
  used = release_each-UsedIs base _ batch w.mem_ctrl (
      UsedIs-eq base w.mem_ctrl
        (omega (arith, ap (sum_of batch_size) e, sum_of-middle front batch back)) h.used);
  bounded = h.bounded;
}

pub close-IsAccounted : (base : ℕ) (w : Writer) → IsAccounted base w → IsAccounted base (close w)
unfolding close
close-IsAccounted base w h =
    if-IsAccounted base w.closed w _ h (record { used = h.used; bounded = h.bounded })
