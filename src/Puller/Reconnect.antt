-- ===== src/Puller/Reconnect.antt =====
-- The client of internal/puller/rtsp_puller.go: connectAndPlay, Start, Stop and run. A client is
-- named by a number; what gortsplib's calls return is the argument `Attempt`.
use record_storage.Common.{
  ℕ, ◌+◌, ◌*◌, Bool, true, false, Option, none, some, List, [], ◌∷◌, ltb, if◌then◌else◌,
}
use record_storage.Clock.{Time, zero_time, second}
use record_storage.Common.{ℕ}

-- The first call of connectAndPlay that fails, or the time at which none has.
pub data Attempt : Type 0 where
  bad_url start_failed describe_failed no_supported_format setup_failed play_failed : Attempt
  connected : Time → Attempt

pub data Event : Type 0 where
  connect disconnect reconnect reconnect_failed : Event

-- Where the goroutine of run is: not started, in client.Wait, before an attempt to reconnect, in the
-- wait behind a failed one, or gone. The number is the backoff.
pub data Phase : Type 0 where
  not_started in_wait gone : Phase
  before_attempt after_failure : ℕ → Phase

pub record Puller : Type 0 where
  pub client : Option ℕ
  pub next_client : ℕ
  pub closed : List ℕ
  pub stopped : Bool
  pub base_time : Time
  pub phase : Phase
  pub events : List Event

unfoldable pub new_puller : Puller
new_puller = record {
  client = none;
  next_client = 0;
  closed = [];
  stopped = false;
  base_time = zero_time;
  phase = not_started;
  events = [];
}

abbrev pub emit : Event → Puller → Puller
emit event p = record p { events = event ∷ p.events }

unfoldable pub close_client : Option ℕ → List ℕ → List ℕ
close_client none closed = closed
close_client (some id) closed = id ∷ closed

-- A client that was started and is closed again.
unfoldable pub abandon : Puller → Puller
abandon p = record p { next_client = p.next_client + 1; closed = p.next_client ∷ p.closed }

-- connectAndPlay; the flag says whether it returns nil.
unfoldable pub connect_and_play : Attempt → Puller → Puller × Bool
unfolding close_client abandon
connect_and_play bad_url p = (p, false)
connect_and_play start_failed p = (p, false)
connect_and_play describe_failed p = (abandon p, false)
connect_and_play no_supported_format p = (abandon p, false)
connect_and_play setup_failed p = (abandon p, false)
connect_and_play play_failed p = (abandon p, false)
connect_and_play (connected now) p = (
  emit connect (record p {
    client = some p.next_client;
    next_client = p.next_client + 1;
    closed = close_client p.client p.closed;
    base_time = now;
  }),
  true,
)

-- Start, which leaves no goroutine if it fails
unfoldable pub start_puller : Attempt → Puller → Puller × Bool
start_puller attempt p =
    let (p', done) = connect_and_play attempt p in
    (if done then record p' { phase = in_wait } else p', done)

-- Stop, up to its wait for the goroutine
unfoldable pub stop_puller : Puller → Puller
unfolding close_client
stop_puller p =
    if p.stopped then p else record p { stopped = true; closed = close_client p.client p.closed }

-- The goroutine when client.Wait has returned, up to the first attempt; it sleeps for the backoff.
unfoldable pub disconnected : Puller → Puller
disconnected p =
    if p.stopped
    then record p { phase = gone }
    else emit disconnect (record p { phase = before_attempt second })

await_phase : Option ℕ → Bool → Phase
await_phase none stopped = gone
await_phase (some id) stopped = if stopped then gone else in_wait

-- The top of run's loop
unfoldable pub await_client : Puller → Puller
unfolding await_phase
await_client p = record p { phase = await_phase p.client p.stopped }

-- An attempt to reconnect, at a backoff
unfoldable pub attempt_reconnect : ℕ → Attempt → Puller → Puller
unfolding await_client
attempt_reconnect backoff attempt p =
    let (p', done) = connect_and_play attempt p in
    if done
    then await_client (emit reconnect p')
    else emit reconnect_failed (record p' { phase = after_failure backoff })

-- backoff *= 2, at most thirty seconds
unfoldable pub next_backoff : ℕ → ℕ
next_backoff backoff = if ltb (30 * second) (backoff * 2) then 30 * second else backoff * 2

-- The select behind a failed attempt: the stop, or the end of the wait.
unfoldable pub wait_over : ℕ → Puller → Puller
unfolding next_backoff
wait_over backoff p = record p {
  phase = if p.stopped then gone else before_attempt (next_backoff backoff);
}

-- The loop of attempts of a puller that is not stopped meanwhile, on the attempts' results: the puller,
-- whether it has a client again, and the waits, in their order.
unfoldable pub reconnect_loop : List Attempt → ℕ → Puller → Puller × Bool × List ℕ
reconnect_loop [] backoff p = (p, false, [])
reconnect_loop (attempt ∷ attempts) backoff p =
    let p' = attempt_reconnect backoff attempt p in
    let rest = reconnect_loop attempts (next_backoff backoff) (wait_over backoff p') in
    if (connect_and_play attempt p).1 then (p', true, []) else (rest.0, rest.1, backoff ∷ rest.2)
