-- ===== src/Puller/Waits.antt =====
-- The waits of the loop that reconnects in internal/puller/rtsp_puller.go.
use record_storage.Common.{
  ℕ, ◌*◌, ◌≤◌, ◌≡◌, suc, refl, ap, subst, ◌∙◌, Bool, true, false, some, List, All, [], ◌∷◌, ◌++◌,
  length, arith,
}
use record_storage.Clock.{Time, second}
use record_storage.Puller.Reconnect.{
  Attempt, connected, bad_url, start_failed, describe_failed, no_supported_format, setup_failed,
  play_failed, Puller, in_wait, connect_and_play, attempt_reconnect, await_client, wait_over,
  next_backoff, reconnect_loop,
}

abbrev pub Fails : Attempt → Type 0
Fails (connected now) = ⊥
Fails _ = Unit {0}

abbrev pub IsBackoff : ℕ → Type 0
IsBackoff d = (second ≤ d) × (d ≤ 30 * second)

next_backoff-IsBackoff : (d : ℕ) → IsBackoff d → IsBackoff (next_backoff d)
unfolding next_backoff
next_backoff-IsBackoff d h = ground (arith, h.0, h.1)

Fails-false : (a : Attempt) (p : Puller) → Fails a → (connect_and_play a p).1 ≡ false
unfolding connect_and_play
Fails-false bad_url p h = refl
Fails-false start_failed p h = refl
Fails-false describe_failed p h = refl
Fails-false no_supported_format p h = refl
Fails-false setup_failed p h = refl
Fails-false play_failed p h = refl
Fails-false (connected now) p h = elim h [ ]

-- The puller's attributes that the loop keeps
attempt_reconnect-stopped :
    (d : ℕ) (a : Attempt) (p : Puller)
    → Fails a
    → (wait_over d (attempt_reconnect d a p)).stopped ≡ p.stopped
unfolding wait_over attempt_reconnect connect_and_play
attempt_reconnect-stopped d bad_url p h = refl
attempt_reconnect-stopped d start_failed p h = refl
attempt_reconnect-stopped d describe_failed p h = refl
attempt_reconnect-stopped d no_supported_format p h = refl
attempt_reconnect-stopped d setup_failed p h = refl
attempt_reconnect-stopped d play_failed p h = refl
attempt_reconnect-stopped d (connected now) p h = elim h [ ]

reconnect_loop-Fails :
    (a : Attempt) (attempts : List Attempt) (d : ℕ) (p : Puller)
    → Fails a
    → (let rest =
          reconnect_loop attempts (next_backoff d) (wait_over d (attempt_reconnect d a p)) in
        (rest.0, rest.1, d ∷ rest.2))
      ≡ reconnect_loop (a ∷ attempts) d p
unfolding reconnect_loop
reconnect_loop-Fails a attempts d p f = rw (Fails-false a p f) refl

-- The result of a loop that has connected after `n` waits.
abbrev pub Connects : ℕ → Puller × Bool × List ℕ → Type 0
Connects n (p, done, waits) =
    (id : ℕ) × (done ≡ true)
    × (p.client ≡ some id)
    × (p.phase ≡ in_wait)
    × (length waits ≡ n)
    × All IsBackoff waits

-- The first attempt that connects ends the loop of a puller that is not stopped, with a client that
-- is waited for, however many attempts failed before it; there was one wait for each that failed, of
-- one to thirty seconds.
pub reconnect_loop-Connects :
    (failed : List Attempt) (now : Time) (later : List Attempt) (d : ℕ) (p : Puller)
    → All Fails failed
    → IsBackoff d
    → p.stopped ≡ false
    → Connects (length failed) (reconnect_loop (failed ++ (connected now ∷ later)) d p)
reconnect_loop-Connects [] now later d p f b s =
    unfold reconnect_loop attempt_reconnect connect_and_play await_client in
    rw s (p.next_client, refl, refl, refl, refl, tt)
reconnect_loop-Connects (a ∷ failed) now later d p f b s =
    let (id, done, client, phase, waits, each) =
      reconnect_loop-Connects failed now later (next_backoff d)
        (wait_over d (attempt_reconnect d a p)) f.1 (next_backoff-IsBackoff d b)
        (attempt_reconnect-stopped d a p f.0 ∙ s) in
    subst (Connects (suc (length failed)))
      (reconnect_loop-Fails a (failed ++ (connected now ∷ later)) d p f.0)
      (id, done, client, phase, ap suc waits, (b, each))
