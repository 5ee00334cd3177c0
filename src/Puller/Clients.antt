-- ===== src/Puller/Clients.antt =====
-- No client is lost in internal/puller/rtsp_puller.go, but one that Stop does not see.
use record_storage.Common.{
  ℕ, ◌+◌, ◌<◌, ◌≡◌, ◌==◌, ◌⊎◌, inl, inr, refl, sym, ap, subst, true, false, Option, none, some,
  List, ◌∷◌, arith, Bool-cases, if_true, if_false,
}
use record_storage.Clock.{Time}
use record_storage.Index.Cursor.{In}
use record_storage.Puller.Reconnect.{
  Attempt, connected, bad_url, start_failed, describe_failed, no_supported_format, setup_failed,
  play_failed, Puller, not_started, in_wait, gone, before_attempt, after_failure, new_puller,
  reconnect, close_client, connect_and_play, start_puller, stop_puller, disconnected, await_client,
  attempt_reconnect, wait_over, abandon,
}

-- The goroutine of run and a caller of Stop, whose calls may fall between any two of its steps.
pub data Step : Puller → Puller → Type 0 where
  starts :
      (a : Attempt) (p p' : Puller)
      → p.phase ≡ not_started
      → p.stopped ≡ false
      → (start_puller a p).0 ≡ p'
      → Step p p'
  stops : (p p' : Puller) → stop_puller p ≡ p' → Step p p'
  disconnects : (p p' : Puller) → p.phase ≡ in_wait → disconnected p ≡ p' → Step p p'
  attempts :
      (d : ℕ) (a : Attempt) (p p' : Puller)
      → p.phase ≡ before_attempt d
      → attempt_reconnect d a p ≡ p'
      → Step p p'
  waits : (d : ℕ) (p p' : Puller) → p.phase ≡ after_failure d → wait_over d p ≡ p' → Step p p'

pub data Reachable : Puller → Type 0 where
  fresh : (p : Puller) → new_puller ≡ p → Reachable p
  further : {p p' : Puller} → Reachable p → Step p p' → Reachable p'

-- Every client that was opened is closed, or is the one at hand.
abbrev pub AllKept : Puller → Type 0
AllKept p = (id : ℕ) → id < p.next_client → In id p.closed ⊎ (p.client ≡ some id)

close_client-old :
    (id : ℕ) (c : Option ℕ) (closed : List ℕ)
    → In id closed ⊎ (c ≡ some id)
    → In id (close_client c closed)
unfolding close_client
close_client-old id none closed (inl i) = i
close_client-old id none closed (inr e) = cc
close_client-old id (some c) closed (inl i) = inr i
close_client-old id (some c) closed (inr e) = inl (cc e)

last_or_before : (id n : ℕ) → id < n + 1 → (id ≡ n) ⊎ (id < n)
last_or_before id n h = elim (Bool-cases (id == n)) [
  | inl t ↦ inl (ground (arith, t))
  | inr t ↦ inr (ground (arith, t))
]

abandon-AllKept : (p : Puller) → AllKept p → AllKept (abandon p)
unfolding abandon
abandon-AllKept p kept id h = elim (last_or_before id p.next_client h) [
  | inl e ↦ inl (inl e)
  | inr old ↦ elim (kept id old) [ inl i ↦ inl (inr i) | inr e ↦ inr e ]
]

connect_and_play-AllKept : (a : Attempt) (p : Puller) → AllKept p → AllKept (connect_and_play a p).0
unfolding connect_and_play
connect_and_play-AllKept bad_url p kept = kept
connect_and_play-AllKept start_failed p kept = kept
connect_and_play-AllKept describe_failed p kept = abandon-AllKept p kept
connect_and_play-AllKept no_supported_format p kept = abandon-AllKept p kept
connect_and_play-AllKept setup_failed p kept = abandon-AllKept p kept
connect_and_play-AllKept play_failed p kept = abandon-AllKept p kept
connect_and_play-AllKept (connected now) p kept = λ id h. elim (last_or_before id p.next_client h) [
  | inl e ↦ inr (ap some (sym e))
  | inr old ↦ inl (close_client-old id p.client p.closed (kept id old))
]

-- The clients that are named have been opened.
abbrev AllOpened : Puller → Type 0
AllOpened p =
    ((id : ℕ) → In id p.closed → id < p.next_client)
    × ((id : ℕ) → p.client ≡ some id → id < p.next_client)

close_client-opened :
    (id n : ℕ) (c : Option ℕ) (closed : List ℕ)
    → ((k : ℕ) → In k closed → k < n)
    → ((k : ℕ) → c ≡ some k → k < n)
    → In id (close_client c closed)
    → id < n
unfolding close_client
close_client-opened id n none closed h k i = h id i
close_client-opened id n (some c) closed h k (inl e) = k id (ap some (sym e))
close_client-opened id n (some c) closed h k (inr i) = h id i

abandon-AllOpened : (p : Puller) → AllOpened p → AllOpened (abandon p)
unfolding abandon
abandon-AllOpened p (closed, client) = (after, λ id e. let b = client id e in omega arith)
  where
    after : (id : ℕ) → In id (p.next_client ∷ p.closed) → id < p.next_client + 1
    after id (inl e) = omega (arith, e)
    after id (inr i) = let b = closed id i in omega arith

connect_and_play-AllOpened :
    (a : Attempt) (p : Puller) → AllOpened p → AllOpened (connect_and_play a p).0
unfolding connect_and_play
connect_and_play-AllOpened bad_url p o = o
connect_and_play-AllOpened start_failed p o = o
connect_and_play-AllOpened describe_failed p o = abandon-AllOpened p o
connect_and_play-AllOpened no_supported_format p o = abandon-AllOpened p o
connect_and_play-AllOpened setup_failed p o = abandon-AllOpened p o
connect_and_play-AllOpened play_failed p o = abandon-AllOpened p o
connect_and_play-AllOpened (connected now) p (closed, client) = (
  λ id i.
      let b = close_client-opened id p.next_client p.client p.closed closed client i in omega arith,
  λ id e. let same : p.next_client ≡ id = cc e in omega (arith, same),
)

-- A step that only closes the client at hand, or changes neither.
record IsKept (p : Puller) : Type 0 where
  kept : AllKept p
  opened : AllOpened p

await_client-IsKept : (p : Puller) → IsKept p → IsKept (await_client p)
unfolding await_client
await_client-IsKept p k = record { kept = k.kept; opened = k.opened }

connect_and_play-IsKept : (a : Attempt) (p : Puller) → IsKept p → IsKept (connect_and_play a p).0
connect_and_play-IsKept a p k = record {
  kept = connect_and_play-AllKept a p k.kept;
  opened = connect_and_play-AllOpened a p k.opened;
}

start_puller-IsKept : (a : Attempt) (p : Puller) → IsKept p → IsKept (start_puller a p).0
unfolding start_puller
start_puller-IsKept a p k =
    let k' = connect_and_play-IsKept a p k in
    elim (Bool-cases (connect_and_play a p).1) [
      | inl t ↦ rw t (record { kept = k'.kept; opened = k'.opened })
      | inr t ↦ rw t k'
    ]

attempt_reconnect-IsKept :
    (d : ℕ) (a : Attempt) (p : Puller) → IsKept p → IsKept (attempt_reconnect d a p)
unfolding attempt_reconnect
attempt_reconnect-IsKept d a p k =
    let (p', done) = connect_and_play a p in
    let k' = connect_and_play-IsKept a p k in
    elim (Bool-cases done) [
      | inl t ↦ rw t (
          await_client-IsKept (record p' { events = reconnect ∷ p'.events })
            (record { kept = k'.kept; opened = k'.opened }))
      | inr t ↦ rw t (record { kept = k'.kept; opened = k'.opened })
    ]

stop_puller-IsKept : (p : Puller) → IsKept p → IsKept (stop_puller p)
unfolding stop_puller
stop_puller-IsKept p k = elim (Bool-cases p.stopped) [
  | inl t ↦ rw (if_true p.stopped p _ t) k
  | inr t ↦ rw (if_false p.stopped p _ t) (record {
    kept = λ id h. inl (close_client-old id p.client p.closed (k.kept id h));
    opened = (
      λ id i. close_client-opened id p.next_client p.client p.closed k.opened.0 k.opened.1 i,
      k.opened.1,
    );
  })
]

disconnected-IsKept : (p : Puller) → IsKept p → IsKept (disconnected p)
unfolding disconnected
disconnected-IsKept p k = elim (Bool-cases p.stopped) [
  | inl t ↦ rw (if_true p.stopped _ _ t) (record { kept = k.kept; opened = k.opened })
  | inr t ↦ rw (if_false p.stopped _ _ t) (record { kept = k.kept; opened = k.opened })
]

Step-IsKept : {p p' : Puller} → Step p p' → IsKept p → IsKept p'
unfolding wait_over
Step-IsKept (starts a p p' at running e) k = subst IsKept e (start_puller-IsKept a p k)
Step-IsKept (stops p p' e) k = subst IsKept e (stop_puller-IsKept p k)
Step-IsKept (disconnects p p' at e) k = subst IsKept e (disconnected-IsKept p k)
Step-IsKept (attempts d a p p' at e) k = subst IsKept e (attempt_reconnect-IsKept d a p k)
Step-IsKept (waits d p p' at e) k = subst IsKept e (record { kept = k.kept; opened = k.opened })

Reachable-IsKept : {p : Puller} → Reachable p → IsKept p
unfolding new_puller
Reachable-IsKept (fresh p e) =
    subst IsKept e (record { kept = λ id h. elim h [ ]; opened = (λ id i. elim i [ ], λ id h. cc) })
Reachable-IsKept (further r s) = Step-IsKept s (Reachable-IsKept r)

-- In every state that the puller reaches, each client that it has opened is closed or is the one at
-- hand.
pub reachable-AllKept :
    (p : Puller) (id : ℕ) → Reachable p → id < p.next_client → In id p.closed ⊎ (p.client ≡ some id)
reachable-AllKept p id r h = (Reachable-IsKept r).kept id h

-- Where a reconnect succeeds after Stop, the goroutine ends and the new client is left open: a
-- further Stop changes nothing.
pub reconnect_after_stop_leaks :
    (p : Puller) (d : ℕ) (now : Time)
    → Reachable p
    → p.stopped ≡ true
    → p.phase ≡ before_attempt d
    → ((attempt_reconnect d (connected now) p).phase ≡ gone)
      × ((attempt_reconnect d (connected now) p).client ≡ some p.next_client)
      × (In p.next_client (attempt_reconnect d (connected now) p).closed → ⊥)
      × (stop_puller (attempt_reconnect d (connected now) p)
          ≡ attempt_reconnect d (connected now) p)
unfolding attempt_reconnect connect_and_play await_client stop_puller
reconnect_after_stop_leaks p d now r stopped at = (
  rw stopped refl,
  refl,
  λ i.
      let o = (Reachable-IsKept r).opened in
      let b = close_client-opened p.next_client p.next_client p.client p.closed o.0 o.1 i in
      absurd (omega (arith, b)),
  if_true p.stopped _ _ stopped,
)
