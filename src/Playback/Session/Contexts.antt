-- ===== src/Playback/Session/Contexts.antt =====
-- The contexts of playbacks under the handlers of internal/playback/server.go.
use record_storage.Common.{
  ℕ, ◌+◌, ◌<◌, ◌==◌, ==_iff, ◌≡◌, ◌⊎◌, inl, inr, refl, sym, ap, ◌∙◌, Bool, true, false, Option,
  none, some, List, All, [], ◌∷◌, Result, ok, err, arith, Bool-cases,
}
use record_storage.Sample.{InitSegment}
use record_storage.Playback.Sender.{Format, SendError}
use record_storage.Clock.{Time}
use record_storage.Playback.Request.{RequestError, TextLibrary, Header, PlaybackRequest}
use record_storage.Playback.Session.{
  resolve_play_parameters, new_session_state, SessionState, Playback, Server, update,
  cancel_context, state_of, add_pending, close_state, start_playback, pause_state, progress_state,
  play_state, play_resolved, setup_state, describe_init,
}

abbrev pub cancel_of : Option SessionState → Option ℕ
cancel_of none = none
cancel_of (some s) = s.cancel

-- A playback is cancelled, or is the one whose context the state holds.
abbrev pub Live : (ℕ → Option SessionState) → (ℕ → Bool) → ℕ → Playback → Type 0
Live states cancelled bound p =
    (p.state < bound)
    × ((cancelled p.context ≡ true) ⊎ (cancel_of (states p.state) ≡ some p.context))

pub record IsLive (srv : Server) : Type 0 where
  pub known : (id : ℕ) (s : SessionState) → srv.states id ≡ some s → id < srv.next_state
  pub live : All (Live srv.states srv.cancelled srv.next_state) srv.playbacks

All-map :
    {P Q : Playback → Type 0} (ps : List Playback)
    → ((p : Playback) → P p → Q p)
    → All P ps
    → All Q ps
All-map [] f h = tt
All-map (p ∷ ps) f h = (f p h.0, All-map ps f h.1)

module _ (cancelled : ℕ → Bool) where
  pub cancel-gone :
      (c : Option ℕ) (k : ℕ) → cancelled k ≡ true → cancel_context c cancelled k ≡ true
  unfolding cancel_context
  cancel-gone none k h = h
  cancel-gone (some c) k h = ground (arith, h)

  pub cancel-now : (c : Option ℕ) (k : ℕ) → c ≡ some k → cancel_context c cancelled k ≡ true
  unfolding cancel_context
  cancel-now none k h = cc
  cancel-now (some c) k h = ground (arith, h)

module _ (id : ℕ) (s s' : SessionState) (states : ℕ → Option SessionState) (cancelled : ℕ → Bool)
    (n : ℕ) (held : states id ≡ some s) where
  current :
      (p : Playback)
      → (p.state == id) ≡ true
      → cancel_of (states p.state) ≡ some p.context
      → s.cancel ≡ some p.context
  current p t now =
      let same : p.state ≡ id = (==_iff p.state id).0 t in
      ap cancel_of (sym held) ∙ ap (λ (k : ℕ). cancel_of (states k)) (sym same) ∙ now

  -- A state that keeps its context, and one whose context is cancelled.
  Live-same :
      (p : Playback)
      → s'.cancel ≡ s.cancel
      → Live states cancelled n p
      → Live (update id (some s') states) cancelled n p
  Live-same p e (below, inl gone) = (below, inl gone)
  Live-same p e (below, inr now) = elim (Bool-cases (p.state == id)) [
    | inl t ↦ (below, inr (rw t (e ∙ current p t now)))
    | inr t ↦ (below, inr (rw t now))
  ]

  Live-cancelled :
      (p : Playback)
      → Live states cancelled n p
      → Live (update id (some s') states) (cancel_context s.cancel cancelled) n p
  Live-cancelled p (below, inl gone) = (below, inl (cancel-gone cancelled s.cancel p.context gone))
  Live-cancelled p (below, inr now) = elim (Bool-cases (p.state == id)) [
    | inl t ↦ (below, inl (cancel-now cancelled s.cancel p.context (current p t now)))
    | inr t ↦ (below, inr (rw t now))
  ]

  known-update :
      ((k : ℕ) (x : SessionState) → states k ≡ some x → k < n)
      → (k : ℕ) (x : SessionState) → update id (some s') states k ≡ some x
      → k < n
  known-update known k x h = elim (Bool-cases (k == id)) [
    | inl t ↦ let same : k ≡ id = (==_iff k id).0 t in rw same (known id s held)
    | inr t ↦ known k x (rw t at h)
  ]

start_playback-IsLive :
    (id : ℕ) (s : SessionState) (start : Time) (scale : ℕ) (srv : Server)
    → srv.states id ≡ some s
    → IsLive srv
    → IsLive (start_playback id s start scale srv)
unfolding start_playback
start_playback-IsLive id s start scale srv held l = record {
  known = known-update id s _ srv.states srv.cancelled srv.next_state held l.known;
  live = (
    (l.known id s held, inr (rw ((==_iff id id).1 refl) refl)),
    All-map srv.playbacks (Live-cancelled id s _ srv.states srv.cancelled srv.next_state held)
        l.live,
  );
}

pub pause_state-IsLive :
    (id : Option ℕ) (s : Option SessionState) (srv : Server)
    → state_of id srv ≡ s
    → IsLive srv
    → IsLive (pause_state id s srv)
unfolding pause_state state_of
pause_state-IsLive none none srv held l = l
pause_state-IsLive none (some s) srv held l = l
pause_state-IsLive (some id) none srv held l = l
pause_state-IsLive (some id) (some s) srv held l = record {
  known = known-update id s _ srv.states srv.cancelled srv.next_state held l.known;
  live =
      All-map srv.playbacks (Live-cancelled id s _ srv.states srv.cancelled srv.next_state held)
        l.live;
}

pub progress_state-IsLive :
    (s : Option SessionState) (id : ℕ) (ts : Time) (srv : Server)
    → srv.states id ≡ s
    → IsLive srv
    → IsLive (progress_state s id ts srv)
unfolding progress_state
progress_state-IsLive none id ts srv held l = l
progress_state-IsLive (some s) id ts srv held l = record {
  known = known-update id s _ srv.states srv.cancelled srv.next_state held l.known;
  live =
      All-map srv.playbacks
        (λ p. Live-same id s _ srv.states srv.cancelled srv.next_state held p refl) l.live;
}

closed :
    (c : Option ℕ) (srv : Server) (p : Playback)
    → Live srv.states srv.cancelled srv.next_state p
    → Live srv.states (cancel_context c srv.cancelled) srv.next_state p
closed c srv p (below, inl gone) = (below, inl (cancel-gone srv.cancelled c p.context gone))
closed c srv p (below, inr now) = (below, inr now)

pub close_state-IsLive :
    (id : Option ℕ) (s : Option SessionState) (srv : Server)
    → IsLive srv
    → IsLive (close_state id s srv)
unfolding close_state
close_state-IsLive none none srv l = l
close_state-IsLive none (some s) srv l = l
close_state-IsLive (some id) none srv l = l
close_state-IsLive (some id) (some s) srv l = record {
  known = l.known;
  live = All-map srv.playbacks (closed s.cancel srv) l.live;
}

add_pending-IsLive :
    (conn : ℕ) (s : SessionState) (srv : Server)
    → s.cancel ≡ none
    → IsLive srv
    → IsLive (add_pending conn s srv)
unfolding add_pending
add_pending-IsLive conn s srv fresh l = record {
  known = known_added l.known;
  live = All-map srv.playbacks added l.live;
}
  where
    known_added :
        ((k : ℕ) (x : SessionState) → srv.states k ≡ some x → k < srv.next_state)
        → (k : ℕ) (x : SessionState) → update srv.next_state (some s) srv.states k ≡ some x
        → k < srv.next_state + 1
    known_added known k x h = elim (Bool-cases (k == srv.next_state)) [
      | inl t ↦ ground (arith, t)
      | inr t ↦ let b = known k x (rw t at h) in omega arith
    ]

    added :
        (p : Playback)
        → Live srv.states srv.cancelled srv.next_state p
        → Live (update srv.next_state (some s) srv.states) srv.cancelled (srv.next_state + 1) p
    added p (below, inl gone) = (omega arith, inl gone)
    added p (below, inr now) =
        let other : (p.state == srv.next_state) ≡ false = ground arith in
        (omega arith, inr (rw other now))

play_resolved-IsLive :
    (id : ℕ) (s : SessionState) (r : Result RequestError (Time × ℕ)) (srv : Server)
    → srv.states id ≡ some s
    → IsLive srv
    → IsLive (play_resolved id s r srv).1
unfolding play_resolved
play_resolved-IsLive id s (err e) srv held l = l
play_resolved-IsLive id s (ok (start, scale)) srv held l =
    start_playback-IsLive id s start scale srv held l

pub play_state-IsLive :
    (text : TextLibrary) (header : Header) (id : Option ℕ) (s : Option SessionState) (srv : Server)
    → state_of id srv ≡ s
    → IsLive srv
    → IsLive (play_state text header id s srv).1
unfolding play_state state_of
play_state-IsLive text header none none srv held l = l
play_state-IsLive text header none (some s) srv held l = l
play_state-IsLive text header (some id) none srv held l = l
play_state-IsLive text header (some id) (some s) srv held l =
    play_resolved-IsLive id s (resolve_play_parameters text header s) srv held l

pub setup_state-IsLive :
    (session : ℕ) (id : Option ℕ) (srv : Server)
    → IsLive srv
    → IsLive (setup_state session id srv).1
unfolding setup_state
setup_state-IsLive session none srv l = l
setup_state-IsLive session (some id) srv l = record { known = l.known; live = l.live }

pub describe_init-IsLive :
    {E : Type 0} (conn : ℕ) (req : PlaybackRequest) (init : InitSegment)
    (r : Result (SendError E) Format) (srv : Server)
    → IsLive srv
    → IsLive (describe_init conn req init r srv).1
unfolding describe_init new_session_state
describe_init-IsLive conn req init (err e) srv l = l
describe_init-IsLive conn req init (ok format) srv l =
    add_pending-IsLive conn (new_session_state req format init) srv refl l
