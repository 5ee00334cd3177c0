-- ===== src/Playback/Session/Live.antt =====
-- The playbacks of one session in the states that the handlers of internal/playback/server.go reach.
use record_storage.Common.{
  ℕ, ◌≡◌, ◌⊎◌, inl, inr, refl, sym, ap, subst, ◌∙◌, true, false, Option, none, some, Result, ok,
  err, arith,
}
use record_storage.Sample.{InitSegment}
use record_storage.Playback.Sender.{build_description}
use record_storage.Fmp4.Builder.{MediaLibrary}
use record_storage.Index.Cursor.{In, All-In}
use record_storage.Playback.Request.{
  RequestError, parse_playback_request, TextLibrary, PlaybackRequest,
}
use record_storage.Playback.Reader.{ReadError, lookup_initial_init, Recordings}
use record_storage.Playback.Session.{
  describe_parsed, describe_found, SessionState, Playback, Server, new_server, update, state_of,
  close_state, pause_state, on_conn_close, on_session_close, on_describe, on_setup, on_play,
  on_pause, record_progress,
}
use record_storage.Playback.Session.Steps.{
  Step, Reachable, describe, setup, play, pause, close_session, close_conn, progress, started,
  further,
}
use record_storage.Playback.Session.Contexts.{
  cancel_of, Live, IsLive, cancel-gone, cancel-now, pause_state-IsLive, progress_state-IsLive,
  close_state-IsLive, play_state-IsLive, setup_state-IsLive, describe_init-IsLive,
}

module _ {E : Type 0} (text : TextLibrary) (r : Recordings E) (lib : MediaLibrary) where
  describe_parsed-IsLive :
      (conn : ℕ) (req : Result RequestError PlaybackRequest) (srv : Server)
      → IsLive srv
      → IsLive (describe_parsed r lib conn req srv).1
  unfolding describe_parsed describe_found
  describe_parsed-IsLive conn (err e) srv l = l
  describe_parsed-IsLive conn (ok req) srv l = found (lookup_initial_init r lib req)
    where
      found : (i : Result (ReadError E) InitSegment) → IsLive (describe_found conn req i srv).1
      found (err e) = l
      found (ok init) = describe_init-IsLive {E = E} conn req init (build_description init) srv l

  Step-IsLive : {srv srv' : Server} → Step text r lib srv srv' → IsLive srv → IsLive srv'
  unfolding on_describe on_setup on_play on_pause on_session_close on_conn_close record_progress
  Step-IsLive (describe conn path query srv srv' e) l =
      subst IsLive e (describe_parsed-IsLive conn (parse_playback_request text path query) srv l)
  Step-IsLive (setup conn session srv srv' e) l =
      subst IsLive e (setup_state-IsLive session (srv.pending conn) srv l)
  Step-IsLive (play header session srv srv' e) l =
      subst IsLive e (play_state-IsLive text header (srv.sessions session) _ srv refl l)
  Step-IsLive (pause session srv srv' e) l =
      subst IsLive e (pause_state-IsLive (srv.sessions session) _ srv refl l)
  Step-IsLive (close_session session srv srv' e) l = subst IsLive e (
      close_state-IsLive (srv.sessions session) _
        (record srv { sessions = update session none srv.sessions })
        (record { known = l.known; live = l.live }))
  Step-IsLive (close_conn conn srv srv' e) l =
      subst IsLive e (record { known = l.known; live = l.live })
  Step-IsLive (progress id ts srv srv' e) l =
      subst IsLive e (progress_state-IsLive (srv.states id) id ts srv refl l)

  Reachable-IsLive : {srv : Server} → Reachable text r lib srv → IsLive srv
  unfolding new_server
  Reachable-IsLive (started srv e) =
      subst IsLive e (record { known = λ k s h. absurd (ground (arith, h)); live = tt })
  Reachable-IsLive (further reached step) = Step-IsLive step (Reachable-IsLive reached)

  -- In every state that the server reaches, two playbacks of one session's state that are both not
  -- cancelled run under one context.
  pub reachable-one_playback :
      (srv : Server) (p q : Playback)
      → Reachable text r lib srv
      → In p srv.playbacks
      → In q srv.playbacks
      → p.state ≡ q.state
      → srv.cancelled p.context ≡ false
      → srv.cancelled q.context ≡ false
      → p.context ≡ q.context
  reachable-one_playback srv p q reached i j same pf qf =
      let l = (Reachable-IsLive reached).live in
      let hp = All-In (Live srv.states srv.cancelled srv.next_state) p srv.playbacks l i in
      let hq = All-In (Live srv.states srv.cancelled srv.next_state) q srv.playbacks l j in
      let now_p = still_held srv p pf hp.1 in
      let now_q = still_held srv q qf hq.1 in
      cc (sym now_p ∙ ap (λ (k : ℕ). cancel_of (srv.states k)) same ∙ now_q)
    where
      still_held :
          (srv : Server) (x : Playback)
          → srv.cancelled x.context ≡ false
          → (srv.cancelled x.context ≡ true) ⊎ (cancel_of (srv.states x.state) ≡ some x.context)
          → cancel_of (srv.states x.state) ≡ some x.context
      still_held srv x alive (inl gone) = absurd (ground (arith, alive, gone))
      still_held srv x alive (inr now) = now

-- What a playback's context is after its state is paused or closed.
module _ (id : ℕ) (srv : Server) (p : Playback) where
  pause_state-stops :
      (s : Option SessionState)
      → (srv.cancelled p.context ≡ true) ⊎ (cancel_of s ≡ some p.context)
      → (pause_state (some id) s srv).cancelled p.context ≡ true
  unfolding pause_state
  pause_state-stops none (inl gone) = gone
  pause_state-stops none (inr now) = cc
  pause_state-stops (some s) (inl gone) = cancel-gone srv.cancelled s.cancel p.context gone
  pause_state-stops (some s) (inr now) = cancel-now srv.cancelled s.cancel p.context now

  close_state-stops :
      (s : Option SessionState)
      → (srv.cancelled p.context ≡ true) ⊎ (cancel_of s ≡ some p.context)
      → (close_state (some id) s srv).cancelled p.context ≡ true
  unfolding close_state
  close_state-stops none (inl gone) = gone
  close_state-stops none (inr now) = cc
  close_state-stops (some s) (inl gone) = cancel-gone srv.cancelled s.cancel p.context gone
  close_state-stops (some s) (inr now) = cancel-now srv.cancelled s.cancel p.context now

-- In every state that the server reaches, OnPause cancels each playback of the session's state, and
-- so does OnSessionClose.
pub reachable-stops :
    {E : Type 0} (text : TextLibrary) (r : Recordings E) (lib : MediaLibrary) (srv : Server)
    (session id : ℕ) (p : Playback)
    → Reachable text r lib srv
    → srv.sessions session ≡ some id
    → In p srv.playbacks
    → p.state ≡ id
    → ((on_pause session srv).1.cancelled p.context ≡ true)
      × ((on_session_close session srv).cancelled p.context ≡ true)
unfolding on_pause on_session_close state_of
reachable-stops text r lib srv session id p reached held i same =
    let l = (Reachable-IsLive text r lib reached).live in
    let h = All-In (Live srv.states srv.cancelled srv.next_state) p srv.playbacks l i in
    let at =
      subst
        (λ (k : ℕ). (srv.cancelled p.context ≡ true) ⊎ (cancel_of (srv.states k) ≡ some p.context))
        same h.1 in
    (
      ap (λ o. (pause_state o (state_of o srv) srv).cancelled p.context) held
          ∙ pause_state-stops id srv p (srv.states id) at,
      ap
            (λ o.
              (close_state o (state_of o srv)
                  (record srv { sessions = update session none srv.sessions })).cancelled
                p.context)
            held
          ∙ close_state-stops id (record srv { sessions = update session none srv.sessions }) p
              (srv.states id) at,
    )
