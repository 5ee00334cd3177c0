-- ===== src/Playback/Session.antt =====
-- The sessions of internal/playback/server.go. A session's state is one object, which the maps
-- `pending` and `sessions` share: it is named by a number. So is the context of a playback.
pub mod Steps
pub mod Contexts
pub mod Live
use record_storage.Common.{
  ℕ, ◌+◌, ◌==◌, Bool, true, false, ◌||◌, Option, none, some, List, [], ◌∷◌, Bytes, codes, Result,
  ok, err, ◌>>=◌, if◌then◌else◌,
}
use record_storage.Clock.{Time, zero_time}
use record_storage.Sample.{InitSegment}
use record_storage.Fmp4.Builder.{MediaLibrary}
use record_storage.Playback.Scale.{normal, parse_scale}
use record_storage.Playback.Request.{
  TextLibrary, PlaybackRequest, RequestError, unsupported_scale, Header, header_value,
  parse_range_header, parse_playback_request,
}
use record_storage.Playback.Reader.{ReadError, Recordings, lookup_initial_init}
use record_storage.Playback.Sender.{Format, SendError, build_description}

pub record SessionState : Type 0 where
  pub request : PlaybackRequest
  pub format : Format
  pub init : InitSegment
  pub cancel : Option ℕ
  pub last_scale : ℕ
  pub position : Time
  pub has_progress : Bool

-- A call of runPlayback
pub record Playback : Type 0 where
  pub context : ℕ
  pub state : ℕ
  pub start : Time
  pub scale : ℕ

pub record Server : Type 0 where
  pub states : ℕ → Option SessionState
  pub next_state : ℕ
  pub pending : ℕ → Option ℕ
  pub sessions : ℕ → Option ℕ
  pub cancelled : ℕ → Bool
  pub next_context : ℕ
  pub playbacks : List Playback
  pub closed_streams : List ℕ

pub data Status : Type 0 where
  status_ok bad_request not_found internal_server_error : Status

unfoldable pub new_server : Server
new_server = record {
  states = λ id. none;
  next_state = 0;
  pending = λ conn. none;
  sessions = λ session. none;
  cancelled = λ context. false;
  next_context = 0;
  playbacks = [];
  closed_streams = [];
}

abbrev pub update : {A : Type 0} → ℕ → A → (ℕ → A) → ℕ → A
update k a m n = if n == k then a else m n

-- state.cancel(), where there is one
unfoldable pub cancel_context : Option ℕ → (ℕ → Bool) → ℕ → Bool
cancel_context none cancelled = cancelled
cancel_context (some context) cancelled = update context true cancelled

unfoldable pub new_session_state : PlaybackRequest → Format → InitSegment → SessionState
new_session_state req format init = record {
  request = req;
  format = format;
  init = init;
  cancel = none;
  last_scale = normal;
  position = zero_time;
  has_progress = false;
}

pick_first : {A : Type 0} → List Bytes → (Bytes → Result RequestError A) → A → Result RequestError A
pick_first [] parse default = ok default
pick_first (value ∷ values) parse default = parse value

scale_or_err : Bytes → Result RequestError ℕ
scale_or_err value = elim (parse_scale value) [
  | none ↦ err unsupported_scale
  | some scale ↦ ok scale
]

unfoldable pub resolve_play_parameters :
    TextLibrary → Header → SessionState → Result RequestError (Time × ℕ)
unfolding pick_first scale_or_err
resolve_play_parameters text header s = do
  start ←
      pick_first (header_value header (codes "Range"))
        (λ value. parse_range_header text value s.request.start)
        (if s.has_progress then s.position else s.request.start)
  scale ←
      pick_first (header_value header (codes "Scale")) scale_or_err
        (if s.last_scale == 0 then normal else s.last_scale)
  ok (start, scale)

unfoldable pub state_of : Option ℕ → Server → Option SessionState
state_of none srv = none
state_of (some id) srv = srv.states id

unfoldable pub on_conn_close : ℕ → Server → Server
on_conn_close conn srv = record srv { pending = update conn none srv.pending }

pub close_state : Option ℕ → Option SessionState → Server → Server
unfolding cancel_context
close_state (some id) (some s) srv = record srv {
  cancelled = cancel_context s.cancel srv.cancelled;
  closed_streams = id ∷ srv.closed_streams;
}
close_state _ _ srv = srv

unfoldable pub on_session_close : ℕ → Server → Server
unfolding close_state state_of
on_session_close session srv =
    close_state (srv.sessions session) (state_of (srv.sessions session) srv)
      (record srv { sessions = update session none srv.sessions })

unfoldable pub add_pending : ℕ → SessionState → Server → Server
add_pending conn s srv = record srv {
  states = update srv.next_state (some s) srv.states;
  next_state = srv.next_state + 1;
  pending = update conn (some srv.next_state) srv.pending;
}

pub describe_init :
    {E : Type 0}
    → ℕ
    → PlaybackRequest
    → InitSegment
    → Result (SendError E) Format
    → Server
    → Status × Server
unfolding add_pending
describe_init conn req init (err e) srv = (internal_server_error, srv)
describe_init conn req init (ok format) srv =
    (status_ok, add_pending conn (new_session_state req format init) srv)

describe_found :
    {E : Type 0} → ℕ → PlaybackRequest → Result (ReadError E) InitSegment → Server → Status × Server
unfolding describe_init
describe_found conn req (err e) srv = (not_found, srv)
describe_found {E} conn req (ok init) srv =
    describe_init {E = E} conn req init (build_description init) srv

describe_parsed :
    {E : Type 0}
    → Recordings E
    → MediaLibrary
    → ℕ
    → Result RequestError PlaybackRequest
    → Server
    → Status × Server
unfolding describe_found
describe_parsed r lib conn (err e) srv = (bad_request, srv)
describe_parsed r lib conn (ok req) srv =
    describe_found conn req (lookup_initial_init r lib req) srv

unfoldable pub on_describe :
    {E : Type 0}
    → TextLibrary
    → Recordings E
    → MediaLibrary
    → ℕ
    → Bytes
    → Bytes
    → Server
    → Status × Server
unfolding describe_parsed
on_describe text r lib conn path query srv =
    describe_parsed r lib conn (parse_playback_request text path query) srv

pub setup_state : ℕ → Option ℕ → Server → Status × Server
setup_state session none srv = (not_found, srv)
setup_state session (some id) srv =
    (status_ok, record srv { sessions = update session (some id) srv.sessions })

unfoldable pub on_setup : ℕ → ℕ → Server → Status × Server
unfolding setup_state
on_setup conn session srv = setup_state session (srv.pending conn) srv

-- The rest of OnPlay, with its parameters; a scale is never negative.
unfoldable pub start_playback : ℕ → SessionState → Time → ℕ → Server → Server
unfolding cancel_context
start_playback id s start scale srv = record srv {
  states =
      update id
        (some (record s {
          cancel = some srv.next_context;
          last_scale = scale;
          position = start;
          has_progress = true;
        }))
        srv.states;
  cancelled = cancel_context s.cancel srv.cancelled;
  next_context = srv.next_context + 1;
  playbacks =
      record { context = srv.next_context; state = id; start = start; scale = scale }
      ∷ srv.playbacks;
}

play_resolved : ℕ → SessionState → Result RequestError (Time × ℕ) → Server → Status × Server
unfolding start_playback
play_resolved id s (err e) srv = (bad_request, srv)
play_resolved id s (ok (start, scale)) srv = (status_ok, start_playback id s start scale srv)

pub play_state : TextLibrary → Header → Option ℕ → Option SessionState → Server → Status × Server
unfolding play_resolved
play_state text header (some id) (some s) srv =
    play_resolved id s (resolve_play_parameters text header s) srv
play_state text header _ _ srv = (not_found, srv)

unfoldable pub on_play : TextLibrary → Header → ℕ → Server → Status × Server
unfolding play_state state_of
on_play text header session srv =
    play_state text header (srv.sessions session) (state_of (srv.sessions session) srv) srv

pub pause_state : Option ℕ → Option SessionState → Server → Server
unfolding cancel_context
pause_state (some id) (some s) srv = record srv {
  states = update id (some (record s { cancel = none })) srv.states;
  cancelled = cancel_context s.cancel srv.cancelled;
}
pause_state _ _ srv = srv

unfoldable pub on_pause : ℕ → Server → Status × Server
unfolding pause_state state_of
on_pause session srv =
    (status_ok, pause_state (srv.sessions session) (state_of (srv.sessions session) srv) srv)

pub progress_state : Option SessionState → ℕ → Time → Server → Server
progress_state none id ts srv = srv
progress_state (some s) id ts srv = record srv {
  states = update id (some (record s { position = ts; has_progress = true })) srv.states;
}

-- recordProgress, called by a playback of the state
unfoldable pub record_progress : ℕ → Time → Server → Server
unfolding progress_state
record_progress id ts srv = progress_state (srv.states id) id ts srv
