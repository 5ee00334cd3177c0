-- ===== src/Playback/Session/Steps.antt =====
-- The playback server's steps, in internal/playback/server.go.
use record_storage.Common.{ℕ, ◌≡◌, Bytes}
use record_storage.Clock.{Time}
use record_storage.Fmp4.Builder.{MediaLibrary}
use record_storage.Playback.Request.{TextLibrary, Header}
use record_storage.Playback.Reader.{Recordings}
use record_storage.Playback.Session.{
  Server, new_server, on_conn_close, on_session_close, on_describe, on_setup, on_play, on_pause,
  record_progress,
}

-- Each handler, and the progress that a playback records.
pub data Step {E : Type 0} (text : TextLibrary) (r : Recordings E) (lib : MediaLibrary)
    : Server → Server → Type 0 where
  describe :
      (conn : ℕ) (path query : Bytes) (srv srv' : Server)
      → (on_describe text r lib conn path query srv).1 ≡ srv'
      → Step text r lib srv srv'
  setup :
      (conn session : ℕ) (srv srv' : Server)
      → (on_setup conn session srv).1 ≡ srv'
      → Step text r lib srv srv'
  play :
      (header : Header) (session : ℕ) (srv srv' : Server)
      → (on_play text header session srv).1 ≡ srv'
      → Step text r lib srv srv'
  pause :
      (session : ℕ) (srv srv' : Server) → (on_pause session srv).1 ≡ srv' → Step text r lib srv srv'
  close_session :
      (session : ℕ) (srv srv' : Server)
      → on_session_close session srv ≡ srv'
      → Step text r lib srv srv'
  close_conn :
      (conn : ℕ) (srv srv' : Server) → on_conn_close conn srv ≡ srv' → Step text r lib srv srv'
  progress :
      (id : ℕ) (ts : Time) (srv srv' : Server)
      → record_progress id ts srv ≡ srv'
      → Step text r lib srv srv'

pub data Reachable {E : Type 0} (text : TextLibrary) (r : Recordings E) (lib : MediaLibrary)
    : Server → Type 0 where
  started : (srv : Server) → new_server ≡ srv → Reachable text r lib srv
  further :
      {srv srv' : Server}
      → Reachable text r lib srv
      → Step text r lib srv srv'
      → Reachable text r lib srv'
