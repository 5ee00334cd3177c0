-- ===== src/Stream/Lifecycle.antt =====
-- NewStreamRecorder, Start and Stop of internal/recorder/stream_recorder.go.
use record_storage.Common.{ℕ, false, none, [], Bytes, Result, ok, err}
use record_storage.Sample.{other_codec, RecorderState, idle, waiting_key_frame, recording, stopping}
use record_storage.Gop.{new_assembler}
use record_storage.Fmp4.Builder.{MediaLibrary, no_params}
use record_storage.Writer.{Writer}
use record_storage.Stream.Actions.{
  Stream, RecorderError, no_gop_available, start_event, stop_event, stop_error_event, Act, ◌>>=◌,
  ◌>>◌, pure, gets, attempt,
}
use record_storage.Stream.Actions.{write_event, set_state}
use record_storage.Stream.Flush.{flush_gop}

-- NewStreamRecorder; the codec's zero value is ""
unfoldable pub new_stream : Bytes → Writer → Stream
new_stream camera_id writer = record {
  camera_id = camera_id;
  assembler = new_assembler;
  builder = none;
  has_mem_ctrl = false;
  state = idle;
  init_key = [];
  init_path = [];
  init_data = [];
  params = no_params;
  codec = other_codec [];
  sequence = 0;
  writer = writer;
  events = [];
}

unfoldable pub start_from : RecorderState → Act (Unit {0})
unfolding set_state write_event
start_from recording = pure tt
start_from waiting_key_frame = pure tt
start_from _ = do set_state waiting_key_frame; write_event start_event

-- Start
unfoldable pub start : Act (Unit {0})
unfolding start_from
start = do state ← gets (λ s. s.state); start_from state

module _ (lib : MediaLibrary) (date_text : ℕ → Bytes) where
  unfoldable pub report_stop_error : Result RecorderError (Unit {0}) → Act (Unit {0})
  unfolding write_event
  report_stop_error (ok r) = pure tt
  report_stop_error (err no_gop_available) = pure tt
  report_stop_error (err e) = write_event stop_error_event

  unfoldable pub finish_stop : Act (Unit {0})
  finish_stop = do
    set_state stopping
    flushed ← attempt (flush_gop lib date_text)
    report_stop_error flushed
    set_state idle
    write_event stop_event

  unfoldable pub stop_from : RecorderState → Act (Unit {0})
  stop_from idle = pure tt
  stop_from _ = finish_stop

  -- Stop
  unfoldable pub stop : Act (Unit {0})
  unfolding stop_from
  stop = do state ← gets (λ s. s.state); stop_from state
