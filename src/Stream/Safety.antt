-- ===== src/Stream/Safety.antt =====
-- What the methods of internal/recorder/stream_recorder.go keep, and where they leave the state.
use record_storage.Common.{
  ℕ, ◌≡◌, refl, ap, Bool, true, false, not, if◌then◌else◌, Bytes, Result, ok, err, arith, ◌∙◌,
}
use record_storage.Sample.{Sample, RecorderState, idle, waiting_key_frame, recording, stopping}
use record_storage.Gop.{new_assembler}
use record_storage.Gop.Invariant.{IsValid, new_assembler-IsValid, flush-new_assembler}
use record_storage.Fmp4.Builder.{MediaLibrary}
use record_storage.Stream.Actions.{
  Stream, RecorderError, builder_not_initialized, no_gop_available, build_failed, submit_failed,
  stop_event, ◌>>◌, attempt, set_state, write_event,
}
use record_storage.Stream.Flush.{flush_gop}
use record_storage.Stream.Process.{process_sample, process_in, pressed, take_sample}
use record_storage.Stream.Lifecycle.{
  start, stop, start_from, stop_from, finish_stop, report_stop_error,
}
use record_storage.Stream.Control.{assembler-flush_gop}
use record_storage.Stream.Invariant.{is_recording, IsReady, IsLive, HasBuilder}
use record_storage.Stream.Taken.{MayBegin, take_sample-Triple}
use record_storage.Stream.Triple.{Triple, After, bind}

-- The state the recorder goes on with after a sample.
abbrev pub next_state : RecorderState → Sample → Bool → RecorderState
next_state waiting_key_frame sample b =
    if not sample.is_key then waiting_key_frame else if b then waiting_key_frame else recording
next_state state sample b = state

module _ (lib : MediaLibrary) (date_text : ℕ → Bytes) where
  if-IsReady :
      (b : Bool) (r r' : Result RecorderError (Unit {0}) × Stream)
      → IsReady r.1
      → IsReady r'.1
      → IsReady (if b then r else r').1
  if-IsReady true r r' h k = h
  if-IsReady false r r' h k = k

  ready-After :
      (r : Result RecorderError (Unit {0}) × Stream) → After (λ _. HasBuilder) IsLive r → IsLive r.1
  ready-After (ok a, s) h = h.live
  ready-After (err e, s) h = h

  taken-IsLive :
      (t : Bool) (sample : Sample) (s : Stream)
      → MayBegin lib date_text t s
      → IsLive (take_sample lib date_text t sample s).1
  taken-IsLive t sample s h =
      ready-After (take_sample lib date_text t sample s)
        ((take_sample-Triple lib date_text t sample).at s h)

  process_in-IsReady :
      (state : RecorderState) (sample : Sample) (s : Stream)
      → s.state ≡ state
      → IsReady s
      → IsReady (process_in lib date_text state sample s).1
  unfolding process_in
  process_in-IsReady idle sample s e h = h
  process_in-IsReady stopping sample s e h = h
  process_in-IsReady waiting_key_frame sample s e h = if-IsReady (not sample.is_key) _ _ h (
      if-IsReady (pressed sample s) _ _ h (taken-IsLive true sample s (h, λ f. ground arith)).ready)
  process_in-IsReady recording sample s e h =
      if-IsReady (pressed sample s) _ _ h (taken-IsLive false sample s (h, λ f. e)).ready

  pub process_sample-IsReady :
      (sample : Sample) (s : Stream) → IsReady s → IsReady (process_sample lib date_text sample s).1
  unfolding process_sample
  process_sample-IsReady sample s h = process_in-IsReady s.state sample s refl h

  IsEmpty : Stream → Type 0
  IsEmpty s = s.assembler ≡ new_assembler

  abbrev Never : Stream → Type 0
  Never s = ⊥

  report-IsEmpty :
      (r : Result RecorderError (Unit {0}))
      → Triple IsEmpty (report_stop_error lib date_text r) (λ _. IsEmpty) Never
  unfolding IsEmpty report_stop_error write_event
  report-IsEmpty (ok u) = record { at = λ s h. h }
  report-IsEmpty (err no_gop_available) = record { at = λ s h. h }
  report-IsEmpty (err builder_not_initialized) = record { at = λ s h. h }
  report-IsEmpty (err (build_failed e)) = record { at = λ s h. h }
  report-IsEmpty (err (submit_failed e)) = record { at = λ s h. h }

  abbrev Idle : Stream → Type 0
  Idle s = IsEmpty s × (s.state ≡ idle)

  go_idle : Triple IsEmpty (set_state idle >> write_event stop_event) (λ _. Idle) Never
  unfolding IsEmpty set_state write_event
  go_idle = record { at = λ s h. (h, refl) }

  finish_stop-IsEmpty : Triple IsReady (finish_stop lib date_text) (λ _. Idle) Never
  unfolding finish_stop IsEmpty set_state
  finish_stop-IsEmpty =
      bind {Q = λ _ s. IsValid s.assembler} (set_state stopping) _ (record { at = λ s h. h.valid })
        (λ _.
          bind {Q = λ _. IsEmpty} (attempt (flush_gop lib date_text)) _
            (record {
              at = λ s h. assembler-flush_gop lib date_text s ∙ flush-new_assembler s.assembler h;
            })
            (λ r. bind (report_stop_error lib date_text r) _ (report-IsEmpty r) (λ _. go_idle)))

  IsStopped : Stream → Type 0
  IsStopped s = IsReady s × (s.state ≡ idle)

  After-stop :
      (r : Result RecorderError (Unit {0}) × Stream) → After (λ _. Idle) Never r → IsStopped r.1
  unfolding IsStopped IsEmpty
  After-stop (ok u, s) (e, i) =
      (record { valid = rw e new_assembler-IsValid; built = λ b. e; quiet = λ q. e }, i)
  After-stop (err u, s) h = elim h [ ]

  finish_stop-IsStopped : (s : Stream) → IsReady s → IsStopped (finish_stop lib date_text s).1
  finish_stop-IsStopped s h = After-stop (finish_stop lib date_text s) (finish_stop-IsEmpty.at s h)

  stop_from-IsStopped :
      (state : RecorderState) (s : Stream)
      → IsReady s
      → s.state ≡ state
      → IsStopped (stop_from lib date_text state s).1
  unfolding stop_from IsStopped
  stop_from-IsStopped idle s h e = (h, e)
  stop_from-IsStopped waiting_key_frame s h e = finish_stop-IsStopped s h
  stop_from-IsStopped recording s h e = finish_stop-IsStopped s h
  stop_from-IsStopped stopping s h e = finish_stop-IsStopped s h

  stop-IsStopped : (s : Stream) → IsReady s → IsStopped (stop lib date_text s).1
  unfolding stop
  stop-IsStopped s h = stop_from-IsStopped s.state s h refl

  newly_started :
      (s : Stream) → IsReady s → s.assembler ≡ new_assembler → IsReady (start_from idle s).1
  unfolding start_from set_state write_event
  newly_started s h e = record { valid = h.valid; built = h.built; quiet = λ q. e }

  start_from-IsReady :
      (state : RecorderState) (s : Stream)
      → IsReady s
      → s.state ≡ state
      → IsReady (start_from state s).1
  unfolding start_from set_state write_event
  start_from-IsReady recording s h e = h
  start_from-IsReady waiting_key_frame s h e = h
  start_from-IsReady idle s h e = newly_started s h (h.quiet (ap is_recording e))
  start_from-IsReady stopping s h e = newly_started s h (h.quiet (ap is_recording e))

  pub start-IsReady : (s : Stream) → IsReady s → IsReady (start s).1
  unfolding start
  start-IsReady s h = start_from-IsReady s.state s h refl

  pub stop-IsReady : (s : Stream) → IsReady s → IsReady (stop lib date_text s).1
  unfolding IsStopped
  stop-IsReady s h = (stop-IsStopped s h).0

  pub stop-state : (s : Stream) → IsReady s → (stop lib date_text s).1.state ≡ idle
  unfolding IsStopped
  stop-state s h = (stop-IsStopped s h).1

  pub start-state : (s : Stream) → s.state ≡ idle → (start s).1.state ≡ waiting_key_frame
  unfolding start start_from set_state write_event
  start-state s e = ap (λ t. (start_from t s).1.state) e
