-- ===== src/Stream/Calls.antt =====
-- The methods of internal/recorder/stream_recorder.go piece by piece: a call is what a goroutine has
-- still to do. The mutex is held in a piece and free between two; an atomic load is a piece of its own,
-- and the assembler has its own mutex. BuildFragment and Submit are joined to the locked part of
-- FlushGOP before them, whose values they work on.
use record_storage.Common.{
  ℕ, Bool, true, false, not, Option, none, some, List, [], ◌∷◌, Bytes, Result, ok, err,
  if◌then◌else◌,
}
use record_storage.Clock.{Time}
use record_storage.Sample.{Sample, RecorderState, idle, waiting_key_frame, recording, stopping}
use record_storage.Gop
use record_storage.Fmp4.Builder.{MediaLibrary}
use record_storage.Stream.Actions.{
  Stream, RecorderError, no_gop_available, stop_event, set_state, write_event,
}
use record_storage.Stream.Flush.{flush_samples}
use record_storage.Stream.Process.{
  pressed, is_none, needs_rebuild, begin_recording, report_recording, rebuild_builder,
  add_to_assembler,
}
use record_storage.Stream.Lifecycle.{report_stop_error}

-- What comes after a FlushGOP: the rest of ProcessSample, of Stop, or nothing.
pub data Then : Type 0 where
  to_rebuild : Bool → Sample → Then
  to_add_again : Sample → Then
  to_idle to_return : Then

pub data Call : Type 0 where
  -- ProcessSample with the state that it has loaded, and then with the sample taken
  loaded : RecorderState → Sample → Call
  taken : Bool → Sample → Call
  deciding : Bool → Sample → Call
  reporting : Bool → Bool → Bool → Sample → Call
  rebuilding : Bool → Sample → Call
  adding : Sample → Call
  adding_again : Sample → Call
  -- FlushGOP, and FlushGOP with the samples in hand
  flushing : Then → Call
  flushed : List Sample → Time → Then → Call
  -- the end of Stop
  idling : Call

module _ (lib : MediaLibrary) (date_text : ℕ → Bytes) where
  unfoldable pub after_flush :
      Then → Result RecorderError (Unit {0}) → Stream → Stream × Option Call
  after_flush (to_rebuild had sample) (ok u) s = (s, some (rebuilding had sample))
  after_flush (to_rebuild had sample) (err no_gop_available) s = (s, some (rebuilding had sample))
  after_flush (to_rebuild had sample) (err e) s = (s, none)
  after_flush (to_add_again sample) (ok u) s = (s, some (adding_again sample))
  after_flush (to_add_again sample) (err e) s = (s, none)
  after_flush to_idle r s = ((report_stop_error lib date_text r s).1, some idling)
  after_flush to_return r s = (s, none)

  unfoldable pub took : Then → Stream → Option (List Sample × Time) → Stream × Option Call
  took k s none = after_flush k (err no_gop_available) s
  took k s (some (samples, start_time)) = (s, some (flushed samples start_time k))

  unfoldable pub rebuilt : Sample → Result RecorderError (Unit {0}) → Option Call
  rebuilt sample (ok u) = some (adding sample)
  rebuilt sample (err e) = none

  unfoldable pub added : Sample → Result RecorderError Bool → Option Call
  added sample (ok true) = some (flushing (to_add_again sample))
  added sample (ok false) = none
  added sample (err e) = none

  -- The next piece of a call, and what is left of it.
  unfoldable pub advance : Call → Stream → Stream × Option Call
  advance (loaded idle sample) s = (s, none)
  advance (loaded stopping sample) s = (s, none)
  advance (loaded waiting_key_frame sample) s = (
    s,
    if not sample.is_key then none else if pressed sample s then none else some (taken true sample),
  )
  advance (loaded recording sample) s =
      (s, if pressed sample s then none else some (taken false sample))
  advance (taken transitioned sample) s =
      ((begin_recording lib date_text transitioned s).1, some (deciding transitioned sample))
  advance (deciding transitioned sample) s =
      (s, some (reporting transitioned (needs_rebuild sample s) (not (is_none s.builder)) sample))
  advance (reporting transitioned true had sample) s = (
    (report_recording lib date_text transitioned sample s).1,
    some (flushing (to_rebuild had sample)),
  )
  advance (reporting transitioned false had sample) s =
      ((report_recording lib date_text transitioned sample s).1, some (adding sample))
  advance (rebuilding had sample) s =
      let (r, s') = rebuild_builder lib date_text sample had s in (s', rebuilt sample r)
  advance (adding sample) s =
      let (r, s') = add_to_assembler lib date_text sample s in (s', added sample r)
  advance (adding_again sample) s = ((add_to_assembler lib date_text sample s).1, none)
  advance (flushing k) s =
      let (g, gop) = Gop.flush s.assembler in took k (record s { assembler = g }) gop
  advance (flushed samples start_time k) s =
      let (r, s') = flush_samples lib date_text samples start_time s in after_flush k r s'
  advance idling s = ((write_event stop_event (set_state idle s).1).1, none)

  -- The first piece of Stop
  unfoldable pub stop_first : RecorderState → Stream → Stream × List Call
  stop_first idle s = (s, [])
  stop_first _ s = ((set_state stopping s).1, flushing to_idle ∷ [])

  unfoldable pub begin_stop : Stream → Stream × List Call
  unfolding stop_first
  begin_stop s = stop_first s.state s

abbrev pub resume : Option Call → List Call → List Call
resume none calls = calls
resume (some call) calls = call ∷ calls
