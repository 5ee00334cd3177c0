-- ===== src/Stream/Alone.antt =====
-- A ProcessSample of internal/recorder/stream_recorder.go that no other goroutine interrupts.
use record_storage.Common.{
  ℕ, zero, suc, ◌≡◌, refl, Bool, true, Option, none, some, List, Bytes, Result,
}
use record_storage.Clock.{Time}
use record_storage.Sample.{Sample}
use record_storage.Gop
use record_storage.Fmp4.Builder.{MediaLibrary}
use record_storage.Stream.Actions.{Stream, RecorderError, Act, continue, ◌>>=◌, ◌>>◌, attempt}
use record_storage.Stream.Flush.{flush_samples, flush_gop, gop_result}
use record_storage.Stream.Process.{
  report_recording, rebuild_builder, rebuild_if, ignore_no_gop, add_to_assembler, add_again,
}
use record_storage.Stream.Calls.{Call, advance}

module _ (lib : MediaLibrary) (date_text : ℕ → Bytes) where
  unfoldable pub go_on : (Call → Stream → Stream) → Stream × Option Call → Stream
  go_on rest (s, none) = s
  go_on rest (s, some call) = rest call s

  -- The pieces of one call in a row, on fuel.
  unfoldable pub run : ℕ → Call → Stream → Stream
  unfolding go_on
  run zero call s = s
  run (suc n) call s = go_on (run n) (advance lib date_text call s)

  -- ProcessSample from its AddSample on.
  unfoldable add_rest : Sample → Act (Unit {0})
  add_rest sample = add_to_assembler lib date_text sample >>= add_again lib date_text sample

  -- FlushGOP on what Flush of the assembler gave.
  unfoldable flush_from : Option (List Sample × Time) → Act (Unit {0})
  flush_from gop s = continue (gop_result gop) (λ x. flush_samples lib date_text x.0 x.1) s

  -- The rebuilding part of ProcessSample.
  unfoldable rebuild_rest : Bool → Sample → Result RecorderError (Unit {0}) → Act (Unit {0})
  rebuild_rest had sample result =
      (ignore_no_gop lib date_text result >> rebuild_builder lib date_text sample had)
      >> add_rest sample

  flushed_first :
      (had : Bool) (sample : Sample) (s : Stream)
      → ((attempt (flush_gop lib date_text) >>= rebuild_rest had sample) s).1
        ≡ ((rebuild_if lib date_text true sample had >> add_rest sample) s).1
  unfolding rebuild_if rebuild_rest
  flushed_first had sample s = refl

  -- ProcessSample from the decision on whether to rebuild.
  unfoldable report_rest : Bool → Bool → Bool → Sample → Act (Unit {0})
  report_rest t needs had sample =
      report_recording lib date_text t sample
      >> (rebuild_if lib date_text needs sample had >> add_rest sample)
