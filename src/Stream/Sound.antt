-- ===== src/Stream/Sound.antt =====
-- A sound recorder of internal/recorder/stream_recorder.go, and the calls that have seen a builder.
use record_storage.Common.{
  ℕ, ◌≡◌, refl, sym, ◌∙◌, Bool, true, false, not, Option, none, some, List, [], ◌∷◌, Bytes, Result,
  ok, err, if◌then◌else◌, arith,
}
use record_storage.Clock.{Time}
use record_storage.Sample.{Sample}
use record_storage.Gop.{new_assembler}
use record_storage.Gop.Invariant.{IsValid}
use record_storage.Fmp4.Builder.{MediaLibrary}
use record_storage.Stream.Actions.{
  Stream, RecorderError, no_gop_available, builder_not_initialized, build_failed, submit_failed,
  write_event,
}
use record_storage.Stream.Flush.{flush_samples}
use record_storage.Stream.Process.{is_none, begin_recording, report_recording}
use record_storage.Stream.Lifecycle.{report_stop_error}
use record_storage.Stream.Calls.{
  Then, to_add_again, Call, reporting, adding, adding_again, flushing, flushed,
}

-- The assembler holds a GOP that begins with its key frame, or nothing, and nothing without a builder.
pub record IsSound (s : Stream) : Type 0 where
  pub valid : IsValid s.assembler
  pub built : is_none s.builder ≡ true → s.assembler ≡ new_assembler

-- The calls that have seen a builder.
abbrev pub adds_again : Then → Bool
adds_again (to_add_again sample) = true
adds_again _ = false

abbrev pub has_seen : Call → Bool
has_seen (reporting t needs had sample) = not needs
has_seen (adding sample) = true
has_seen (adding_again sample) = true
has_seen (flushing k) = adds_again k
has_seen (flushed samples start_time k) = true
has_seen _ = false

-- A recorder has a builder.
abbrev pub HasBuilder : Stream → Type 0
HasBuilder s = is_none s.builder ≡ false

abbrev pub Seen : Stream → Call → Type 0
Seen s call = has_seen call ≡ true → HasBuilder s

abbrev pub SeenNext : Stream → Option Call → Type 0
SeenNext s none = Unit {0}
SeenNext s (some call) = Seen s call

-- What a piece keeps from `s` on.
pub record Keeps (s : Stream) (r : Stream × Option Call) : Type 0 where
  pub sound : IsSound r.0
  pub still : HasBuilder s → HasBuilder r.0
  pub seen : SeenNext r.0 r.1

abbrev pub Alike : Stream → Stream → Type 0
Alike s s' = (s'.assembler ≡ s.assembler) × (is_none s'.builder ≡ is_none s.builder)

pub Alike-IsSound : (s s' : Stream) → Alike s s' → IsSound s → IsSound s'
Alike-IsSound s s' (a, b) h = record { valid = rw a h.valid; built = λ e. a ∙ h.built (sym b ∙ e) }

pub alike :
    (s s' : Stream) (k : Option Call) → Alike s s' → IsSound s → SeenNext s' k → Keeps s (s', k)
alike s s' k a h n = record { sound = Alike-IsSound s s' a h; still = λ b. a.1 ∙ b; seen = n }

pub if-SeenNext :
    (s : Stream) (b : Bool) (k l : Option Call)
    → SeenNext s k
    → SeenNext s l
    → SeenNext s (if b then k else l)
if-SeenNext s true k l h g = h
if-SeenNext s false k l h g = g

module _ (lib : MediaLibrary) (date_text : ℕ → Bytes) where
  pub flush_samples-Alike :
      (samples : List Sample) (start_time : Time) (s : Stream)
      → Alike s (flush_samples lib date_text samples start_time s).1
  unfolding flush_samples
  flush_samples-Alike [] start_time s = (refl, refl)
  flush_samples-Alike (x ∷ xs) start_time s = ground arith

  pub begin_recording-Alike :
      (t : Bool) (s : Stream) → Alike s (begin_recording lib date_text t s).1
  unfolding begin_recording
  begin_recording-Alike true s = (refl, refl)
  begin_recording-Alike false s = (refl, refl)

  pub report_recording-Alike :
      (t : Bool) (sample : Sample) (s : Stream)
      → Alike s (report_recording lib date_text t sample s).1
  unfolding report_recording
  report_recording-Alike true sample s = (refl, refl)
  report_recording-Alike false sample s = (refl, refl)

  pub report_stop_error-Alike :
      (r : Result RecorderError (Unit {0})) (s : Stream)
      → Alike s (report_stop_error lib date_text r s).1
  unfolding report_stop_error write_event
  report_stop_error-Alike (ok u) s = (refl, refl)
  report_stop_error-Alike (err no_gop_available) s = (refl, refl)
  report_stop_error-Alike (err builder_not_initialized) s = (refl, refl)
  report_stop_error-Alike (err (build_failed e)) s = (refl, refl)
  report_stop_error-Alike (err (submit_failed e)) s = (refl, refl)
