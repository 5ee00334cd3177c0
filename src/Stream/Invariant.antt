-- ===== src/Stream/Invariant.antt =====
-- What holds of a recorder (internal/recorder/stream_recorder.go) between two calls.
use record_storage.Common.{ℕ, ◌≡◌, ap, Bool, true, false, Bytes, Result, ok, err, ◌∙◌}
use record_storage.Sample.{Sample, RecorderState, recording}
use record_storage.Gop.{new_assembler}
use record_storage.Gop.Invariant.{
  IsValid, new_assembler-IsValid, add_sample-IsValid, flush-new_assembler,
}
use record_storage.Fmp4.Builder.{MediaLibrary}
use record_storage.Stream.Actions.{Stream, RecorderError}
use record_storage.Stream.Triple.{After}
use record_storage.Stream.Flush.{flush_gop}
use record_storage.Stream.Process.{is_none, add_to_assembler}
use record_storage.Stream.Control.{state-flush_gop, assembler-flush_gop, builder-flush_gop}

abbrev pub is_recording : RecorderState → Bool
is_recording recording = true
is_recording _ = false

-- The assembler is valid; without a builder, or when not recording, it is empty.
pub record IsReady (s : Stream) : Type 0 where
  pub valid : IsValid s.assembler
  pub built : is_none s.builder ≡ true → s.assembler ≡ new_assembler
  pub quiet : is_recording s.state ≡ false → s.assembler ≡ new_assembler

-- While a sample is being recorded.
pub record IsLive (s : Stream) : Type 0 where
  pub ready : IsReady s
  pub live : s.state ≡ recording

pub record HasBuilder (s : Stream) : Type 0 where
  pub live : IsLive s
  pub some_builder : is_none s.builder ≡ false

module _ (lib : MediaLibrary) (date_text : ℕ → Bytes) where
  pub flush_gop-IsReady : (s : Stream) → IsReady s → IsReady (flush_gop lib date_text s).1
  flush_gop-IsReady s h =
      let e : (flush_gop lib date_text s).1.assembler ≡ new_assembler =
        assembler-flush_gop lib date_text s ∙ flush-new_assembler s.assembler h.valid in
      record { valid = rw e new_assembler-IsValid; built = λ b. e; quiet = λ q. e }

  pub flush_gop-HasBuilder : (s : Stream) → HasBuilder s → HasBuilder (flush_gop lib date_text s).1
  flush_gop-HasBuilder s h = record {
    live = record {
      ready = flush_gop-IsReady s h.live.ready;
      live = state-flush_gop lib date_text s ∙ h.live.live;
    };
    some_builder = builder-flush_gop lib date_text s ∙ h.some_builder;
  }

  pub flush_gop-IsLive : (s : Stream) → IsLive s → IsLive (flush_gop lib date_text s).1
  flush_gop-IsLive s h = record {
    ready = flush_gop-IsReady s h.ready;
    live = state-flush_gop lib date_text s ∙ h.live;
  }

  pub add_to_assembler-HasBuilder :
      (sample : Sample) (s : Stream)
      → HasBuilder s
      → HasBuilder (add_to_assembler lib date_text sample s).1
  unfolding add_to_assembler
  add_to_assembler-HasBuilder sample s h = record {
    live = record {
      ready = record {
        valid = add_sample-IsValid s.assembler sample h.live.ready.valid;
        built = λ b. cc (h.some_builder);
        quiet = λ q. cc (ap is_recording h.live.live);
      };
      live = h.live.live;
    };
    some_builder = h.some_builder;
  }

  pub After-success :
      {A : Type 0} (r : Result RecorderError A × Stream)
      → HasBuilder r.1
      → After (λ _. HasBuilder) IsLive r
  After-success (ok a, s) h = h
  After-success (err e, s) h = h.live
