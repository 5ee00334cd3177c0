-- ===== src/Stream/Taken.antt =====
-- ProcessSample (internal/recorder/stream_recorder.go) once the recorder takes the sample.
use record_storage.Common.{
  arith, ℕ, ◌≡◌, refl, sym, ap, Bool, true, false, not, Bytes, Result, ok, err, ◌∙◌,
}
use record_storage.Sample.{Sample, recording}
use record_storage.Gop.{new_assembler}
use record_storage.Gop.Invariant.{new_assembler-IsValid, flush-new_assembler}
use record_storage.Fmp4.Builder.{MediaLibrary}
use record_storage.Stream.Actions.{Stream, RecorderError, no_gop_available, gets, attempt}
use record_storage.Stream.Triple.{Triple, bind}
use record_storage.Stream.Flush.{flush_gop}
use record_storage.Stream.Process.{
  take_sample, needs_rebuild, is_none, rebuild_if, rebuild_builder, ignore_no_gop, begin_recording,
  report_recording, add_to_assembler, add_again,
}
use record_storage.Stream.Control.{
  assembler-flush_gop, state-rebuild_builder, assembler-rebuild_builder, builder-rebuild_builder,
}
use record_storage.Stream.Invariant.{
  IsReady, IsLive, HasBuilder, flush_gop-IsLive, flush_gop-HasBuilder, add_to_assembler-HasBuilder,
  After-success,
}

record IsFlushed (s : Stream) : Type 0 where
  live : IsLive s
  empty : s.assembler ≡ new_assembler

module _ (lib : MediaLibrary) (date_text : ℕ → Bytes) where
  attempt-IsFlushed : Triple IsLive (attempt (flush_gop lib date_text)) (λ _. IsFlushed) IsLive
  attempt-IsFlushed = record {
    at = λ s h. record {
      live = flush_gop-IsLive lib date_text s h;
      empty = assembler-flush_gop lib date_text s ∙ flush-new_assembler s.assembler h.ready.valid;
    };
  }

  ignore_no_gop-IsFlushed :
      (r : Result RecorderError (Unit {0}))
      → Triple IsFlushed (ignore_no_gop lib date_text r) (λ _. IsFlushed) IsLive
  unfolding ignore_no_gop
  ignore_no_gop-IsFlushed (ok u) = record { at = λ s h. h }
  ignore_no_gop-IsFlushed (err no_gop_available) = record { at = λ s h. h }
  ignore_no_gop-IsFlushed (err e) = record { at = λ s h. h.live }

  rebuild_builder-HasBuilder :
      (sample : Sample) (report : Bool)
      → Triple IsFlushed (rebuild_builder lib date_text sample report) (λ _. HasBuilder) IsLive
  rebuild_builder-HasBuilder sample report = record {
    at = λ s h.
        let same : (rebuild_builder lib date_text sample report s).1.assembler ≡ new_assembler =
          assembler-rebuild_builder lib date_text s sample report ∙ h.empty in
        After-success lib date_text (rebuild_builder lib date_text sample report s) (record {
          live = record {
            ready = record {
              valid = rw same new_assembler-IsValid;
              built = λ b. same;
              quiet = λ q. same;
            };
            live = state-rebuild_builder lib date_text s sample report ∙ h.live.live;
          };
          some_builder = builder-rebuild_builder lib date_text s sample report;
        });
  }

  -- A recorder that is live, and has a builder unless it needs a new one.
  abbrev MayNeed : Bool → Stream → Type 0
  MayNeed b s = IsLive s × (b ≡ false → is_none s.builder ≡ false)

  rebuild_if-HasBuilder :
      (needs : Bool) (sample : Sample) (report : Bool)
      → Triple
          (MayNeed needs)
          (rebuild_if lib date_text needs sample report)
          (λ _. HasBuilder)
          IsLive
  unfolding rebuild_if
  rebuild_if-HasBuilder false sample report = record {
    at = λ s h. record { live = h.0; some_builder = h.1 refl };
  }
  rebuild_if-HasBuilder true sample report =
      let t = bind (attempt (flush_gop lib date_text)) _ attempt-IsFlushed (λ r.
        bind (ignore_no_gop lib date_text r) _ (ignore_no_gop-IsFlushed r)
          (λ _. rebuild_builder-HasBuilder sample report)) in
      record { at = λ s h. t.at s h.0 }

  add_to_assembler-Triple :
      (sample : Sample)
      → Triple HasBuilder (add_to_assembler lib date_text sample) (λ _. HasBuilder) IsLive
  add_to_assembler-Triple sample = record {
    at = λ s h.
        After-success lib date_text (add_to_assembler lib date_text sample s)
          (add_to_assembler-HasBuilder lib date_text sample s h);
  }

  add_again-Triple :
      (sample : Sample) (full : Bool)
      → Triple HasBuilder (add_again lib date_text sample full) (λ _. HasBuilder) IsLive
  unfolding add_again
  add_again-Triple sample false = record { at = λ s h. h }
  add_again-Triple sample true =
      bind (flush_gop lib date_text) _
        (record {
          at = λ s h.
              After-success lib date_text (flush_gop lib date_text s)
                (flush_gop-HasBuilder lib date_text s h);
        })
        (λ _.
          bind (add_to_assembler lib date_text sample) _ (add_to_assembler-Triple sample)
            (λ _. record { at = λ s h. h }))

  abbrev pub MayBegin : Bool → Stream → Type 0
  MayBegin t s = IsReady s × (t ≡ false → s.state ≡ recording)

  begin_recording-IsLive :
      (t : Bool) → Triple (MayBegin t) (begin_recording lib date_text t) (λ _. IsLive) IsLive
  unfolding begin_recording
  begin_recording-IsLive false = record { at = λ s h. record { ready = h.0; live = h.1 refl } }
  begin_recording-IsLive true = record {
    at = λ s h. record {
      ready = record { valid = h.0.valid; built = h.0.built; quiet = λ q. cc };
      live = refl;
    };
  }

  report_recording-MayNeed :
      (t needs : Bool) (sample : Sample)
      → Triple (MayNeed needs) (report_recording lib date_text t sample) (λ _. MayNeed needs) IsLive
  unfolding report_recording
  report_recording-MayNeed false needs sample = record { at = λ s h. h }
  report_recording-MayNeed true needs sample = record {
    at = λ s h. (
      record {
        ready = record {
          valid = h.0.ready.valid;
          built = h.0.ready.built;
          quiet = h.0.ready.quiet;
        };
        live = h.0.live;
      },
      h.1,
    );
  }

  needs_rebuild-none :
      (sample : Sample) (s : Stream) → needs_rebuild sample s ≡ false → is_none s.builder ≡ false
  unfolding needs_rebuild
  needs_rebuild-none sample s h = ground arith

  pub take_sample-Triple :
      (t : Bool) (sample : Sample)
      → Triple (MayBegin t) (take_sample lib date_text t sample) (λ _. HasBuilder) IsLive
  unfolding take_sample
  take_sample-Triple t sample =
      bind (begin_recording lib date_text t) _ (begin_recording-IsLive t) (λ _.
        bind {Q = λ a s. IsLive s × (a ≡ s)} (gets (λ s. s)) _ (record { at = λ s h. (h, refl) })
          (λ a.
            let needs = needs_rebuild sample a in
            let rest =
              bind (report_recording lib date_text t sample) _
                (report_recording-MayNeed t needs sample)
                (λ _.
                  bind (rebuild_if lib date_text needs sample (not (is_none a.builder))) _
                    (rebuild_if-HasBuilder needs sample (not (is_none a.builder)))
                    (λ _.
                      bind (add_to_assembler lib date_text sample) _
                        (add_to_assembler-Triple sample) (λ full. add_again-Triple sample full))) in
            record {
              at = λ s h.
                  rest.at s (
                    h.0,
                    λ n. ap (λ s. is_none s.builder) (sym h.1) ∙ needs_rebuild-none sample a n,
                  );
            }))
