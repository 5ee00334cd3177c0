-- ===== src/Stream/Pieces.antt =====
-- Each piece of the methods of internal/recorder/stream_recorder.go, with what it keeps.
use record_storage.Common.{
  ℕ, ◌≡◌, ◌≢◌, refl, sym, ap, ◌∙◌, Bool, true, false, not, Option, none, some, List, [], ◌∷◌, Bytes,
  Result, ok, err, if◌then◌else◌, arith, Bool-cases, inl, inr,
}
use record_storage.Clock.{Time}
use record_storage.Sample.{Sample, idle, waiting_key_frame, recording, stopping}
use record_storage.Gop
use record_storage.Gop.{Assembler, new_assembler}
use record_storage.Gop.Invariant.{add_sample-IsValid, new_assembler-IsValid, flush-new_assembler}
use record_storage.Fmp4.Builder.{MediaLibrary}
use record_storage.Stream.Actions.{
  Stream, RecorderError, no_gop_available, builder_not_initialized, build_failed, submit_failed,
  set_state, write_event, stop_event,
}
use record_storage.Stream.Flush.{flush_samples}
use record_storage.Stream.Process.{
  is_none, pressed, needs_rebuild, rebuild_builder, add_to_assembler,
}
use record_storage.Stream.Control.{assembler-rebuild_builder, builder-rebuild_builder}
use record_storage.Stream.Calls.{
  Then, to_rebuild, to_add_again, to_idle, to_return, Call, loaded, taken, deciding, reporting,
  rebuilding, adding, adding_again, flushing, flushed, idling, advance, after_flush, took, rebuilt,
  added,
}
use record_storage.Stream.Sound.{
  IsSound, adds_again, HasBuilder, Seen, SeenNext, Keeps, Alike, Alike-IsSound, alike, if-SeenNext,
  flush_samples-Alike, begin_recording-Alike, report_recording-Alike, report_stop_error-Alike,
}

module _ (lib : MediaLibrary) (date_text : ℕ → Bytes) where
  -- A call that goes on after FlushGOP.
  after_flush-Keeps :
      (k : Then) (r : Result RecorderError (Unit {0})) (s s' : Stream)
      → IsSound s'
      → (HasBuilder s → HasBuilder s')
      → (adds_again k ≡ true → HasBuilder s')
      → Keeps s (after_flush lib date_text k r s')
  unfolding after_flush
  after_flush-Keeps (to_rebuild had sample) (ok u) s s' h b n = record {
    sound = h;
    still = b;
    seen = λ e. absurd (ground (arith, e));
  }
  after_flush-Keeps (to_rebuild had sample) (err no_gop_available) s s' h b n = record {
    sound = h;
    still = b;
    seen = λ e. absurd (ground (arith, e));
  }
  after_flush-Keeps (to_rebuild had sample) (err builder_not_initialized) s s' h b n = record {
    sound = h;
    still = b;
    seen = tt;
  }
  after_flush-Keeps (to_rebuild had sample) (err (build_failed e)) s s' h b n = record {
    sound = h;
    still = b;
    seen = tt;
  }
  after_flush-Keeps (to_rebuild had sample) (err (submit_failed e)) s s' h b n = record {
    sound = h;
    still = b;
    seen = tt;
  }
  after_flush-Keeps (to_add_again sample) (ok u) s s' h b n = record {
    sound = h;
    still = b;
    seen = λ e. n refl;
  }
  after_flush-Keeps (to_add_again sample) (err e) s s' h b n = record {
    sound = h;
    still = b;
    seen = tt;
  }
  after_flush-Keeps to_idle r s s' h b n =
      let a = report_stop_error-Alike lib date_text r s' in
      record {
        sound = Alike-IsSound s' _ a h;
        still = λ e. a.1 ∙ b e;
        seen = λ e. absurd (ground (arith, e));
      }
  after_flush-Keeps to_return r s s' h b n = record { sound = h; still = b; seen = tt }

  emptied : (s : Stream) → IsSound s → IsSound (record s { assembler = (Gop.flush s.assembler).0 })
  emptied s h =
      let e = flush-new_assembler s.assembler h.valid in
      record { valid = rw e new_assembler-IsValid; built = λ b. e }

  -- A recorder that has a GOP to flush has a builder.
  has_gop :
      (s : Stream) (x : List Sample × Time)
      → IsSound s
      → (Gop.flush s.assembler).1 ≡ some x
      → HasBuilder s
  unfolding Gop.flush new_assembler
  has_gop s x h e = elim (Bool-cases (is_none s.builder)) [
    | inl none_yet ↦
        let gone : none ≡ some x = ap (λ g. (Gop.flush g).1) (sym (h.built none_yet)) ∙ e in
        absurd (ground (arith, gone))
    | inr b ↦ b
  ]

  took-Keeps :
      (k : Then) (s : Stream) (gop : Option (List Sample × Time))
      → IsSound s
      → (Gop.flush s.assembler).1 ≡ gop
      → (adds_again k ≡ true → HasBuilder s)
      → Keeps s (took lib date_text k (record s { assembler = (Gop.flush s.assembler).0 }) gop)
  unfolding took
  took-Keeps k s none h e n =
      after_flush-Keeps k (err no_gop_available) s _ (emptied s h) (λ b. b) n
  took-Keeps k s (some (samples, start_time)) h e n = record {
    sound = emptied s h;
    still = λ b. b;
    seen = λ q. has_gop s (samples, start_time) h e;
  }

  rebuild_builder-Keeps :
      (had : Bool) (sample : Sample) (s : Stream)
      → IsSound s
      → Keeps s (
        (rebuild_builder lib date_text sample had s).1,
        rebuilt lib date_text sample (rebuild_builder lib date_text sample had s).0,
      )
  rebuild_builder-Keeps had sample s h =
      let b = builder-rebuild_builder lib date_text s sample had in
      let a = assembler-rebuild_builder lib date_text s sample had in
      record {
        sound = record { valid = rw a h.valid; built = λ e. absurd (ground (arith, b, e)) };
        still = λ e. b;
        seen =
            next (rebuild_builder lib date_text sample had s).1
              (rebuild_builder lib date_text sample had s).0 b;
      }
    where
      next :
          (s' : Stream) (r : Result RecorderError (Unit {0}))
          → HasBuilder s'
          → SeenNext s' (rebuilt lib date_text sample r)
      next s' (ok u) b = unfold rebuilt in λ e. b
      next s' (err e) b = unfold rebuilt in tt

  add-Keeps :
      (sample : Sample) (s : Stream) (k : Option Call)
      → IsSound s
      → HasBuilder s
      → SeenNext s k
      → Keeps s ((add_to_assembler lib date_text sample s).1, k)
  unfolding add_to_assembler
  add-Keeps sample s k h b n = record {
    sound = record {
      valid = add_sample-IsValid s.assembler sample h.valid;
      built = λ e. absurd (ground (arith, b, e));
    };
    still = λ e. b;
    seen = n;
  }

  chosen :
      (t b : Bool) (sample : Sample) (s : Stream)
      → SeenNext s (if b then none else some (taken t sample))
  chosen t b sample s =
      if-SeenNext s b none (some (taken t sample)) tt (λ e. absurd (ground (arith, e)))

  added-seen :
      (sample : Sample) (s : Stream) (r : Result RecorderError Bool)
      → HasBuilder s
      → SeenNext s (added lib date_text sample r)
  unfolding added
  added-seen sample s (ok true) b = λ e. b
  added-seen sample s (ok false) b = tt
  added-seen sample s (err e) b = tt

  needs_rebuild-HasBuilder :
      (sample : Sample) (s : Stream) → not (needs_rebuild sample s) ≡ true → HasBuilder s
  unfolding needs_rebuild
  needs_rebuild-HasBuilder sample s h = ground arith

  idling-Alike : (s : Stream) → Alike s (write_event stop_event (set_state idle s).1).1
  unfolding set_state write_event
  idling-Alike s = (refl, refl)

  -- Each piece of each call.
  pub advance-Keeps :
      (call : Call) (s : Stream) → IsSound s → Seen s call → Keeps s (advance lib date_text call s)
  unfolding advance
  advance-Keeps (loaded idle sample) s h n = alike s s none (refl, refl) h tt
  advance-Keeps (loaded stopping sample) s h n = alike s s none (refl, refl) h tt
  advance-Keeps (loaded waiting_key_frame sample) s h n =
      alike s s _ (refl, refl) h
        (if-SeenNext s (not sample.is_key) none _ tt (chosen true (pressed sample s) sample s))
  advance-Keeps (loaded recording sample) s h n =
      alike s s _ (refl, refl) h (chosen false (pressed sample s) sample s)
  advance-Keeps (taken t sample) s h n =
      alike s _ _ (begin_recording-Alike lib date_text t s) h (λ e. absurd (ground (arith, e)))
  advance-Keeps (deciding t sample) s h n =
      alike s s _ (refl, refl) h (needs_rebuild-HasBuilder sample s)
  advance-Keeps (reporting t true had sample) s h n =
      alike s _ _ (report_recording-Alike lib date_text t sample s) h
        (λ e. absurd (ground (arith, e)))
  advance-Keeps (reporting t false had sample) s h n =
      alike s _ _ (report_recording-Alike lib date_text t sample s) h
        (λ e. (report_recording-Alike lib date_text t sample s).1 ∙ n refl)
  advance-Keeps (rebuilding had sample) s h n = rebuild_builder-Keeps had sample s h
  advance-Keeps (adding sample) s h n =
      add-Keeps sample s _ h (n refl)
        (added-seen sample s (add_to_assembler lib date_text sample s).0 (n refl))
  advance-Keeps (adding_again sample) s h n = add-Keeps sample s none h (n refl) tt
  advance-Keeps (flushing k) s h n = took-Keeps k s (Gop.flush s.assembler).1 h refl n
  advance-Keeps (flushed samples start_time k) s h n =
      let a = flush_samples-Alike lib date_text samples start_time s in
      after_flush-Keeps k (flush_samples lib date_text samples start_time s).0 s _
        (Alike-IsSound s _ a h) (λ b. a.1 ∙ b) (λ e. a.1 ∙ n refl)
  advance-Keeps idling s h n = alike s _ none (idling-Alike s) h tt

  pub flush_samples-built :
      (samples : List Sample) (start_time : Time) (s : Stream)
      → HasBuilder s
      → (flush_samples lib date_text samples start_time s).0 ≢ err builder_not_initialized
  unfolding flush_samples
  flush_samples-built [] start_time s b e = ground arith
  flush_samples-built (x ∷ xs) start_time s b e = ground arith
