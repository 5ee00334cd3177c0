-- ===== src/Stream/Process.antt =====
-- ProcessSample and rebuildBuilder of internal/recorder/stream_recorder.go.
use record_storage.Common.{
  ℕ, Bool, true, false, not, ◌&&◌, ◌||◌, Option, none, some, Bytes, codes, if◌then◌else◌, Result,
  ok, err,
}
use record_storage.Memory.{should_drop_frame}
use record_storage.Sample.{
  codec_eq, Sample, RecorderState, idle, waiting_key_frame, recording, stopping,
}
use record_storage.Gop.{add_sample}
use record_storage.Fmp4.Boxes.{params_equal}
use record_storage.Fmp4.Builder.{MediaLibrary, Builder, new_builder, build_init}
use record_storage.Storage.ObjectKey.{build_object_key}
use record_storage.Stream.Actions.{
  Stream, RecorderError, no_gop_available, build_failed, recording_event, codec_change_event, Act,
  ◌>>=◌, ◌>>◌, pure, fail, gets, modify, attempt,
}
use record_storage.Stream.Actions.{write_event, set_state}
use record_storage.Stream.Flush.{flush_gop}

-- The memory check; the recorder and the writer share the controller.
unfoldable pub pressed : Sample → Stream → Bool
pressed sample s =
    s.has_mem_ctrl
    && (not sample.is_key && (elim s.writer.mem_ctrl [
      | none ↦ false
      | some mc ↦ should_drop_frame mc sample.frame_type
    ]))

abbrev pub is_none : {A : Type 0} → Option A → Bool
is_none none = true
is_none (some a) = false

unfoldable pub needs_rebuild : Sample → Stream → Bool
needs_rebuild sample s =
    is_none s.builder
    || (not (codec_eq sample.codec s.codec) || not (params_equal sample.params s.params))

module _ (lib : MediaLibrary) (date_text : ℕ → Bytes) where
  unfoldable pub ignore_no_gop : Result RecorderError (Unit {0}) → Act (Unit {0})
  ignore_no_gop (err no_gop_available) = pure tt
  ignore_no_gop (err e) = fail e
  ignore_no_gop (ok r) = pure tt

  install : Sample → Bool → Bytes → Bytes → Act (Unit {0})
  unfolding write_event
  install sample report init_data init_key = do
    modify (λ s. record s {
      init_data = init_data;
      init_key = init_key;
      init_path =
          build_object_key date_text s.camera_id sample.timestamp s.sequence (codes ".mp4init");
      params = sample.params;
      codec = sample.codec;
    })
    if report then write_event (codec_change_event sample.codec) else pure tt

  init_of : Builder → Act (Bytes × Bytes)
  init_of b s = (elim (build_init lib b) [ ok r ↦ ok r | err e ↦ err (build_failed e) ], s)

  -- rebuildBuilder
  unfoldable pub rebuild_builder : Sample → Bool → Act (Unit {0})
  unfolding install init_of
  rebuild_builder sample report = do
    modify (λ s. record s { builder = some (new_builder sample.codec sample.params) })
    built ← init_of (new_builder sample.codec sample.params)
    install sample report built.0 built.1

  unfoldable pub add_to_assembler : Sample → Act Bool
  add_to_assembler sample s =
      let (g, full) = add_sample s.assembler sample in (ok full, record s { assembler = g })

  unfoldable pub add_again : Sample → Bool → Act (Unit {0})
  add_again sample false = pure tt
  add_again sample true = do flush_gop lib date_text; add_to_assembler sample; pure tt

  unfoldable pub rebuild_if : Bool → Sample → Bool → Act (Unit {0})
  rebuild_if false sample report = pure tt
  rebuild_if true sample report = do
    flushed ← attempt (flush_gop lib date_text)
    ignore_no_gop flushed
    rebuild_builder sample report

  unfoldable pub begin_recording : Bool → Act (Unit {0})
  unfolding set_state
  begin_recording false = pure tt
  begin_recording true = set_state recording

  unfoldable pub report_recording : Bool → Sample → Act (Unit {0})
  unfolding write_event
  report_recording false sample = pure tt
  report_recording true sample = write_event (recording_event sample.codec)

  -- ProcessSample once the recorder takes the sample.
  unfoldable pub take_sample : Bool → Sample → Act (Unit {0})
  take_sample transitioned sample = do
    begin_recording transitioned
    s ← gets (λ s. s)
    report_recording transitioned sample
    rebuild_if (needs_rebuild sample s) sample (not (is_none s.builder))
    full ← add_to_assembler sample
    add_again sample full

  unfoldable pub process_in : RecorderState → Sample → Act (Unit {0})
  process_in idle sample s = (ok tt, s)
  process_in stopping sample s = (ok tt, s)
  process_in waiting_key_frame sample s =
      if not sample.is_key
      then (ok tt, s)
      else if pressed sample s
      then (ok tt, s)
      else take_sample true sample s
  process_in recording sample s =
      if pressed sample s then (ok tt, s) else take_sample false sample s

  -- ProcessSample
  unfoldable pub process_sample : Sample → Act (Unit {0})
  unfolding process_in
  process_sample sample = do state ← gets (λ s. s.state); process_in state sample
