-- ===== src/Stream/Flush.antt =====
-- FlushGOP of internal/recorder/stream_recorder.go: a GOP becomes a fragment and a write job.
use record_storage.Common.{
  ℕ, Option, none, some, List, [], ◌∷◌, Bytes, codes, length, Result, ok, err,
}
use record_storage.Common.Words.{add64}
use record_storage.Clock.{Time}
use record_storage.Sample.{Codec, h264, h265, mpeg4, other_codec, Sample}
use record_storage.Gop
use record_storage.Gop.{Assembler, new_assembler, add_sample}
use record_storage.Fmp4.Builder.{MediaLibrary, Builder, build_fragment}
use record_storage.Storage.ObjectKey.{build_object_key}
use record_storage.Writer.{WriteJob, refused, submit}
use record_storage.Stream.Actions.{
  Stream, RecorderError, no_gop_available, builder_not_initialized, build_failed, submit_failed,
  Act, ◌>>=◌, ◌>>◌, pure, gets, modify,
}

codec_text : Codec → Bytes
codec_text h264 = codes "h264"
codec_text h265 = codes "h265"
codec_text mpeg4 = codes "mpeg4"
codec_text (other_codec name) = name

-- samples[len(samples)-1].Timestamp
last_time : Time → List Sample → Time
last_time t [] = t
last_time t (s ∷ ss) = last_time s.timestamp ss

-- any error becomes errNoGOPAvailable
unfoldable pub gop_result : Option (List Sample × Time) → Result RecorderError (List Sample × Time)
gop_result (some gop) = ok gop
gop_result none = err no_gop_available

-- s.assembler.Flush()
unfoldable pub flush_assembler : Act (List Sample × Time)
unfolding gop_result
flush_assembler s =
    let (g, gop) = Gop.flush s.assembler in (gop_result gop, record s { assembler = g })

submit_job : WriteJob → Act (Unit {0})
submit_job job s =
    let (w, outcome) = submit job s.writer in
    (elim outcome [ refused e ↦ err (submit_failed e) | _ ↦ ok tt ], record s { writer = w })

module _ (lib : MediaLibrary) (date_text : ℕ → Bytes) where
  -- s.sequence++ and s.initData = nil
  count_gop : Act (Unit {0})
  count_gop = modify (λ s. record s { sequence = add64 s.sequence 1; init_data = [] })

  -- builder.BuildFragment(samples, startTime), which counts in the builder
  fragment : Option Builder → List Sample → Act Bytes
  fragment none samples s = (err builder_not_initialized, s)
  fragment (some b) samples s =
      let (b', r) = build_fragment lib b samples in
      (
        elim r [ ok bytes ↦ ok bytes | err e ↦ err (build_failed e) ],
        record s { builder = some b' },
      )

  job_for : Stream → List Sample → Time → Bytes → WriteJob
  unfolding codec_text last_time
  job_for s samples start_time bytes = record {
    camera_id = s.camera_id;
    gop_data = bytes;
    init_data = s.init_data;
    meta = record {
      camera_id = s.camera_id;
      start_time = start_time;
      end_time = last_time start_time samples;
      object_key = build_object_key date_text s.camera_id start_time s.sequence (codes ".frag");
      init_key = s.init_path;
      size = length bytes;
      frame_count = length samples;
      codec = codec_text s.codec;
    };
  }

  unfoldable pub flush_samples : List Sample → Time → Act (Unit {0})
  unfolding count_gop fragment submit_job job_for
  flush_samples [] start_time = pure tt
  flush_samples (s ∷ ss) start_time = do
    held ← gets (λ r. r)
    count_gop
    bytes ← fragment held.builder (s ∷ ss)
    submit_job (job_for held (s ∷ ss) start_time bytes)

  -- FlushGOP
  unfoldable pub flush_gop : Act (Unit {0})
  unfolding flush_assembler flush_samples
  flush_gop = do gop ← flush_assembler; flush_samples gop.0 gop.1
