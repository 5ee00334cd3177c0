-- ===== src/Playback/Reader.antt =====
-- internal/playback/fragment_reader.go. The index and the storage answer for the time of a session:
-- `query_range` is QueryRange, `get` is Get of the storage backend.
use record_storage.Common.{
  ◌*◌, Option, none, some, List, Bytes, codes, bytes_eq, Result, ok, err, ◌>>=◌, [], ◌∷◌,
  if◌then◌else◌,
}
use record_storage.Clock.{Time, add, add_neg, before, day, second}
use record_storage.Sample.{Codec, h264, h265, mpeg4, other_codec, Sample, InitSegment}
use record_storage.Index.{GopMeta}
use record_storage.Playback.Request.{PlaybackRequest}
use record_storage.Fmp4.Builder.{MediaLibrary, BuilderError, parse_init_segment, parse_fragment}

pub data ReadError (E : Type 0) : Type 0 where
  failed : E → ReadError E
  bad_segment : BuilderError → ReadError E
  no_recording : ReadError E

pub record Recordings (E : Type 0) : Type 0 where
  pub query_range : Bytes → Time → Time → Result E (List GopMeta)
  pub get : Bytes → Result E Bytes

-- recorder.Codec(text)
unfoldable pub codec_of : Bytes → Codec
codec_of text =
    if bytes_eq text (codes "h264")
    then h264
    else if bytes_eq text (codes "h265")
    then h265
    else if bytes_eq text (codes "mpeg4")
    then mpeg4
    else other_codec text

lift_failed : {E A : Type 0} → Result E A → Result (ReadError E) A
lift_failed (ok a) = ok a
lift_failed (err e) = err (failed e)

lift_segment : {E A : Type 0} → Result BuilderError A → Result (ReadError E) A
lift_segment (ok a) = ok a
lift_segment (err e) = err (bad_segment e)

unfoldable pub window_end : Time → Option Time → Time
window_end start none = add start day
window_end start (some end) = add end (2 * second)

module _ {E : Type 0} (r : Recordings E) (lib : MediaLibrary) where
  unfoldable pub list_gops : Bytes → Time → Option Time → Result E (List GopMeta)
  unfolding window_end
  list_gops camera_id start end =
      r.query_range camera_id (add_neg start (2 * second)) (window_end start end)

  unfoldable pub load_init : Bytes → Result (ReadError E) InitSegment
  unfolding lift_failed lift_segment
  load_init key = do bytes ← lift_failed (r.get key); lift_segment (parse_init_segment lib bytes)

  unfoldable pub read_gop : GopMeta → Result (ReadError E) (List Sample)
  unfolding lift_failed lift_segment codec_of
  read_gop meta = do
    bytes ← lift_failed (r.get meta.object_key)
    lift_segment (parse_fragment lib bytes (codec_of meta.codec) meta.start_time)

  -- The loop of lookupInitialInit in server.go: the first GOP that reaches the start.
  first_init : Time → List GopMeta → Result (ReadError E) InitSegment
  unfolding load_init
  first_init start [] = err no_recording
  first_init start (meta ∷ metas) =
      let rest = first_init start metas in
      if before meta.end_time start then rest else load_init meta.init_key

  unfoldable pub lookup_initial_init : PlaybackRequest → Result (ReadError E) InitSegment
  unfolding first_init lift_failed
  lookup_initial_init req = do
    metas ← lift_failed (list_gops req.camera_id req.start req.end)
    first_init req.start metas
