-- ===== src/Tests/Encoding.antt =====
-- A stand-in for encoding/json on index entries: the numbers, the lengths, and the texts.
use record_storage.Common.{
  ℕ, ◌≡◌, refl, ap, Option, none, some, ◌∷◌, ◌++◌, Bytes, length, take, drop, take-length-append,
  drop-length-append,
}
use record_storage.Clock.{Time}
use record_storage.Index.{GopMeta}

time_of : ℕ → ℕ → ℕ → Time
time_of i a b = record { instant = i; zone = record { ahead = a; behind = b } }

texts : ℕ → ℕ → ℕ → Bytes → Bytes × Bytes × Bytes × Bytes
texts a b c rest = (
  take a rest,
  take b (drop a rest),
  take c (drop b (drop a rest)),
  drop c (drop b (drop a rest)),
)

texts_lem :
    (a b c d : Bytes) → texts (length a) (length b) (length c) (a ++ (b ++ (c ++ d))) ≡ (a, b, c, d)
unfolding texts
texts_lem a b c d =
    rw
      (
        take-length-append a (b ++ (c ++ d)),
        drop-length-append a (b ++ (c ++ d)),
        take-length-append b (c ++ d),
        drop-length-append b (c ++ d),
        take-length-append c d,
        drop-length-append c d,
      )
      refl

build : ℕ → ℕ → Time → Time → Bytes × Bytes × Bytes × Bytes → GopMeta
build size frames start end (camera, object, init, codec) = record {
  camera_id = camera;
  start_time = start;
  end_time = end;
  object_key = object;
  init_key = init;
  size = size;
  frame_count = frames;
  codec = codec;
}

unfoldable pub encode_meta : GopMeta → Bytes
encode_meta m =
    m.size
    ∷ m.frame_count
    ∷ m.start_time.instant
    ∷ m.start_time.zone.ahead
    ∷ m.start_time.zone.behind
    ∷ m.end_time.instant
    ∷ m.end_time.zone.ahead
    ∷ m.end_time.zone.behind
    ∷ length m.camera_id
    ∷ length m.object_key
    ∷ length m.init_key
    ∷ (m.camera_id ++ (m.object_key ++ (m.init_key ++ m.codec)))

unfoldable pub decode_meta : Bytes → Option GopMeta
unfolding texts build time_of
decode_meta (n ∷ f ∷ s ∷ sa ∷ sb ∷ e ∷ ea ∷ eb ∷ a ∷ b ∷ c ∷ rest) =
    some (build n f (time_of s sa sb) (time_of e ea eb) (texts a b c rest))
decode_meta _ = none

pub decode_meta-encode_meta : (m : GopMeta) → decode_meta (encode_meta m) ≡ some m
unfolding decode_meta encode_meta build time_of
decode_meta-encode_meta m =
    ap
      (λ t. some (
        build m.size m.frame_count
          (time_of m.start_time.instant m.start_time.zone.ahead m.start_time.zone.behind)
          (time_of m.end_time.instant m.end_time.zone.ahead m.end_time.zone.behind) t))
      (texts_lem m.camera_id m.object_key m.init_key m.codec)
