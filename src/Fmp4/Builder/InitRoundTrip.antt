-- ===== src/Fmp4/Builder/InitRoundTrip.antt =====
-- BuildInit and ParseInitSegment of internal/recorder/fmp4_builder.go.
use record_storage.Common.{
  ◌+◌, ◌<◌, ◌≡◌, refl, sym, ap, ◌∙◌, some, [], ◌∷◌, Bytes, bytes_eq_refl, length, Result, ok, err,
  arith, >>=-eq-ok, take,
}
use record_storage.Common.Words.{u32_mod}
use record_storage.Sample.{InitSegment}
use record_storage.Fmp4.Boxes.{Boxes, write_box, find_box}
use record_storage.Fmp4.Boxes.RoundTrip.{AreBoxes, write_all, rev_onto, parse_boxes-write_box}
use record_storage.Fmp4.Builder.{
  MediaLibrary, BuilderError, Descriptor, Builder, init_meta_box, build_init, build_standard_init,
  parse_init_segment, init_payload, mp4_failed, lift_option, lift_option-eq-ok, descriptor, hex,
}

-- What the program relies on: an encoded init segment is a sequence of MP4 boxes, and JSON text that
-- was marshalled from an InitSegment unmarshals to it.
pub record InitLaws (lib : MediaLibrary) : Type 0 where
  pub boxes :
      (d : Descriptor) (bytes : Bytes)
      → lib.encode_init d ≡ some bytes
      → (bs : Boxes) × AreBoxes bs × (bytes ≡ write_all bs)
  pub json :
      (segment : InitSegment) (payload : Bytes)
      → lib.marshal_init segment ≡ some payload
      → lib.unmarshal_init payload ≡ some segment

init_payload-front :
    (payload : Bytes) (bs : Boxes) → init_payload ((init_meta_box, payload) ∷ bs) ≡ some payload
unfolding init_payload find_box
init_payload-front payload bs = ground (arith, bytes_eq_refl init_meta_box)

abbrev bytes_of : Result BuilderError (Bytes × Bytes) → Bytes
bytes_of (ok (bytes, key)) = bytes
bytes_of (err e) = []

module _ (lib : MediaLibrary) (laws : InitLaws lib) where
  standard_boxes :
      (f : Builder) (standard : Bytes)
      → build_standard_init lib f ≡ ok standard
      → (bs : Boxes) × AreBoxes bs × (standard ≡ write_all bs)
  unfolding build_standard_init
  standard_boxes f standard e =
      let (d, _, encoded) =
        >>=-eq-ok (descriptor f.codec f.params) (λ d. lift_option mp4_failed (lib.encode_init d))
          e in
      laws.boxes d standard (lift_option-eq-ok mp4_failed (lib.encode_init d) encoded)

  parse-write :
      (bs : Boxes) (payload : Bytes) (segment : InitSegment)
      → AreBoxes bs
      → 8 + length payload < u32_mod
      → lib.unmarshal_init payload ≡ some segment
      → parse_init_segment lib (write_box (write_all bs) init_meta_box payload) ≡ ok segment
  unfolding parse_init_segment
  parse-write bs payload segment are fits e = rw (
    parse_boxes-write_box bs init_meta_box payload are refl fits,
    init_payload-front payload (rev_onto bs []),
    e,
  )

  -- Where the library's init segments are sequences of boxes and its JSON reads back: whatever
  -- BuildInit returns for a builder, with metadata below 2 ^ 32 bytes, is parsed by ParseInitSegment
  -- to the builder's codec and parameters.
  pub parse_init_segment-build_init :
      (f : Builder) (payload bytes key : Bytes)
      → lib.marshal_init (record { codec = f.codec; params = f.params }) ≡ some payload
      → 8 + length payload < u32_mod
      → build_init lib f ≡ ok (bytes, key)
      → parse_init_segment lib bytes ≡ ok (record { codec = f.codec; params = f.params })
  unfolding build_init
  parse_init_segment-build_init f payload bytes key m fits e =
      let built = rw m at e in
      let (standard, made, e') =
        >>=-eq-ok (build_standard_init lib f)
          (λ standard.
            ok (write_box standard init_meta_box payload, hex (take 8 (lib.sha1 payload))))
          built in
      let (bs, are, whole) = standard_boxes f standard made in
      let out : bytes ≡ write_box (write_all bs) init_meta_box payload =
        ap (λ r. bytes_of r) (sym e') ∙ ap (λ s. write_box s init_meta_box payload) whole in
      rw out (parse-write bs payload _ are fits (laws.json _ payload m))
