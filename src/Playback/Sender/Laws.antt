-- ===== src/Playback/Sender/Laws.antt =====
-- What SendSample of internal/playback/rtp_sender.go keeps, and when it succeeds and fails.
use record_storage.Common.{
  ℕ, ◌≡◌, length, ◌==◌, refl, ap, ◌∙◌, inl, inr, List, [], ◌∷◌, Bytes, Result, ok, err, Option,
  some, Bool-cases,
}
use record_storage.Clock.{Time, is_zero}
use record_storage.Sample.{Codec, h264, h265, mpeg4, other_codec, Sample}
use record_storage.Playback.Sender.{
  Format, Rtp, RtpSender, h264_enc, h265_enc, mp4v_enc, encode_sample, encode_with, with_base,
  write_encoded, write_packets, send_sample, go_on, lift_failed, send_codec_params, param_sample,
  param_units,
}

with_base-format : (ts : Time) (s : RtpSender) → (with_base ts s).format ≡ s.format
unfolding with_base
with_base-format ts s = elim (Bool-cases (is_zero s.base_time)) [
  | inl t ↦ rw t refl
  | inr t ↦ rw t refl
]

-- The field that the codec asks for is the one that is set.
abbrev pub Suits : Codec → Format → Type 0
Suits h264 f = h264_enc f ≡ some f
Suits h265 f = h265_enc f ≡ some f
Suits mpeg4 f = mp4v_enc f ≡ some f
Suits (other_codec name) f = ⊥

module _ {E W P : Type 0} (rtp : Rtp E W P) where
  pub send_sample-format :
      (sample : Sample) (s : RtpSender) (w : W) → (send_sample rtp sample s w).0.format ≡ s.format
  unfolding send_sample
  send_sample-format sample s w = with_base-format sample.timestamp s

  pub send_codec_params-format :
      (ts : Time) (s : RtpSender) (w : W) → (send_codec_params rtp ts s w).0.format ≡ s.format
  unfolding send_codec_params
  send_codec_params-format ts s w = elim (Bool-cases (length (param_units s.init) == 0)) [
    | inl t ↦ rw t refl
    | inr t ↦ rw t (send_sample-format (param_sample s.init ts (param_units s.init)) s w)
  ]

  -- An encoder that encodes and a stream that takes every packet.
  pub record Works (f : Format) : Type 0 where
    pub encodes : (units : List Bytes) → (ps : List P) × (rtp.encode f units ≡ ok ps)
    pub writes : (ts : ℕ) (p : P) (w : W) → (rtp.write_packet ts p w).0 ≡ ok tt

  module _ (f : Format) (works : Works f) where
    write_packets-ok : (ts : ℕ) (ps : List P) (w : W) → (write_packets rtp ts ps w).0 ≡ ok tt
    unfolding write_packets
    write_packets-ok ts [] w = refl
    write_packets-ok ts (p ∷ ps) w =
        next (rtp.write_packet ts p w) (works.writes ts p w) (write_packets-ok ts ps)
      where
        next :
            (r : Result E (Unit {0}) × W)
            → r.0 ≡ ok tt
            → ((w' : W) → (write_packets rtp ts ps w').0 ≡ ok tt)
            → (go_on rtp (write_packets rtp ts ps) r).0 ≡ ok tt
        next (ok d, w') e h = unfold go_on in h w'
        next (err x, w') e h = cc

  encode_with-Works :
      (o : Option Format) (f : Format) (units : List Bytes)
      → Works f
      → o ≡ some f
      → (ps : List P) × (encode_with rtp o units ≡ ok ps)
  unfolding encode_with lift_failed
  encode_with-Works o f units works e = let r = works.encodes units in (r.0, rw e (rw r.1 refl))

  encode_sample-Works :
      (codec : Codec) (units : List Bytes) (f : Format)
      → Works f
      → Suits codec f
      → (ps : List P) × (encode_sample rtp codec units f ≡ ok ps)
  unfolding encode_sample
  encode_sample-Works h264 units f works suits = encode_with-Works (h264_enc f) f units works suits
  encode_sample-Works h265 units f works suits = encode_with-Works (h265_enc f) f units works suits
  encode_sample-Works mpeg4 [] f works suits = ([], refl)
  encode_sample-Works mpeg4 (u ∷ us) f works suits =
      encode_with-Works (mp4v_enc f) f (u ∷ []) works suits
  encode_sample-Works (other_codec name) units f works suits = absurd suits

  pub send_sample-Works :
      (sample : Sample) (s : RtpSender) (w : W)
      → Works s.format
      → Suits sample.codec s.format
      → (send_sample rtp sample s w).1 ≡ ok tt
  unfolding send_sample write_encoded with_base
  send_sample-Works sample s w works suits =
      let encoded = encode_sample-Works sample.codec sample.units s.format works suits in
      let ts = rtp.rtp_time sample.timestamp (with_base sample.timestamp s).base_time in
      ap (λ x. (write_encoded rtp ts x w).0) encoded.1
      ∙ write_packets-ok s.format works ts encoded.0 w
