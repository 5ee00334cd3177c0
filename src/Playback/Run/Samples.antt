-- ===== src/Playback/Run/Samples.antt =====
-- What the loop over a GOP's samples in runPlayback of internal/playback/server.go sends.
use record_storage.Common.{
  ℕ, ◌≡◌, inl, inr, refl, subst, ◌∙◌, Bool, true, false, List, All, [], ◌∷◌, ◌++◌, append-nil,
  append_assoc, Bytes, Result, ok, err, if◌then◌else◌, arith, Bool-cases,
}
use record_storage.Clock.{before}
use record_storage.Sample.{Sample, InitSegment}
use record_storage.Index.{GopMeta}
use record_storage.Playback.Scale.{should_send_sample}
use record_storage.Playback.Prefetcher.{Cache}
use record_storage.Playback.Sender.{Format, Rtp, RtpSender, SendError, send_sample}
use record_storage.Playback.Run.{
  Context, Asked, Player, Left, after_end, progressed, pace, after_send, send_paced, play_sample,
  play_samples,
}
use record_storage.Playback.Sender.Laws.{send_sample-format}
use record_storage.Playback.Run.Plan.{expected}

module _ {E F W P : Type 0} (rtp : Rtp F W P) (ctx : Context W)
    (read : GopMeta → Result E (List Sample)) (load_init : Bytes → Result E InitSegment)
    (pick : Cache → Bytes) (asked : Asked) (format : Format) where
  abbrev pub due : List Sample → List Sample
  due = expected asked.start asked.end asked.scale

  waits : (c : Bool) (w : W) (x : Bool × W) → (if c then (false, w) else x).0 ≡ true → x.0 ≡ true
  waits true w x h = absurd (ground arith)
  waits false w x h = h

  -- How a loop that ends early may leave the samples: `Cut sent plan`.
  module _ (Cut : List Sample → List Sample → Type 0) (Fits : Sample → Type 0) where
    -- What may cut a playback short.
    pub record Cuts : Type 0 where
      pub whole : (xs : List Sample) → Cut xs xs
      pub done : (w : W) (xs ys : List Sample) → (ctx.is_done w).0 ≡ true → Cut xs (xs ++ ys)
      pub waiting :
          (d : ℕ) (w : W) (xs ys : List Sample) → (ctx.wait d w).0 ≡ true → Cut xs (xs ++ ys)
      pub sending :
          (s : Sample) (sender : RtpSender) (w : W) (e : SendError F) (xs ys : List Sample)
          → Fits s
          → sender.format ≡ format
          → (send_sample rtp s sender w).1 ≡ err e
          → Cut xs (xs ++ ys)

    -- A loop leaves the rest of the plan to be sent, or has ended.
    abbrev pub Keeps : List Sample → List Sample → Left W → Type 0
    Keeps plan rest left =
        if left.goes_on
        then (left.player.sent ++ due rest ≡ plan) × (left.player.sender.format ≡ format)
        else Cut left.player.sent plan

    module _ (cuts : Cuts) where
      after_send-Keeps :
          (next : Player → W → Left W) (s : Sample) (p : Player) (more rest : List Sample)
          (r : RtpSender × Result (SendError F) (Unit {0}) × W)
          → ((p' : Player) (w : W)
              → p'.sender.format ≡ format
              → Keeps (p'.sent ++ due more) rest (next p' w))
          → r.0.format ≡ format
          → ((e : SendError F) → r.1 ≡ err e → Cut p.sent (p.sent ++ (s ∷ due more)))
          → Keeps
              (p.sent ++ (s ∷ due more))
              rest
              (after_send rtp ctx read load_init pick asked next s p r)
      unfolding after_send progressed
      after_send-Keeps next s p more rest (sender, ok d, w) keep same cut =
          subst (λ plan. Keeps plan rest (next (progressed s (record p { sender = sender })) w))
            (append_assoc p.sent (s ∷ []) (due more))
            (keep (progressed s (record p { sender = sender })) w same)
      after_send-Keeps next s p more rest (sender, err e, w) keep same cut = cut e refl

      send_paced-Keeps :
          (next : Player → W → Left W) (s : Sample) (p : Player) (more rest : List Sample)
          (waited : Bool × W)
          → ((p' : Player) (w : W)
              → p'.sender.format ≡ format
              → Keeps (p'.sent ++ due more) rest (next p' w))
          → Fits s
          → p.sender.format ≡ format
          → (waited.0 ≡ true → Cut p.sent (p.sent ++ (s ∷ due more)))
          → Keeps
              (p.sent ++ (s ∷ due more))
              rest
              (send_paced rtp ctx read load_init pick asked next s p waited)
      unfolding send_paced
      send_paced-Keeps next s p more rest (true, w) keep fits same cut = cut refl
      send_paced-Keeps next s p more rest (false, w) keep fits same cut =
          after_send-Keeps next s p more rest (send_sample rtp s p.sender w) keep
            (send_sample-format rtp s p.sender w ∙ same)
            (λ e failed. cuts.sending s p.sender w e p.sent (s ∷ due more) fits same failed)

      paced-cut :
          (s : Sample) (p : Player) (w : W) (xs ys : List Sample)
          → (pace rtp ctx read load_init pick asked s p w).0 ≡ true
          → Cut xs (xs ++ ys)
      unfolding pace
      paced-cut s p w xs ys h = cuts.waiting _ w xs ys (waits _ w _ h)

      play_sample-Keeps :
          (next : Player → W → Left W) (s : Sample) (p : Player) (more rest : List Sample)
          (asks : Bool × W)
          → ((p' : Player) (w : W)
              → p'.sender.format ≡ format
              → Keeps (p'.sent ++ due more) rest (next p' w))
          → Fits s
          → p.sender.format ≡ format
          → (asks.0 ≡ true → Cut p.sent (p.sent ++ due (s ∷ more)))
          → Keeps
              (p.sent ++ due (s ∷ more))
              rest
              (play_sample rtp ctx read load_init pick asked next s p asks)
      unfolding play_sample expected
      play_sample-Keeps next s p more rest (true, w) keep fits same cut = cut refl
      play_sample-Keeps next s p more rest (false, w) keep fits same cut =
          elim (Bool-cases (before s.timestamp asked.start)) [
            | inl early ↦ rw early (keep p w same)
            | inr in_time ↦ elim (Bool-cases (after_end s.timestamp asked.end)) [
              | inl past ↦ rw (in_time, past) (rw append-nil (cuts.whole p.sent))
              | inr reached ↦ elim (Bool-cases (should_send_sample s asked.scale)) [
                | inl sent ↦
                    rw (in_time, reached, sent)
                      (send_paced-Keeps next s p more rest
                        (pace rtp ctx read load_init pick asked s p w) keep fits same
                        (paced-cut s p w p.sent (s ∷ due more)))
                | inr skipped ↦ rw (in_time, reached, skipped) (keep p w same)
              ]
            ]
          ]

      pub play_samples-Keeps :
          (ss rest : List Sample) (p : Player) (w : W)
          → All Fits ss
          → p.sender.format ≡ format
          → Keeps
              (p.sent ++ due (ss ++ rest))
              rest
              (play_samples rtp ctx read load_init pick asked ss p w)
      unfolding play_samples
      play_samples-Keeps [] rest p w fits same = (refl, same)
      play_samples-Keeps (s ∷ ss) rest p w fits same =
          play_sample-Keeps (play_samples rtp ctx read load_init pick asked ss) s p (ss ++ rest)
            rest (ctx.is_done w) (λ p' w' same'. play_samples-Keeps ss rest p' w' fits.1 same')
            fits.0 same (cuts.done w p.sent (due (s ∷ (ss ++ rest))))
