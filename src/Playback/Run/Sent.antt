-- ===== src/Playback/Run/Sent.antt =====
-- What runPlayback of internal/playback/server.go sends.
use record_storage.Common.{
  ℕ, ◌≡◌, inl, inr, refl, sym, ap, subst, false, Option, none, some, List, All, [], ◌∷◌, append-nil,
  Bytes, Result, ok, err, arith,
}
use record_storage.Sample.{Sample, InitSegment}
use record_storage.Index.{GopMeta}
use record_storage.Index.Cursor.{In}
use record_storage.Playback.Prefetcher.{Cache}
use record_storage.Playback.Prefetcher.Laws.{IsFaithful, ReadAlike}
use record_storage.Playback.Sender.{Rtp, RtpSender, SendError, send_sample}
use record_storage.Playback.Sender.Laws.{Works, Suits, send_sample-Works}
use record_storage.Playback.Run.{
  Context, Asked, Left, turns_of, new_player, play_gops, run_playback,
}
use record_storage.Playback.Run.Plan.{expected, recorded, IsPrefix}
use record_storage.Playback.Run.Samples.{Cuts}
use record_storage.Playback.Run.Gops.{gops_of, AreListed, play_gops-Cut}

-- The samples that a playback has sent.
unfoldable pub sent_by : {W : Type 0} → Option (Left W) → List Sample
sent_by none = []
sent_by (some left) = left.player.sent

gops-turns_of :
    (background : List (List GopMeta)) (metas : List GopMeta)
    → gops_of (turns_of background metas) ≡ metas
unfolding turns_of
gops-turns_of background [] = refl
gops-turns_of [] (m ∷ ms) = ap (◌∷◌ m) (gops-turns_of [] ms)
gops-turns_of (ended ∷ background) (m ∷ ms) = ap (◌∷◌ m) (gops-turns_of background ms)

-- Prefetches are of listed GOPs.
abbrev pub AllOf : List GopMeta → List (List GopMeta) → Type 0
AllOf metas = All (All (λ (m : GopMeta). In m metas))

turns_of-AreListed :
    (metas ms : List GopMeta) (background : List (List GopMeta))
    → AllOf metas background
    → All (λ (m : GopMeta). In m metas) ms
    → AreListed metas (turns_of background ms)
unfolding turns_of
turns_of-AreListed metas [] background all is = tt
turns_of-AreListed metas (m ∷ ms) [] all is = (tt, is.0, turns_of-AreListed metas ms [] tt is.1)
turns_of-AreListed metas (m ∷ ms) (ended ∷ background) all is =
    (all.0, is.0, turns_of-AreListed metas ms background all.1 is.1)

All-weaken :
    (ms : List GopMeta) (m : GopMeta) (xs : List GopMeta)
    → All (λ (x : GopMeta). In x xs) ms
    → All (λ (x : GopMeta). In x (m ∷ xs)) ms
All-weaken [] m xs h = tt
All-weaken (x ∷ ms) m xs h = (inr h.0, All-weaken ms m xs h.1)

All-In : (ms : List GopMeta) → All (λ (m : GopMeta). In m ms) ms
All-In [] = tt
All-In (m ∷ ms) = (inl refl, All-weaken ms m ms (All-In ms))

All-Unit : (xs : List Sample) → All (λ (s : Sample). Unit {0}) xs
All-Unit [] = tt
All-Unit (x ∷ xs) = (tt, All-Unit xs)

module _ {E F W P : Type 0} (rtp : Rtp F W P) (ctx : Context W)
    (read : GopMeta → Result E (List Sample)) (load_init : Bytes → Result E InitSegment)
    (pick : Cache → Bytes) (asked : Asked) (metas : List GopMeta) (background : List (List GopMeta))
    (cache : Cache) (w : W) (alike : ReadAlike read metas) (of_gops : AllOf metas background)
    (faithful : IsFaithful read metas cache) where
  planned : List Sample
  planned = expected asked.start asked.end asked.scale (recorded read asked.start asked.end metas)

  module _ (sender : RtpSender) (Cut : List Sample → List Sample → Type 0)
      (Fits : Sample → Type 0) where
    run_playback-Cut :
        Cuts rtp ctx read load_init pick asked sender.format Cut Fits
        → ((m : GopMeta) (v : List Sample) → In m metas → read m ≡ ok v → All Fits v)
        → Cut
            (sent_by
              (run_playback rtp ctx read load_init pick asked
                (ok metas)
                (ok sender)
                background
                cache
                w).1)
            planned
    unfolding run_playback sent_by planned new_player
    run_playback-Cut cuts fits =
        subst
          (λ (ms : List GopMeta).
            Cut
              (play_gops rtp ctx read load_init pick asked (turns_of background metas) cache
                (new_player rtp ctx read load_init pick asked sender) w).1.player.sent
              (expected asked.start asked.end asked.scale (recorded read asked.start asked.end ms)))
          (gops-turns_of background metas)
          (play_gops-Cut rtp ctx read load_init pick asked metas alike sender.format Cut Fits cuts
            fits (turns_of background metas) cache
            (new_player rtp ctx read load_init pick asked sender) w
            (turns_of-AreListed metas metas background of_gops (All-In metas)) faithful refl)

  -- However a playback ends and whatever has been prefetched: the samples it has sent are an initial
  -- part, in order, of the recorded samples that are due, where GOPs of one object read alike and the
  -- cache holds only what reading gives.
  pub run_playback-IsPrefix :
      (created : Result (SendError F) RtpSender)
      → IsPrefix
          (sent_by
            (run_playback rtp ctx read load_init pick asked
              (ok metas)
              created
              background
              cache
              w).1)
          (expected asked.start asked.end asked.scale (recorded read asked.start asked.end metas))
  unfolding planned
  run_playback-IsPrefix (err e) = unfold run_playback sent_by in (_, refl)
  run_playback-IsPrefix (ok sender) =
      run_playback-Cut sender IsPrefix (λ s. Unit {0})
        (record {
          whole = λ xs. ([], append-nil xs);
          done = λ w' xs ys h. (ys, refl);
          waiting = λ d w' xs ys h. (ys, refl);
          sending = λ s sender' w' e xs ys fits same h. (ys, refl);
        })
        (λ m v i r. All-Unit v)

  -- A playback that is never cancelled, whose encoder and stream work, and whose recorded samples are
  -- of the session's codec, sends exactly the recorded samples that are due, in order, whatever has
  -- been prefetched, where GOPs of one object read alike and the cache holds only what reading gives.
  pub run_playback-whole :
      (sender : RtpSender)
      → ((w' : W) → (ctx.is_done w').0 ≡ false)
      → ((d : ℕ) (w' : W) → (ctx.wait d w').0 ≡ false)
      → Works rtp sender.format
      → ((m : GopMeta) (v : List Sample)
          → In m metas
          → read m ≡ ok v
          → All (λ (s : Sample). Suits s.codec sender.format) v)
      → sent_by
          (run_playback rtp ctx read load_init pick asked
            (ok metas)
            (ok sender)
            background
            cache
            w).1
        ≡ expected asked.start asked.end asked.scale (recorded read asked.start asked.end metas)
  unfolding planned
  run_playback-whole sender never_done never_cut works suits =
      run_playback-Cut sender ◌≡◌ (λ (s : Sample). Suits s.codec sender.format)
        (record {
          whole = λ xs. refl;
          done = λ w' xs ys h. absurd (ground (arith, never_done w', h));
          waiting = λ d w' xs ys h. absurd (ground (arith, never_cut d w', h));
          sending = λ s sender' w' e xs ys fits same h.
              absurd (ground (arith, h, sending s sender' w' fits same));
        })
        suits
    where
      sending :
          (s : Sample) (sender' : RtpSender) (w' : W)
          → Suits s.codec sender.format
          → sender'.format ≡ sender.format
          → (send_sample rtp s sender' w').1 ≡ ok tt
      sending s sender' w' fits same =
          send_sample-Works rtp s sender' w' (subst (Works rtp) (sym same) works)
            (subst (Suits s.codec) (sym same) fits)
