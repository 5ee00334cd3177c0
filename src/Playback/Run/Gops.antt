-- ===== src/Playback/Run/Gops.antt =====
-- What the loop over the GOPs in runPlayback of internal/playback/server.go sends, whatever has been
-- prefetched.
use record_storage.Common.{
  ◌≡◌, inl, inr, refl, sym, ap, subst, ◌∙◌, Bool, true, false, List, All, [], ◌∷◌, ◌++◌, append-nil,
  Bytes, bytes_eq, Result, ok, err, Bool-cases, Option-cases,
}
use record_storage.Clock.{before}
use record_storage.Sample.{Sample, InitSegment, codec_eq}
use record_storage.Index.{GopMeta}
use record_storage.Index.Cursor.{In}
use record_storage.Playback.Prefetcher.{Cache, cached, take_cached, remove, prefetch_all}
use record_storage.Playback.Prefetcher.Laws.{
  IsFaithful, ReadAlike, prefetch_all-IsFaithful, remove-IsFaithful,
}
use record_storage.Playback.Sender.{Format, Rtp}
use record_storage.Playback.Sender.Laws.{send_codec_params-format}
use record_storage.Playback.Run.{
  Context, Asked, Player, Left, after_end, switch_init, use_init, samples_of, play_read, next_gop,
  play_gop, play_gops, play_samples,
}
use record_storage.Playback.Run.Plan.{expected, recorded, followed_by}
use record_storage.Playback.Run.Samples.{Cuts, Keeps, play_samples-Keeps}

-- The GOPs of the turns, and whether each turn's prefetches are of listed GOPs.
abbrev pub gops_of : List (List GopMeta × GopMeta) → List GopMeta
gops_of [] = []
gops_of ((ended, meta) ∷ turns) = meta ∷ gops_of turns

abbrev pub AreListed : List GopMeta → List (List GopMeta × GopMeta) → Type 0
AreListed metas [] = Unit {0}
AreListed metas ((ended, meta) ∷ turns) =
    All (λ (m : GopMeta). In m metas) ended × In meta metas × AreListed metas turns

module _ {E F W P : Type 0} (rtp : Rtp F W P) (ctx : Context W)
    (read : GopMeta → Result E (List Sample)) (load_init : Bytes → Result E InitSegment)
    (pick : Cache → Bytes) (asked : Asked) where
  use_init-same :
      (m : GopMeta) (p : Player) (w : W) (r : Result E InitSegment)
      → ((use_init rtp ctx read load_init pick asked m p w r).0.sent ≡ p.sent)
        × ((use_init rtp ctx read load_init pick asked m p w r).0.sender.format ≡ p.sender.format)
  unfolding use_init
  use_init-same m p w (err e) = (refl, refl)
  use_init-same m p w (ok init) = elim (Bool-cases (codec_eq init.codec asked.codec)) [
    | inl t ↦
        rw t (refl, send_codec_params-format rtp m.start_time (record p.sender { init = init }) w)
    | inr t ↦ rw t (refl, refl)
  ]

  switch_init-same :
      (m : GopMeta) (p : Player) (w : W)
      → ((switch_init rtp ctx read load_init pick asked m p w).0.sent ≡ p.sent)
        × ((switch_init rtp ctx read load_init pick asked m p w).0.sender.format ≡ p.sender.format)
  unfolding switch_init
  switch_init-same m p w = elim (Bool-cases (bytes_eq m.init_key p.init_key)) [
    | inl t ↦ rw t (refl, refl)
    | inr t ↦ rw t (use_init-same m p w (load_init m.init_key))
  ]

  module _ (metas : List GopMeta) (alike : ReadAlike read metas) where
    -- Whatever the cache answers is what reading gives.
    samples_of-read :
        (m : GopMeta) (cache : Cache)
        → In m metas
        → IsFaithful read metas cache
        → samples_of rtp ctx read load_init pick asked m (cached m.object_key cache) ≡ read m
    unfolding samples_of
    samples_of-read m cache i f = elim (Option-cases (cached m.object_key cache)) [
      | inl missing ↦ rw missing refl
      | inr (v, here) ↦ rw here (sym (f m v i here))
    ]

    play_gop-read :
        (ended : List GopMeta) (m : GopMeta) (cache : Cache) (p : Player) (w : W)
        → All (λ (x : GopMeta). In x metas) ended
        → In m metas
        → IsFaithful read metas cache
        → (rest : Cache) × (play_gop rtp ctx read load_init pick asked ended m cache (p, w)
            ≡ (rest, play_read rtp ctx read load_init pick asked (read m) p w))
          × IsFaithful read metas rest
    unfolding play_gop take_cached
    play_gop-read ended m cache p w listed i f =
        let full = prefetch_all read pick ended cache in
        let faithful = prefetch_all-IsFaithful read metas pick alike ended cache listed f in
        (
          remove m.object_key full,
          ap (λ r. (remove m.object_key full, play_read rtp ctx read load_init pick asked r p w))
              (samples_of-read m full i faithful),
          remove-IsFaithful read metas m.object_key full faithful,
        )

    module _ (format : Format) (Cut : List Sample → List Sample → Type 0) (Fits : Sample → Type 0)
        (cuts : Cuts rtp ctx read load_init pick asked format Cut Fits)
        (fits : (m : GopMeta) (v : List Sample) → In m metas → read m ≡ ok v → All Fits v) where
      abbrev plan : List GopMeta → List Sample
      plan ms = expected asked.start asked.end asked.scale (recorded read asked.start asked.end ms)

      -- Follows a loop that leaves `rest` to be sent.
      next_gop-Cut :
          (next : Cache → Player → W → Cache × Left W) (cache : Cache) (goes_on : Bool) (p : Player)
          (w : W) (all rest : List Sample)
          → ((p' : Player) (w' : W)
              → p'.sender.format ≡ format
              → Cut
                  (next cache p' w').1.player.sent
                  (p'.sent ++ expected asked.start asked.end asked.scale rest))
          → Keeps rtp ctx read load_init pick asked format Cut Fits all rest
              (record { goes_on = goes_on; player = p; world = w })
          → Cut
              (next_gop rtp ctx read load_init pick asked next
                (cache, record { goes_on = goes_on; player = p; world = w })).1.player.sent
              all
      unfolding next_gop
      next_gop-Cut next cache true p w all rest goes (sum, same) =
          subst (Cut (next cache p w).1.player.sent) sum (goes p w same)
      next_gop-Cut next cache false p w all rest goes cut = cut

      play_read-Cut :
          (next : Cache → Player → W → Cache × Left W) (cache : Cache) (r : Result E (List Sample))
          (rest : List Sample) (p : Player) (w : W)
          → ((v : List Sample) → r ≡ ok v → All Fits v)
          → p.sender.format ≡ format
          → ((p' : Player) (w' : W)
              → p'.sender.format ≡ format
              → Cut
                  (next cache p' w').1.player.sent
                  (p'.sent ++ expected asked.start asked.end asked.scale rest))
          → Cut
              (next_gop rtp ctx read load_init pick asked next
                (cache, play_read rtp ctx read load_init pick asked r p w)).1.player.sent
              (p.sent ++ expected asked.start asked.end asked.scale (followed_by r rest))
      unfolding play_read followed_by
      play_read-Cut next cache (ok v) rest p w fit same goes =
          let left = play_samples rtp ctx read load_init pick asked v p w in
          next_gop-Cut next cache left.goes_on left.player left.world _ rest goes (
            play_samples-Keeps rtp ctx read load_init pick asked format Cut Fits cuts v rest p w
              (fit v refl) same)
      play_read-Cut next cache (err e) rest p w fit same goes =
          unfold expected next_gop in rw append-nil (cuts.whole p.sent)

      play_gop-Cut :
          (next : Cache → Player → W → Cache × Left W) (ended : List GopMeta) (m : GopMeta)
          (cache : Cache) (at : Player × W) (rest : List Sample)
          → All (λ (x : GopMeta). In x metas) ended
          → In m metas
          → IsFaithful read metas cache
          → at.0.sender.format ≡ format
          → ((cache' : Cache) (p : Player) (w : W)
              → IsFaithful read metas cache'
              → p.sender.format ≡ format
              → Cut
                  (next cache' p w).1.player.sent
                  (p.sent ++ expected asked.start asked.end asked.scale rest))
          → Cut
              (next_gop rtp ctx read load_init pick asked next
                (play_gop rtp ctx read load_init pick asked ended m cache at)).1.player.sent
              (at.0.sent ++ expected asked.start asked.end asked.scale (followed_by (read m) rest))
      play_gop-Cut next ended m cache (p, w) rest listed i f same goes =
          let (left, is, faithful) = play_gop-read ended m cache p w listed i f in
          subst
            (λ (r : Cache × Left W).
              Cut (next_gop rtp ctx read load_init pick asked next r).1.player.sent
                (p.sent ++ expected asked.start asked.end asked.scale (followed_by (read m) rest)))
            (sym is)
            (play_read-Cut next left (read m) rest p w (λ v. fits m v i) same
              (λ p' w'. goes left p' w' faithful))

      pub play_gops-Cut :
          (turns : List (List GopMeta × GopMeta)) (cache : Cache) (p : Player) (w : W)
          → AreListed metas turns
          → IsFaithful read metas cache
          → p.sender.format ≡ format
          → Cut
              (play_gops rtp ctx read load_init pick asked turns cache p w).1.player.sent
              (p.sent ++ plan (gops_of turns))
      unfolding play_gops recorded expected
      play_gops-Cut [] cache p w listed f same = rw append-nil (cuts.whole p.sent)
      play_gops-Cut ((ended, m) ∷ turns) cache p w listed f same =
          elim (Bool-cases (before m.end_time asked.start)) [
            | inl early ↦ rw early (play_gops-Cut turns cache p w listed.2 f same)
            | inr reaches ↦ elim (Bool-cases (after_end m.start_time asked.end)) [
              | inl past ↦ rw (reaches, past) (rw append-nil (cuts.whole p.sent))
              | inr starts ↦
                  let (switched, same_format) = switch_init-same m p w in
                  rw (reaches, starts)
                    (subst
                      (λ (xs : List Sample).
                        Cut
                          (next_gop rtp ctx read load_init pick asked
                            (play_gops rtp ctx read load_init pick asked turns)
                            (play_gop rtp ctx read load_init pick asked ended m cache
                              (switch_init rtp ctx read load_init pick asked m p w))).1.player.sent
                          (xs
                            ++ expected asked.start asked.end asked.scale (
                                followed_by (read m)
                                  (recorded read asked.start asked.end (gops_of turns)))))
                      switched
                      (play_gop-Cut (play_gops rtp ctx read load_init pick asked turns) ended m
                        cache (switch_init rtp ctx read load_init pick asked m p w)
                        (recorded read asked.start asked.end (gops_of turns)) listed.0 listed.1 f
                        (same_format ∙ same)
                        (λ rest p' w' faithful same'.
                          play_gops-Cut turns rest p' w' listed.2 faithful same')))
            ]
          ]
