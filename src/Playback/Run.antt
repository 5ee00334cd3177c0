-- ===== src/Playback/Run.antt =====
-- runPlayback of internal/playback/server.go. The context, the timer and the RTP stream are
-- operations on a world of their own. Prefetches run beside the loop: `background` lists, for each
-- turn, those that end before the cache is asked.
pub mod Gops
pub mod Plan
pub mod Samples
pub mod Sent
use record_storage.Common.{
  ℕ, ◌+◌, ◌-◌, ◌*◌, ◌/◌, ◌==◌, Bool, true, false, not, ◌||◌, Option, none, some, List, [], ◌∷◌,
  ◌++◌, Bytes, bytes_eq, ltb, Result, ok, err, if◌then◌else◌,
}
use record_storage.Clock.{Time, zero_time, is_zero, before, after}
use record_storage.Sample.{Sample, InitSegment, Codec, codec_eq}
use record_storage.Index.{GopMeta}
use record_storage.Playback.Scale.{should_send_sample}
use record_storage.Playback.Prefetcher.{Cache, cached, take_cached, remove, prefetch_all}
use record_storage.Playback.Sender.{Rtp, RtpSender, SendError, send_sample, send_codec_params}

-- Whether the context is done, and the wait for a delay unless the context is done first (true).
pub record Context (W : Type 0) : Type 0 where
  pub is_done : W → Bool × W
  pub wait : ℕ → W → Bool × W

-- What a playback is asked for: the codec is that of the session's init segment.
pub record Asked : Type 0 where
  pub start : Time
  pub end : Option Time
  pub scale : ℕ
  pub codec : Codec

-- `sent` lists the samples that were sent, which the source keeps nowhere.
pub record Player : Type 0 where
  pub sender : RtpSender
  pub init_key : Bytes
  pub last_sent : Time
  pub position : Time
  pub has_progress : Bool
  pub sent : List Sample

-- Where a loop left off: whether the next turn follows, the player and the world.
pub record Left (W : Type 0) : Type 0 where
  pub goes_on : Bool
  pub player : Player
  pub world : W

abbrev pub after_end : Time → Option Time → Bool
after_end t none = false
after_end t (some end) = after t end

-- time.Duration(float64(sample.Timestamp.Sub(lastSent)) / scale), or 0 where it is negative
unfoldable pub delay : Time → Time → ℕ → ℕ
delay ts last_sent scale = (ts.instant - last_sent.instant) * 8 / scale

unfoldable pub progressed : Sample → Player → Player
progressed sample p = record p {
  last_sent = sample.timestamp;
  position = sample.timestamp;
  has_progress = true;
  sent = p.sent ++ (sample ∷ []);
}

-- The turns of a loop over GOPs, with the prefetches that have ended before each.
unfoldable pub turns_of : List (List GopMeta) → List GopMeta → List (List GopMeta × GopMeta)
turns_of background [] = []
turns_of [] (meta ∷ metas) = ([], meta) ∷ turns_of [] metas
turns_of (ended ∷ background) (meta ∷ metas) = (ended, meta) ∷ turns_of background metas

module _ {E F W P : Type 0} (rtp : Rtp F W P) (ctx : Context W)
    (read : GopMeta → Result E (List Sample)) (load_init : Bytes → Result E InitSegment)
    (pick : Cache → Bytes) (asked : Asked) where
  abbrev halt : Player → W → Left W
  halt p w = record { goes_on = false; player = p; world = w }

  -- The wait before a sample; true if the context is done first.
  unfoldable pub pace : Sample → Player → W → Bool × W
  unfolding delay
  pace sample p w =
      let d = delay sample.timestamp p.last_sent asked.scale in
      if is_zero p.last_sent || (d == 0) then (false, w) else ctx.wait d w

  unfoldable pub after_send :
      (Player → W → Left W)
      → Sample
      → Player
      → RtpSender × Result (SendError F) (Unit {0}) × W
      → Left W
  unfolding progressed
  after_send next sample p (sender, ok done, w) =
      next (progressed sample (record p { sender = sender })) w
  after_send next sample p (sender, err e, w) = halt (record p { sender = sender }) w

  -- The wait, the sample, and what follows.
  unfoldable pub send_paced : (Player → W → Left W) → Sample → Player → Bool × W → Left W
  unfolding after_send
  send_paced next sample p (true, w) = halt p w
  send_paced next sample p (false, w) = after_send next sample p (send_sample rtp sample p.sender w)

  -- One turn of the loop over the samples, once the context is asked.
  unfoldable pub play_sample : (Player → W → Left W) → Sample → Player → Bool × W → Left W
  unfolding send_paced pace
  play_sample next sample p (true, w) = halt p w
  play_sample next sample p (false, w) =
      if before sample.timestamp asked.start
      then next p w
      else if after_end sample.timestamp asked.end
      then halt p w
      else if not (should_send_sample sample asked.scale)
      then next p w
      else send_paced next sample p (pace sample p w)

  unfoldable pub play_samples : List Sample → Player → W → Left W
  unfolding play_sample
  play_samples [] p w = record { goes_on = true; player = p; world = w }
  play_samples (sample ∷ samples) p w = play_sample (play_samples samples) sample p (ctx.is_done w)

  -- A new init segment of the session's codec, whose parameters are sent first.
  unfoldable pub use_init : GopMeta → Player → W → Result E InitSegment → Player × W
  use_init meta p w (err e) = (p, w)
  use_init meta p w (ok init) =
      if codec_eq init.codec asked.codec
      then (let r = send_codec_params rtp meta.start_time (record p.sender { init = init }) w in
          (record p { sender = r.0; init_key = meta.init_key }, r.2))
      else (p, w)

  unfoldable pub switch_init : GopMeta → Player → W → Player × W
  unfolding use_init
  switch_init meta p w =
      if bytes_eq meta.init_key p.init_key
      then (p, w)
      else use_init meta p w (load_init meta.init_key)

  -- The samples from the cache, or read.
  unfoldable pub samples_of : GopMeta → Option (List Sample) → Result E (List Sample)
  samples_of meta (some samples) = ok samples
  samples_of meta none = read meta

  unfoldable pub play_read : Result E (List Sample) → Player → W → Left W
  unfolding play_samples
  play_read (ok samples) p w = play_samples samples p w
  play_read (err e) p w = halt p w

  -- The turn of a GOP whose times fit, with the prefetches that have ended.
  unfoldable pub play_gop : List GopMeta → GopMeta → Cache → Player × W → Cache × Left W
  unfolding play_read samples_of take_cached prefetch_all
  play_gop ended meta cache (p, w) =
      let (found, rest) = take_cached meta.object_key (prefetch_all read pick ended cache) in
      (rest, play_read (samples_of meta found) p w)

  unfoldable pub next_gop : (Cache → Player → W → Cache × Left W) → Cache × Left W → Cache × Left W
  next_gop next (cache, left) =
      if left.goes_on then next cache left.player left.world else (cache, left)

  -- The loop over the GOPs.
  unfoldable pub play_gops : List (List GopMeta × GopMeta) → Cache → Player → W → Cache × Left W
  play_gops [] cache p w = (cache, record { goes_on = true; player = p; world = w })
  play_gops ((ended, meta) ∷ turns) cache p w =
      if before meta.end_time asked.start
      then play_gops turns cache p w
      else if after_end meta.start_time asked.end
      then (cache, halt p w)
      else next_gop (play_gops turns) (play_gop ended meta cache (switch_init meta p w))

  unfoldable pub new_player : RtpSender → Player
  new_player sender = record {
    sender = sender;
    init_key = [];
    last_sent = zero_time;
    position = zero_time;
    has_progress = false;
    sent = [];
  }

  -- runPlayback, given what ListGOPs and NewRTPSender return: none where it returns before the loop.
  unfoldable pub run_playback :
      Result E (List GopMeta)
      → Result (SendError F) RtpSender
      → List (List GopMeta)
      → Cache
      → W
      → Cache × Option (Left W)
  unfolding turns_of new_player
  run_playback (err e) created background cache w = (cache, none)
  run_playback (ok metas) (err e) background cache w = (cache, none)
  run_playback (ok metas) (ok sender) background cache w =
      let r = play_gops (turns_of background metas) cache (new_player sender) w in (r.0, some r.1)
