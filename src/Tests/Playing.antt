-- ===== src/Tests/Playing.antt =====
-- runPlayback, the prefetcher and the sender of internal/playback at concrete inputs.
use record_storage.Common.{
  ℕ, ◌+◌, ◌≡◌, ◌≤◌, refl, subst, inl, inr, false, none, List, [], ◌∷◌, Bytes, All, codes, length,
  Result, ok, arith, bytes_eq_refl,
}
use record_storage.Sample.{h264, Sample, InitSegment}
use record_storage.Index.{GopMeta}
use record_storage.Index.Cursor.{In}
use record_storage.Playback.Scale.{normal}
use record_storage.Playback.Prefetcher.{Cache, cached, prefetch_all}
use record_storage.Playback.Prefetcher.Laws.{IsFaithful, ReadAlike, PicksOwn, length-prefetch_all}
use record_storage.Playback.Sender.{h264_enc, h264_format, Rtp, RtpSender}
use record_storage.Playback.Sender.Laws.{Works, Suits}
use record_storage.Playback.Run.{Context, Asked, run_playback}
use record_storage.Playback.Run.Plan.{expected, recorded, IsPrefix}
use record_storage.Playback.Run.Sent.{sent_by, run_playback-IsPrefix, run_playback-whole}
use record_storage.Tests.Data.{params, at_second, meta, key_sample, next_sample}

-- A stream that counts its packets.
abbrev rtp : Rtp ℕ ℕ ℕ
rtp = record {
  create_encoder = λ f. ok tt;
  encode = λ f units. ok (length units ∷ []);
  rtp_time = λ t base. t.instant;
  write_packet = λ ts p w. (ok tt, w + 1);
}

abbrev ctx : Context ℕ
ctx = record { is_done = λ w. (false, w); wait = λ d w. (false, w) }

read : GopMeta → Result ℕ (List Sample)
read m = ok (key_sample ∷ next_sample ∷ [])

load : Bytes → Result ℕ InitSegment
load key = ok (record { codec = h264; params = params })

pick : Cache → Bytes
pick [] = []
pick ((key, samples) ∷ cache) = key

abbrev asked : Asked
asked = record { start = at_second 5; end = none; scale = normal; codec = h264 }

abbrev sender : RtpSender
sender = record {
  format = h264_format 96 (1 ∷ []) (2 ∷ []) 1;
  base_time = at_second 0;
  init = record { codec = h264; params = params };
}

abbrev later : GopMeta
later = record meta { object_key = codes "gop2" }

abbrev metas : List GopMeta
metas = meta ∷ later ∷ []

-- The second GOP has been prefetched when it is asked for.
abbrev background : List (List GopMeta)
background = [] ∷ (later ∷ []) ∷ []

alike : ReadAlike read metas
unfolding read
alike m m' i i' e = refl

faithful : IsFaithful read metas []
unfolding cached
faithful m v i h = absurd (ground (arith, h))

of_gops : All (All (λ (m : GopMeta). In m metas)) background
of_gops = (tt, ((inr (inl refl), tt), tt))

run_playback-IsPrefix_example :
    IsPrefix
      (sent_by (run_playback rtp ctx read load pick asked (ok metas) (ok sender) background [] 0).1)
      (expected asked.start asked.end asked.scale (recorded read asked.start asked.end metas))
run_playback-IsPrefix_example =
    run_playback-IsPrefix rtp ctx read load pick asked metas background [] 0 alike of_gops faithful
      (ok sender)

works : Works rtp sender.format
works = record { encodes = λ units. (length units ∷ [], refl); writes = λ ts p w. refl }

suits :
    (m : GopMeta) (v : List Sample)
    → In m metas
    → read m ≡ ok v
    → All (λ (s : Sample). Suits s.codec sender.format) v
unfolding read h264_enc
suits m v i e =
    let same : key_sample ∷ next_sample ∷ [] ≡ v = cc e in
    subst (All (λ (s : Sample). Suits s.codec sender.format)) same (refl, (refl, tt))

run_playback-whole_example :
    sent_by (run_playback rtp ctx read load pick asked (ok metas) (ok sender) background [] 0).1
    ≡ expected asked.start asked.end asked.scale (recorded read asked.start asked.end metas)
run_playback-whole_example =
    run_playback-whole rtp ctx read load pick asked metas background [] 0 alike of_gops faithful
      sender (λ w. refl) (λ d w. refl) works suits

picks_own : PicksOwn pick
unfolding pick cached
picks_own [] h = absurd (omega arith)
picks_own ((key, samples) ∷ cache) h = λ e. ground (arith, e, bytes_eq_refl key)

length-prefetch_all_example : length (prefetch_all read pick (meta ∷ later ∷ []) []) ≤ 10
length-prefetch_all_example =
    length-prefetch_all read pick (meta ∷ later ∷ []) [] picks_own (omega arith)
