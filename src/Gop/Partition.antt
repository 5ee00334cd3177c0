-- ===== src/Gop/Partition.antt =====
-- The samples that internal/recorder/gop_assembler.go is given and the GOPs that it gives back, when
-- it is driven as ProcessSample of internal/recorder/stream_recorder.go drives it.
use record_storage.Common.{
  Bool-cases, inl, inr, ◌≡◌, refl, true, false, List, [], ◌∷◌, ◌++◌, All, All-append, Option, none,
  some, append-nil, append_assoc, if◌then◌else◌, arith, sym, ap, ◌∙◌,
}
use record_storage.Clock.{Time}
use record_storage.Sample.{Sample}
use record_storage.Gop.{Assembler, new_assembler, add_sample, flush, copy_sample_lem}
use record_storage.Gop.Invariant.{IsGop, IsValid, NonKey}

abbrev gops_of : Option (List Sample × Time) → List (List Sample)
gops_of none = []
gops_of (some (ss, t)) = ss ∷ []

-- Add a sample; if the flag comes back, flush and add it again. The GOPs flushed come back too.
unfoldable pub feed : Assembler → Sample → Assembler × List (List Sample)
feed g s =
    let (g', full) = add_sample g s in
    let (flushed, out) = flush g' in
    if full then ((add_sample flushed s).0, gops_of out) else (g', [])

unfoldable pub feed_all : Assembler → List Sample → Assembler × List (List Sample)
feed_all g [] = (g, [])
feed_all g (s ∷ ss) =
    let (g', out) = feed g s in let (g'', outs) = feed_all g' ss in (g'', out ++ outs)

-- All samples from the first key frame on.
pub from_key : List Sample → List Sample
from_key [] = []
from_key (s ∷ ss) = if s.is_key then s ∷ ss else from_key ss

abbrev pub concat : List (List Sample) → List Sample
concat [] = []
concat (g ∷ gs) = g ++ concat gs

-- What one sample does to an empty assembler and to one that holds a GOP.
feed_empty_key :
    (s : Sample)
    → s.is_key ≡ true
    → feed new_assembler s
      ≡ (record { samples = s ∷ []; has_key_frame = true; start_time = s.timestamp }, [])
unfolding feed add_sample new_assembler
feed_empty_key s k = ground (arith, copy_sample_lem s)

feed_empty_other : (s : Sample) → s.is_key ≡ false → feed new_assembler s ≡ (new_assembler, [])
unfolding feed add_sample new_assembler
feed_empty_other s k = ground arith

module _ (k : Sample) (ss : List Sample) (t : Time) (s : Sample) where
  abbrev held : Assembler
  held = record { samples = k ∷ ss; has_key_frame = true; start_time = t }

  feed_key :
      s.is_key ≡ true
      → feed held s ≡ (
        record { samples = s ∷ []; has_key_frame = true; start_time = s.timestamp },
        (k ∷ ss) ∷ [],
      )
  unfolding feed add_sample flush
  feed_key e = ground (arith, copy_sample_lem s)

  feed_other :
      s.is_key ≡ false
      → feed held s
        ≡ (record { samples = (k ∷ ss) ++ (s ∷ []); has_key_frame = true; start_time = t }, [])
  unfolding feed add_sample flush
  feed_other e = ground (arith, copy_sample_lem s)

abbrev Parts : List Sample → Assembler × List (List Sample) → Type 0
Parts ss (g, out) = (concat out ++ g.samples ≡ ss) × All IsGop out × IsValid g

-- From an assembler that holds a GOP.
feed_held :
    (k : Sample) (held : List Sample) (t : Time) (ss : List Sample)
    → k.is_key ≡ true
    → All NonKey held
    → t ≡ k.timestamp
    → Parts
        ((k ∷ held) ++ ss)
        (feed_all (record { samples = k ∷ held; has_key_frame = true; start_time = t }) ss)
unfolding feed_all
feed_held k held t [] hk hs ht = (sym (append-nil (k ∷ held)), tt, (refl, hk, hs, ht))
feed_held k held t (s ∷ ss) hk hs ht = elim (Bool-cases s.is_key) [
  | inl key ↦
      let (whole, gops, valid) = feed_held s [] s.timestamp ss key tt refl in
      rw (feed_key k held t s key)
        (append_assoc (k ∷ held) _ _ ∙ ap (λ r. (k ∷ held) ++ r) whole, ((hk, hs), gops), valid)
  | inr other ↦
      let (whole, gops, valid) =
        feed_held k (held ++ (s ∷ [])) t ss hk (All-append NonKey held (s ∷ []) hs (other, tt))
          ht in
      rw (feed_other k held t s other) (whole ∙ append_assoc (k ∷ held) (s ∷ []) ss, gops, valid)
]

from_key-key : (s : Sample) (ss : List Sample) → s.is_key ≡ true → from_key (s ∷ ss) ≡ s ∷ ss
unfolding from_key
from_key-key s ss e = ground arith

from_key-other :
    (s : Sample) (ss : List Sample) → s.is_key ≡ false → from_key (s ∷ ss) ≡ from_key ss
unfolding from_key
from_key-other s ss e = ground arith

feed_new : (ss : List Sample) → Parts (from_key ss) (feed_all new_assembler ss)
unfolding feed_all
feed_new [] = unfold new_assembler from_key in (refl, tt, (refl, refl))
feed_new (s ∷ ss) = elim (Bool-cases s.is_key) [
  | inl key ↦
      rw (feed_empty_key s key, from_key-key s ss key) (feed_held s [] s.timestamp ss key tt refl)
  | inr other ↦ rw (feed_empty_other s other, from_key-other s ss other) (feed_new ss)
]

-- From a new assembler, the GOPs given back followed by the samples still held are, in order, all
-- the samples from the first key frame on; nothing is lost, repeated or reordered. Each GOP is a
-- key frame followed by no other key frame, and what is still held is empty or such a GOP.
pub feed_all_partition :
    (ss : List Sample)
    → (concat (feed_all new_assembler ss).1 ++ (feed_all new_assembler ss).0.samples ≡ from_key ss)
      × All IsGop (feed_all new_assembler ss).1
      × IsValid (feed_all new_assembler ss).0
feed_all_partition ss = feed_new ss
