-- ===== src/Gop/Invariant.antt =====
-- What holds of internal/recorder/gop_assembler.go between two calls.
use record_storage.Common.{
  none, inl, inr, ◌⊎◌, ◌≡◌, refl, true, false, some, List, [], ◌∷◌, All, All-append,
}
use record_storage.Common.{Bool, arith}
use record_storage.Clock.{Time, zero_time}
use record_storage.Sample.{Sample}
use record_storage.Gop.{
  Assembler, new_assembler, add_sample, flush, reset, copy_sample, copy_sample_lem,
}

abbrev pub NonKey : Sample → Type 0
NonKey s = s.is_key ≡ false

-- A key frame and then no other key frame.
abbrev pub IsGop : List Sample → Type 0
IsGop [] = ⊥
IsGop (s ∷ ss) = (s.is_key ≡ true) × All NonKey ss

abbrev pub Holds : List Sample → Bool → Time → Type 0
Holds [] has start = (has ≡ false) × (start ≡ zero_time)
Holds (s ∷ ss) has start = (has ≡ true) × (s.is_key ≡ true) × All NonKey ss × (start ≡ s.timestamp)

-- The assembler is empty, or holds a GOP that started at the time of its key frame.
abbrev pub IsValid : Assembler → Type 0
IsValid g = Holds g.samples g.has_key_frame g.start_time

pub new_assembler-IsValid : IsValid new_assembler
unfolding new_assembler
new_assembler-IsValid = (refl, refl)

add-Holds :
    (ss : List Sample) (has : Bool) (start : Time) (s : Sample)
    → Holds ss has start
    → IsValid (add_sample (record { samples = ss; has_key_frame = has; start_time = start }) s).0
unfolding add_sample
add-Holds [] has start s h = ground (arith, copy_sample_lem s)
add-Holds (k ∷ ss) has start s h =
    ground (arith, copy_sample_lem s, All-append NonKey ss (copy_sample s ∷ []) h.2)

pub add_sample-IsValid : (g : Assembler) (s : Sample) → IsValid g → IsValid (add_sample g s).0
add_sample-IsValid g s h = add-Holds g.samples g.has_key_frame g.start_time s h

flush-Holds :
    (ss : List Sample) (has : Bool) (start : Time)
    → Holds ss has start
    → IsValid (flush (record { samples = ss; has_key_frame = has; start_time = start })).0
unfolding flush
flush-Holds [] has start h = ground arith
flush-Holds (k ∷ ss) has start h = ground arith

pub flush-IsValid : (g : Assembler) → IsValid g → IsValid (flush g).0
flush-IsValid g h = flush-Holds g.samples g.has_key_frame g.start_time h

-- Assemblers that some sequence of calls leads to, whatever the caller does with the flags.
pub data Reach : Assembler → Type 0 where
  fresh : Reach new_assembler
  after_add : {g : Assembler} (s : Sample) → Reach g → Reach (add_sample g s).0
  after_flush : {g : Assembler} → Reach g → Reach (flush g).0
  after_reset : {g : Assembler} → Reach g → Reach (reset g)

pub Reach-IsValid : {g : Assembler} → Reach g → IsValid g
Reach-IsValid fresh = new_assembler-IsValid
Reach-IsValid (after_add {g} s r) = add_sample-IsValid g s (Reach-IsValid r)
Reach-IsValid (after_flush {g} r) = flush-IsValid g (Reach-IsValid r)
Reach-IsValid (after_reset r) = unfold reset in (refl, refl)

-- A GOP with the time at which it started.
abbrev pub IsTimedGop : List Sample → Time → Type 0
IsTimedGop ss t = IsGop ss × Holds ss true t

abbrev pub FlushesTo : Assembler → Type 0
FlushesTo g =
    ((g.samples ≡ []) × (flush g ≡ (g, none)))
    ⊎ (IsTimedGop g.samples g.start_time
        × (flush g ≡ (new_assembler, some (g.samples, g.start_time))))

flush-FlushesTo :
    (ss : List Sample) (has : Bool) (t : Time)
    → Holds ss has t
    → FlushesTo (record { samples = ss; has_key_frame = has; start_time = t })
unfolding flush new_assembler
flush-FlushesTo [] has t h = inl (refl, ground arith)
flush-FlushesTo (k ∷ ss) has t h = inr (((h.1, h.2), (refl, h.1, h.2, h.3)), ground arith)

flush-empties :
    (ss : List Sample) (has : Bool) (t : Time)
    → Holds ss has t
    → (flush (record { samples = ss; has_key_frame = has; start_time = t })).0 ≡ new_assembler
unfolding flush new_assembler
flush-empties [] has t h = ground arith
flush-empties (k ∷ ss) has t h = ground arith

-- A valid assembler is empty after Flush, whether that failed or not.
pub flush-new_assembler : (g : Assembler) → IsValid g → (flush g).0 ≡ new_assembler
flush-new_assembler g h = flush-empties g.samples g.has_key_frame g.start_time h

-- After any sequence of calls, Flush fails and changes nothing if no sample is held; otherwise it
-- empties the assembler and returns all the samples held, which are a key frame followed by no
-- other key frame, with the key frame's timestamp as the start time.
pub flush_returns_gop : (g : Assembler) → Reach g → FlushesTo g
flush_returns_gop g r = flush-FlushesTo g.samples g.has_key_frame g.start_time (Reach-IsValid r)
