-- ===== src/Gop.antt =====
-- internal/recorder/gop_assembler.go: the assembler that groups samples into GOPs. A method on
-- *GOPAssembler returns the new record; its mutex makes each method one step.
pub mod Invariant
pub mod Partition
use record_storage.Common.{
  ℕ, ◌<◌, ◌≡◌, refl, Bool, true, false, not, ◌&&◌, Option, none, some, List, [], ◌∷◌, ◌++◌, map,
  Bytes, ltb, ◌==◌, length, if◌then◌else◌, ap, arith,
}
use record_storage.Clock.{Time, zero_time}
use record_storage.Sample.{Sample, CodecParameters}

pub record Assembler : Type 0 where
  pub samples : List Sample
  pub has_key_frame : Bool
  pub start_time : Time

unfoldable pub new_assembler : Assembler
new_assembler = record { samples = []; has_key_frame = false; start_time = zero_time }

-- append([]byte(nil), unit...)
clone : Bytes → Bytes
clone unit = [] ++ unit

-- a copy is made only of a nonempty slice
clone_nonempty : Bytes → Bytes
unfolding clone
clone_nonempty unit = if ltb 0 (length unit) then clone unit else unit

unfoldable pub copy_sample : Sample → Sample
unfolding clone clone_nonempty
copy_sample sample =
    let p = sample.params in
    record sample {
      units = map clone sample.units;
      params = record p {
        sps = clone_nonempty p.sps;
        pps = clone_nonempty p.pps;
        vps = clone_nonempty p.vps;
        config = clone_nonempty p.config;
      };
    }

-- AddSample; the flag asks the caller to flush and to add the sample again. Its error is always nil.
unfoldable pub add_sample : Assembler → Sample → Assembler × Bool
add_sample g sample =
    if sample.is_key && (g.has_key_frame && ltb 0 (length g.samples))
    then (g, true)
    else if not g.has_key_frame && not sample.is_key
    then (g, false)
    else let g' =
        if not g.has_key_frame
        then record g { has_key_frame = true; start_time = sample.timestamp }
        else g in
      (record g' { samples = g'.samples ++ (copy_sample sample ∷ []) }, false)

-- Reset
unfoldable pub reset : Assembler → Assembler
reset g = record { samples = []; has_key_frame = false; start_time = zero_time }

-- Flush; `none` is the error "no gop available"
unfoldable pub flush : Assembler → Assembler × Option (List Sample × Time)
flush g = if not g.has_key_frame then (g, none) else if length g.samples == 0 then (g, none) else (
  record { samples = []; has_key_frame = false; start_time = zero_time },
  some (g.samples, g.start_time),
)

-- A copied sample has the value of the original.
map-clone : (us : List Bytes) → map clone us ≡ us
unfolding clone
map-clone [] = refl
map-clone (u ∷ us) = ap (◌∷◌ u) (map-clone us)

clone_nonempty_lem : (u : Bytes) → clone_nonempty u ≡ u
unfolding clone_nonempty
clone_nonempty_lem u = ground arith

pub copy_sample_lem : (s : Sample) → copy_sample s ≡ s
unfolding copy_sample
copy_sample_lem s = ground (
  arith,
  map-clone s.units,
  clone_nonempty_lem s.params.sps,
  clone_nonempty_lem s.params.pps,
  clone_nonempty_lem s.params.vps,
  clone_nonempty_lem s.params.config,
)
