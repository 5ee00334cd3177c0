-- ===== src/Stream/Control.antt =====
-- The states of internal/recorder/stream_recorder.go.
use record_storage.Common.{ℕ, ◌≡◌, ◌≢◌, ap, none, err, Bool, false, Bytes, arith}
use record_storage.Sample.{Sample}
use record_storage.Gop
use record_storage.Gop.{Assembler, new_assembler}
use record_storage.Fmp4.Builder.{MediaLibrary}
use record_storage.Stream.Actions.{Stream, no_gop_available, builder_not_initialized}
use record_storage.Stream.Flush.{flush_gop}
use record_storage.Stream.Process.{is_none, rebuild_builder}

module _ (lib : MediaLibrary) (date_text : ℕ → Bytes) (s : Stream) where
  -- What FlushGOP changes and what it leaves alone.
  pub state-flush_gop : (flush_gop lib date_text s).1.state ≡ s.state
  unfolding flush_gop
  state-flush_gop = ground arith

  pub assembler-flush_gop : (flush_gop lib date_text s).1.assembler ≡ (Gop.flush s.assembler).0
  unfolding flush_gop
  assembler-flush_gop = ground arith

  pub builder-flush_gop : is_none (flush_gop lib date_text s).1.builder ≡ is_none s.builder
  unfolding flush_gop
  builder-flush_gop = ground arith

  -- A sample is added to an assembler that FlushGOP has emptied if it was full.
  pub state-rebuild_builder :
      (sample : Sample) (report : Bool)
      → (rebuild_builder lib date_text sample report s).1.state ≡ s.state
  unfolding rebuild_builder
  state-rebuild_builder sample report = ground arith

  pub assembler-rebuild_builder :
      (sample : Sample) (report : Bool)
      → (rebuild_builder lib date_text sample report s).1.assembler ≡ s.assembler
  unfolding rebuild_builder
  assembler-rebuild_builder sample report = ground arith

  pub builder-rebuild_builder :
      (sample : Sample) (report : Bool)
      → is_none (rebuild_builder lib date_text sample report s).1.builder ≡ false
  unfolding rebuild_builder
  builder-rebuild_builder sample report = ground arith

  -- An empty assembler has no GOP to flush.
  no_gop : (Gop.flush s.assembler).1 ≡ none → (flush_gop lib date_text s).0 ≡ err no_gop_available
  unfolding flush_gop
  no_gop e = ground arith

  pub flush_gop-empty :
      s.assembler ≡ new_assembler → (flush_gop lib date_text s).0 ≡ err no_gop_available
  unfolding Gop.flush new_assembler
  flush_gop-empty e = no_gop (ap (λ g. (Gop.flush g).1) e)

  pub flush_gop-built :
      is_none s.builder ≡ false → (flush_gop lib date_text s).0 ≢ err builder_not_initialized
  unfolding flush_gop
  flush_gop-built b e = ground arith
