-- ===== src/Stream/Reach.antt =====
-- The recorders that goroutines reach through internal/recorder/stream_recorder.go.
use record_storage.Common.{
  ℕ, ◌≡◌, ◌≢◌, refl, sym, ap, Bool, true, false, Option, none, some, List, [], ◌∷◌, ◌++◌, Bytes,
  err, All, arith, ◌∙◌,
}
use record_storage.Sample.{Sample, idle, waiting_key_frame, recording, stopping, RecorderState}
use record_storage.Gop.Invariant.{new_assembler-IsValid}
use record_storage.Fmp4.Builder.{MediaLibrary}
use record_storage.Writer.{Writer}
use record_storage.Stream.Actions.{
  Stream, builder_not_initialized, no_gop_available, set_state, write_event,
}
use record_storage.Stream.Flush.{flush_gop, flush_samples}
use record_storage.Stream.Process.{is_none}
use record_storage.Stream.Lifecycle.{new_stream, start, start_from}
use record_storage.Stream.Control.{flush_gop-empty, flush_gop-built}
use record_storage.Stream.Calls.{
  Call, loaded, flushing, flushed, to_return, advance, begin_stop, stop_first, resume,
}
use record_storage.Stream.Sound.{IsSound, HasBuilder, Seen, SeenNext}
use record_storage.Stream.Pieces.{advance-Keeps, flush_samples-built}

module _ (lib : MediaLibrary) (date_text : ℕ → Bytes) where
  -- The recorders that goroutines make, each with the calls that are under way: main makes a recorder
  -- and attaches the memory controller, the scheduler starts and stops it, the puller hands it
  -- samples, anyone flushes it, the writer changes on its own, and of the calls any may go on.
  pub data Reach : Stream → List Call → Type 0 where
    made : (camera_id : Bytes) (w : Writer) → Reach (new_stream camera_id w) []
    attached :
        (s : Stream) (calls : List Call)
        → Reach s calls
        → Reach (record s { has_mem_ctrl = true }) calls
    shared :
        (w : Writer) (s : Stream) (calls : List Call)
        → Reach s calls
        → Reach (record s { writer = w }) calls
    started : (s : Stream) (calls : List Call) → Reach s calls → Reach (start s).1 calls
    stopping_begun :
        (s : Stream) (calls : List Call)
        → Reach s calls
        → Reach (begin_stop lib date_text s).0 ((begin_stop lib date_text s).1 ++ calls)
    sample_begun :
        (sample : Sample) (s : Stream) (calls : List Call)
        → Reach s calls
        → Reach s (loaded s.state sample ∷ calls)
    flush_begun :
        (s : Stream) (calls : List Call) → Reach s calls → Reach s (flushing to_return ∷ calls)
    advanced :
        (front : List Call) (call : Call) (back : List Call) (s : Stream)
        → Reach s (front ++ (call ∷ back))
        → Reach
            (advance lib date_text call s).0
            (front ++ resume (advance lib date_text call s).1 back)

  AreSeen : Stream → List Call → Type 0
  AreSeen s = All (Seen s)

  AreSeen-mono :
      (s s' : Stream) (calls : List Call)
      → (HasBuilder s → HasBuilder s')
      → AreSeen s calls
      → AreSeen s' calls
  unfolding AreSeen
  AreSeen-mono s s' [] still h = tt
  AreSeen-mono s s' (call ∷ calls) still h = (λ e. still (h.0 e), AreSeen-mono s s' calls still h.1)

  resume-AreSeen :
      (s : Stream) (k : Option Call) (calls : List Call)
      → SeenNext s k
      → AreSeen s calls
      → AreSeen s (resume k calls)
  unfolding AreSeen
  resume-AreSeen s none calls n h = h
  resume-AreSeen s (some call) calls n h = (n, h)

  -- The call at hand and, once it has gone on, the others.
  AreSeen-call :
      (front : List Call) (call : Call) (back : List Call) (s : Stream)
      → AreSeen s (front ++ (call ∷ back))
      → Seen s call
  unfolding AreSeen
  AreSeen-call [] call back s h = h.0
  AreSeen-call (c ∷ front) call back s h = AreSeen-call front call back s h.1

  AreSeen-advance :
      (front : List Call) (call : Call) (back : List Call) (s s' : Stream) (k : Option Call)
      → (HasBuilder s → HasBuilder s')
      → SeenNext s' k
      → AreSeen s (front ++ (call ∷ back))
      → AreSeen s' (front ++ resume k back)
  unfolding AreSeen
  AreSeen-advance [] call back s s' k still n h =
      resume-AreSeen s' k back n (AreSeen-mono s s' back still h.1)
  AreSeen-advance (c ∷ front) call back s s' k still n h =
      (λ e. still (h.0 e), AreSeen-advance front call back s s' k still n h.1)

  -- Start, and the first piece of Stop.
  Untouched : Stream → Stream → Type 0
  Untouched s s' = (s'.assembler ≡ s.assembler) × (s'.builder ≡ s.builder)

  start-Untouched : (s : Stream) → Untouched s (start s).1
  unfolding Untouched start
  start-Untouched s = from s.state
    where
      from : (state : RecorderState) → Untouched s (start_from state s).1
      from idle = unfold start_from in unfold set_state in unfold write_event in (refl, refl)
      from waiting_key_frame = unfold start_from in (refl, refl)
      from recording = unfold start_from in (refl, refl)
      from stopping = unfold start_from in unfold set_state in unfold write_event in (refl, refl)

  begin_stop-Untouched : (s : Stream) → Untouched s (begin_stop lib date_text s).0
  unfolding Untouched begin_stop
  begin_stop-Untouched s = from s.state
    where
      from : (state : RecorderState) → Untouched s (stop_first lib date_text state s).0
      from idle = unfold stop_first in (refl, refl)
      from waiting_key_frame = unfold stop_first in unfold set_state in (refl, refl)
      from recording = unfold stop_first in unfold set_state in (refl, refl)
      from stopping = unfold stop_first in unfold set_state in (refl, refl)

  begin_stop-AreSeen :
      (s s' : Stream) (state : RecorderState) (calls : List Call)
      → AreSeen s' calls
      → AreSeen s' ((stop_first lib date_text state s).1 ++ calls)
  unfolding AreSeen stop_first
  begin_stop-AreSeen s s' idle calls h = h
  begin_stop-AreSeen s s' waiting_key_frame calls h = (λ e. absurd (ground (arith, e)), h)
  begin_stop-AreSeen s s' recording calls h = (λ e. absurd (ground (arith, e)), h)
  begin_stop-AreSeen s s' stopping calls h = (λ e. absurd (ground (arith, e)), h)

  record Stands (s : Stream) (calls : List Call) : Type 0 where
    sound : IsSound s
    seen : AreSeen s calls

  -- A step that touches neither the assembler nor the builder.
  Stands-on :
      (s s' : Stream) (calls : List Call) → Untouched s s' → Stands s calls → Stands s' calls
  unfolding Untouched
  Stands-on s s' calls (a, b) h = record {
    sound = record {
      valid = rw a h.sound.valid;
      built = λ e. a ∙ h.sound.built (ap is_none (sym b) ∙ e);
    };
    seen = AreSeen-mono s s' calls (λ e. ap is_none b ∙ e) h.seen;
  }

  new_stream-IsSound : (camera_id : Bytes) (w : Writer) → IsSound (new_stream camera_id w)
  unfolding new_stream
  new_stream-IsSound camera_id w = record { valid = new_assembler-IsValid; built = λ b. refl }

  Reach-Stands : (s : Stream) (calls : List Call) → Reach s calls → Stands s calls
  unfolding AreSeen Untouched begin_stop
  Reach-Stands s calls (made camera_id w) = record {
    sound = new_stream-IsSound camera_id w;
    seen = tt;
  }
  Reach-Stands s calls (attached s' calls' r) =
      Stands-on s' (record s' { has_mem_ctrl = true }) calls (refl, refl) (Reach-Stands s' calls r)
  Reach-Stands s calls (shared w s' calls' r) =
      Stands-on s' (record s' { writer = w }) calls (refl, refl) (Reach-Stands s' calls r)
  Reach-Stands s calls (started s' calls' r) =
      Stands-on s' (start s').1 calls (start-Untouched s') (Reach-Stands s' calls r)
  Reach-Stands s calls (stopping_begun s' calls' r) =
      let h =
        Stands-on s' (begin_stop lib date_text s').0 calls' (begin_stop-Untouched s')
          (Reach-Stands s' calls' r) in
      record {
        sound = h.sound;
        seen = begin_stop-AreSeen s' (begin_stop lib date_text s').0 s'.state calls' h.seen;
      }
  Reach-Stands s calls (sample_begun sample s' calls' r) =
      let h = Reach-Stands s calls' r in
      record { sound = h.sound; seen = (λ e. absurd (ground (arith, e)), h.seen) }
  Reach-Stands s calls (flush_begun s' calls' r) =
      let h = Reach-Stands s calls' r in
      record { sound = h.sound; seen = (λ e. absurd (ground (arith, e)), h.seen) }
  Reach-Stands s calls (advanced front call back s' r) =
      let h = Reach-Stands s' (front ++ (call ∷ back)) r in
      let k =
        advance-Keeps lib date_text call s' h.sound (AreSeen-call front call back s' h.seen) in
      record {
        sound = k.sound;
        seen =
            AreSeen-advance front call back s' (advance lib date_text call s').0
              (advance lib date_text call s').1 k.still k.seen h.seen;
      }

  -- In every recorder that goroutines can make, whatever pieces of ProcessSample, Start, Stop and
  -- FlushGOP they interleave, the assembler holds a GOP that begins with its key frame, or nothing; and
  -- it holds nothing while there is no fMP4 builder.
  pub reachable-IsSound : (s : Stream) (calls : List Call) → Reach s calls → IsSound s
  reachable-IsSound s calls r = (Reach-Stands s calls r).sound

  flush_gop-ready :
      (b : Bool) (s : Stream)
      → is_none s.builder ≡ b
      → IsSound s
      → (flush_gop lib date_text s).0 ≢ err builder_not_initialized
  flush_gop-ready false s e h q = flush_gop-built lib date_text s e q
  flush_gop-ready true s e h q =
      let n : err no_gop_available ≡ err builder_not_initialized =
        sym (flush_gop-empty lib date_text s (h.built e)) ∙ q in
      ground arith

  -- A FlushGOP under way that has taken its samples does not find the builder missing.
  abbrev pub FindsBuilder : Stream → Call → Type 0
  FindsBuilder s (flushed samples start_time k) =
      (flush_samples lib date_text samples start_time s).0 ≢ err builder_not_initialized
  FindsBuilder s _ = Unit {0}

  Seen-FindsBuilder : (s : Stream) (call : Call) → Seen s call → FindsBuilder s call
  Seen-FindsBuilder s (flushed samples start_time k) h =
      flush_samples-built lib date_text samples start_time s (h refl)
  Seen-FindsBuilder s call h = tt

  AreSeen-FindsBuilder :
      (s : Stream) (calls : List Call) → AreSeen s calls → All (FindsBuilder s) calls
  unfolding AreSeen
  AreSeen-FindsBuilder s [] h = tt
  AreSeen-FindsBuilder s (call ∷ calls) h =
      (Seen-FindsBuilder s call h.0, AreSeen-FindsBuilder s calls h.1)

  -- However the pieces of ProcessSample, Start, Stop and FlushGOP interleave, FlushGOP never meets a
  -- GOP without an fMP4 builder to write it, neither as a whole nor, once it has taken its samples,
  -- after other goroutines have gone on: the error "builder not initialized" is unreachable.
  pub flush_gop-initialized :
      (s : Stream) (calls : List Call)
      → Reach s calls
      → ((flush_gop lib date_text s).0 ≢ err builder_not_initialized) × All (FindsBuilder s) calls
  flush_gop-initialized s calls r =
      let h = Reach-Stands s calls r in
      (flush_gop-ready (is_none s.builder) s refl h.sound, AreSeen-FindsBuilder s calls h.seen)
