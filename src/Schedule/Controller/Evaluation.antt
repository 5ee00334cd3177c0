-- ===== src/Schedule/Controller/Evaluation.antt =====
-- What Evaluate of internal/recorder/scheduler.go makes of the recorders.
use record_storage.Common.{
  ℕ, ◌≡◌, ◌≢◌, refl, sym, ap, ◌∙◌, Bool, true, false, not, Option, none, some, List, [], ◌∷◌, Bytes,
  bytes_eq, bytes_eq_iff, bytes_eq_refl, All, arith, Bool-cases, inl, inr,
}
use mathlib.Core.Path.{subst}
use record_storage.Clock.{Location, Time}
use record_storage.Sample.{RecorderState, idle, waiting_key_frame, recording, stopping}
use record_storage.Fmp4.Builder.{MediaLibrary}
use record_storage.Writer.{Writer}
use record_storage.Storage.Hybrid.Caches.{put_key}
use record_storage.Stream.Actions.{Stream}
use record_storage.Stream.Invariant.{IsReady}
use record_storage.Stream.Safety.{start-IsReady, stop-IsReady, stop-state, start-state}
use record_storage.Schedule.Controller.{
  ScheduleEntry, Fleet, is_active, is_idle, switch, evaluate_recorder, evaluate,
}

is_idle→idle : (t : RecorderState) → is_idle t ≡ true → t ≡ idle
is_idle→idle idle e = refl
is_idle→idle waiting_key_frame e = absurd (ground arith)
is_idle→idle recording e = absurd (ground arith)
is_idle→idle stopping e = absurd (ground arith)

module _ (lib : MediaLibrary) (date_text : ℕ → Bytes) (local : Location) where
  switch-idle :
      (active b : Bool) (s : Stream)
      → IsReady s
      → is_idle s.state ≡ b
      → is_idle (switch lib date_text active b s).state ≡ not active
  unfolding switch
  switch-idle true true s h e = ap is_idle (start-state lib date_text s (is_idle→idle s.state e))
  switch-idle true false s h e = e
  switch-idle false true s h e = e
  switch-idle false false s h e = ap is_idle (stop-state lib date_text s h)

  switch-IsReady :
      (active b : Bool) (s : Stream) → IsReady s → IsReady (switch lib date_text active b s)
  unfolding switch
  switch-IsReady true true s h = start-IsReady lib date_text s h
  switch-IsReady true false s h = h
  switch-IsReady false true s h = h
  switch-IsReady false false s h = stop-IsReady lib date_text s h

  given : (w : Writer) (s : Stream) → IsReady s → IsReady (record s { writer = w })
  given w s h = record { valid = h.valid; built = h.built; quiet = h.quiet }

  -- A recorder that is there and ready.
  abbrev pub IsThere : Option Stream → Type 0
  IsThere none = ⊥
  IsThere (some s) = IsReady s

  abbrev pub Follows : Bool → Option Stream → Type 0
  Follows active none = ⊥
  Follows active (some s) = is_idle s.state ≡ not active

  put_key-other :
      {A : Type 0} (key : Bytes) (a : A) (m : Bytes → Option A) (k : Bytes)
      → k ≢ key
      → put_key key a m k ≡ m k
  put_key-other key a m k h = elim (Bool-cases (bytes_eq k key)) [
    | inl e ↦ absurd (h ((bytes_eq_iff k key).0 e))
    | inr e ↦ rw e refl
  ]

  put_key-own :
      {A : Type 0} (key : Bytes) (a : A) (m : Bytes → Option A) → put_key key a m key ≡ some a
  put_key-own key a m = rw (bytes_eq_refl key) refl

  -- No entry is for the camera `id`.
  abbrev pub Absent : Bytes → List ScheduleEntry → Type 0
  Absent id = All (λ (e : ScheduleEntry). id ≢ e.camera_id)

  abbrev pub AreDistinct : List ScheduleEntry → Type 0
  AreDistinct [] = Unit {0}
  AreDistinct (e ∷ es) = Absent e.camera_id es × AreDistinct es

  abbrev pub AreThere : Fleet → List ScheduleEntry → Type 0
  AreThere fleet = All (λ (e : ScheduleEntry). IsThere (fleet.recorders e.camera_id))

  abbrev pub AllFollow : Time → Fleet → List ScheduleEntry → Type 0
  AllFollow now fleet =
      All (λ (e : ScheduleEntry).
        Follows (is_active local e.config now) (fleet.recorders e.camera_id))

  evaluate_recorder-other :
      (entry : ScheduleEntry) (now : Time) (fleet : Fleet) (o : Option Stream) (id : Bytes)
      → id ≢ entry.camera_id
      → (evaluate_recorder lib date_text local entry now fleet o).recorders id ≡ fleet.recorders id
  unfolding evaluate_recorder
  evaluate_recorder-other entry now fleet none id h = refl
  evaluate_recorder-other entry now fleet (some r) id h =
      put_key-other entry.camera_id _ fleet.recorders id h

  evaluate_recorder-own :
      (entry : ScheduleEntry) (now : Time) (fleet : Fleet) (o : Option Stream)
      → IsThere o
      → Follows
          (is_active local entry.config now)
          ((evaluate_recorder lib date_text local entry now fleet o).recorders entry.camera_id)
  unfolding evaluate_recorder
  evaluate_recorder-own entry now fleet none h = elim h [ ]
  evaluate_recorder-own entry now fleet (some r) h =
      rw (put_key-own entry.camera_id _ fleet.recorders) (
        switch-idle (is_active local entry.config now) (is_idle r.state)
          (record r { writer = fleet.writer }) (given fleet.writer r h) refl)

  -- Evaluate leaves the recorders of cameras without an entry alone.
  pub evaluate-other :
      (entries : List ScheduleEntry) (now : Time) (fleet : Fleet) (id : Bytes)
      → Absent id entries
      → (evaluate lib date_text local entries now fleet).recorders id ≡ fleet.recorders id
  unfolding evaluate
  evaluate-other [] now fleet id h = refl
  evaluate-other (e ∷ es) now fleet id h =
      evaluate-other es now _ id h.1
      ∙ evaluate_recorder-other e now fleet (fleet.recorders e.camera_id) id h.0

  still_there :
      (es : List ScheduleEntry) (f g : Fleet) (id : Bytes)
      → ((k : Bytes) → k ≢ id → g.recorders k ≡ f.recorders k)
      → Absent id es
      → AreThere f es
      → AreThere g es
  still_there [] f g id same a t = tt
  still_there (e ∷ es) f g id same a t = (
    subst IsThere (sym (same e.camera_id (λ q. a.0 (sym q)))) t.0,
    still_there es f g id same a.1 t.1,
  )

  -- After Evaluate, of every camera with an entry (one entry each) whose recorder is ready, the
  -- recorder is idle exactly if none of its schedules matches the time, even if the last GOP of a
  -- recorder that is stopped cannot be written.
  pub evaluate-AllFollow :
      (entries : List ScheduleEntry) (now : Time) (fleet : Fleet)
      → AreDistinct entries
      → AreThere fleet entries
      → AllFollow now (evaluate lib date_text local entries now fleet) entries
  unfolding evaluate
  evaluate-AllFollow [] now fleet d t = tt
  evaluate-AllFollow (e ∷ es) now fleet d t =
      let next = evaluate_recorder lib date_text local e now fleet (fleet.recorders e.camera_id) in
      (
        subst (Follows (is_active local e.config now))
            (sym (evaluate-other es now next e.camera_id d.0))
            (evaluate_recorder-own e now fleet (fleet.recorders e.camera_id) t.0),
        evaluate-AllFollow es now next d.1 (
            still_there es fleet next e.camera_id
              (evaluate_recorder-other e now fleet (fleet.recorders e.camera_id)) d.0 t.1),
      )
