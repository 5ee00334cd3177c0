-- ===== src/Schedule/Controller.antt =====
-- ScheduleController of internal/recorder/scheduler.go. The recorders share one writer, which each
-- call is given and gives back; a recorder is named by its camera's id, the key of the map that
-- NewScheduleController is given.
pub mod Evaluation
use record_storage.Common.{
  ℕ, Bool, true, false, not, ◌||◌, Option, none, some, List, [], ◌∷◌, Bytes, length, ◌==◌,
  if◌then◌else◌,
}
use record_storage.Clock.{Location, Time}
use record_storage.Sample.{RecorderState, idle}
use record_storage.Fmp4.Builder.{MediaLibrary}
use record_storage.Writer.{Writer}
use record_storage.Storage.Hybrid.Caches.{put_key}
use record_storage.Stream.Actions.{Stream}
use record_storage.Stream.Lifecycle.{start, stop}
use record_storage.Schedule.Match.{ScheduleConfig, schedule_matches}

pub record ScheduleEntry : Type 0 where
  pub camera_id : Bytes
  pub config : List ScheduleConfig

pub record Fleet : Type 0 where
  pub recorders : Bytes → Option Stream
  pub writer : Writer

pub record ScheduleController : Type 0 where
  pub entries : List ScheduleEntry
  pub stopped : Bool
  pub started : Bool

abbrev with_entry : Option Stream → ScheduleEntry → List ScheduleEntry → List ScheduleEntry
with_entry none entry rest = rest
with_entry (some r) entry rest = entry ∷ rest

-- The loop of NewScheduleController over the cameras' ids and schedules.
unfoldable pub entries_for : List ScheduleEntry → (Bytes → Option Stream) → List ScheduleEntry
entries_for [] recorders = []
entries_for (camera ∷ cameras) recorders =
    let rest = entries_for cameras recorders in
    if length camera.config == 0 then rest else with_entry (recorders camera.camera_id) camera rest

-- NewScheduleController
unfoldable pub new_schedule_controller :
    List ScheduleEntry → (Bytes → Option Stream) → ScheduleController
new_schedule_controller cameras recorders = record {
  entries = entries_for cameras recorders;
  stopped = false;
  started = false;
}

unfoldable pub is_active : Location → List ScheduleConfig → Time → Bool
is_active local [] now = false
is_active local (item ∷ items) now = schedule_matches local item now || is_active local items now

abbrev pub is_idle : RecorderState → Bool
is_idle idle = true
is_idle _ = false

module _ (lib : MediaLibrary) (date_text : ℕ → Bytes) where
  -- What Evaluate does to one recorder: by whether the schedule is active, and the recorder idle.
  unfoldable pub switch : Bool → Bool → Stream → Stream
  switch true true s = (start s).1
  switch false false s = (stop lib date_text s).1
  switch _ _ s = s

module _ (lib : MediaLibrary) (date_text : ℕ → Bytes) (local : Location) where
  unfoldable pub evaluate_recorder : ScheduleEntry → Time → Fleet → Option Stream → Fleet
  evaluate_recorder entry now fleet none = fleet
  evaluate_recorder entry now fleet (some r) =
      let s =
        switch lib date_text (is_active local entry.config now) (is_idle r.state)
          (record r { writer = fleet.writer }) in
      record { recorders = put_key entry.camera_id s fleet.recorders; writer = s.writer }

  -- Evaluate
  unfoldable pub evaluate : List ScheduleEntry → Time → Fleet → Fleet
  evaluate [] now fleet = fleet
  evaluate (entry ∷ entries) now fleet =
      evaluate entries now (evaluate_recorder entry now fleet (fleet.recorders entry.camera_id))

  -- Start up to its goroutine, which evaluates again on every tick until Stop; the flag says whether
  -- there is one.
  unfoldable pub start_controller :
      Time → ScheduleController → Fleet → ScheduleController × Fleet × Bool
  start_controller now s fleet =
      let s' = record s { started = true } in
      if s.started || (length s.entries == 0)
      then (s', fleet, false)
      else (s', evaluate s.entries now fleet, true)

  -- Stop, which closes the channel the first time
  unfoldable pub stop_controller : ScheduleController → ScheduleController
  stop_controller s = if s.stopped then s else record s { stopped = true }
