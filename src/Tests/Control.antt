-- ===== src/Tests/Control.antt =====
-- internal/recorder/stream_recorder.go and internal/recorder/scheduler.go at concrete inputs.
use record_storage.Common.{List, ℕ, ◌≡◌, ◌≢◌, ◌↔◌, true, some, [], ◌∷◌, arith, Bytes, codes, err}
use record_storage.Writer.{new_writer, block}
use record_storage.Stream.Actions.{Stream, builder_not_initialized}
use record_storage.Stream.Flush.{flush_gop}
use record_storage.Stream.Process.{process_sample, pressed}
use record_storage.Stream.Lifecycle.{new_stream, start, start_from}
use record_storage.Stream.Invariant.{IsReady}
use record_storage.Stream.Calls.{
  Call, loaded, taken, deciding, flushing, to_idle, advance, begin_stop, stop_first,
}
use record_storage.Stream.Sound.{IsSound}
use record_storage.Stream.Reach.{
  Reach, made, started, sample_begun, advanced, stopping_begun, reachable-IsSound, FindsBuilder,
  flush_gop-initialized,
}
use record_storage.Sample.{waiting_key_frame}
use record_storage.Gop.Invariant.{new_assembler-IsValid}
use record_storage.Stream.Actions.{set_state, write_event}
use record_storage.Stream.Process.{begin_recording}
use record_storage.Common.{All}
use record_storage.Clock.{utc}
use record_storage.Common.{refl}
use record_storage.Schedule.Controller.{ScheduleEntry, Fleet, evaluate}
use record_storage.Schedule.Controller.Evaluation.{evaluate-AllFollow, AllFollow}
use record_storage.Schedule.Match.{ScheduleConfig, schedule_matches, parse_clock_minutes}
use record_storage.Schedule.Window.{schedule_matches-Covers, Covers}
use record_storage.Tests.Data.{key_sample, at_second}
use record_storage.Tests.Fragments.{lib}

abbrev date_text : ℕ → Bytes
date_text n = codes "2026-01-01"

abbrev fresh_stream : Stream
fresh_stream = new_stream (codes "cam") (new_writer 2 block)

abbrev waiting : Stream
waiting = (start fresh_stream).1

abbrev recording_stream : Stream
recording_stream = (process_sample lib date_text key_sample waiting).1

fresh_stream-IsReady : IsReady fresh_stream
unfolding new_stream
fresh_stream-IsReady = record {
  valid = new_assembler-IsValid;
  built = λ b. refl;
  quiet = λ q. refl;
}

-- Start, then a key frame up to the state it sets, then Stop up to its flush.
abbrev key_taken : Stream
key_taken = (advance lib date_text (taken true key_sample) waiting).0

abbrev halting : Stream
halting = (begin_stop lib date_text key_taken).0

abbrev under_way : List Call
under_way = flushing to_idle ∷ deciding true key_sample ∷ []

reach_key : Reach lib date_text key_taken (deciding true key_sample ∷ [])
unfolding advance new_stream start start_from set_state write_event pressed begin_recording
reach_key = advanced [] (taken true key_sample) [] waiting (
    advanced [] (loaded waiting_key_frame key_sample) [] waiting (
      sample_begun key_sample waiting []
        (started fresh_stream [] (made (codes "cam") (new_writer 2 block)))))

reach_halting : Reach lib date_text halting under_way
unfolding advance new_stream start start_from set_state write_event begin_stop stop_first
    begin_recording
reach_halting = stopping_begun key_taken (deciding true key_sample ∷ []) reach_key

reachable-IsSound_example : IsSound halting
reachable-IsSound_example = reachable-IsSound lib date_text halting under_way reach_halting

flush_gop-initialized_example :
    ((flush_gop lib date_text halting).0 ≢ err builder_not_initialized)
    × All (FindsBuilder lib date_text halting) under_way
flush_gop-initialized_example = flush_gop-initialized lib date_text halting under_way reach_halting

-- From Monday, Wednesday and Sunday at ten in the evening until six.
abbrev nights : ScheduleConfig
nights = record { weekdays = 1 ∷ 3 ∷ 0 ∷ []; start = codes "22:00"; end = codes "06:00" }

schedule_matches-Covers_example :
    (schedule_matches (λ n. utc) nights (at_second 5000) ≡ true)
    ↔ Covers nights.weekdays
        (parse_clock_minutes nights.start)
        (parse_clock_minutes nights.end)
        (at_second 5000)
schedule_matches-Covers_example =
    schedule_matches-Covers (λ n. utc) nights (at_second 5000) refl (omega arith)

abbrev entries : List ScheduleEntry
entries = record { camera_id = codes "cam"; config = nights ∷ [] } ∷ []

abbrev fleet : Fleet
fleet = record { recorders = λ id. some fresh_stream; writer = new_writer 2 block }

evaluate-AllFollow_example :
    AllFollow lib date_text
      (λ n. utc)
      (at_second 5000)
      (evaluate lib date_text (λ n. utc) entries (at_second 5000) fleet)
      entries
evaluate-AllFollow_example =
    evaluate-AllFollow lib date_text (λ n. utc) entries (at_second 5000) fleet (tt, tt)
      (fresh_stream-IsReady, tt)
