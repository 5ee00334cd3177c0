-- ===== src/Tests/Pulling.antt =====
-- internal/puller/rtsp_puller.go at concrete inputs.
use record_storage.Common.{
  ◌≡◌, ◌↔◌, ◌⊎◌, refl, inl, inr, Bool, true, some, List, [], ◌∷◌, Bytes, arith, if◌then◌else◌,
}
use record_storage.Clock.{second}
use record_storage.Sample.{h264, frame_i, frame_p}
use record_storage.Index.Cursor.{In}
use record_storage.Puller.Packets.{H264Types, delivered, panicked, handle_h264, timestamp_from_pts}
use record_storage.Puller.Params.{last_of, IsKeyUnit, handle_h264-delivers, handle_h264-panics}
use record_storage.Puller.Reconnect.{
  connected, start_failed, play_failed, Puller, new_puller, start_puller, stop_puller, disconnected,
  attempt_reconnect, reconnect_loop, gone, connect_and_play,
}
use record_storage.Puller.Waits.{Connects, reconnect_loop-Connects}
use record_storage.Puller.Clients.{
  starts, stops, disconnects, Reachable, fresh, further, reachable-AllKept,
  reconnect_after_stop_leaks,
}
use record_storage.Tests.Data.{params, at_second}

abbrev types : H264Types
types = record { idr = 5; sps = 7; pps = 8 }

-- A sequence parameter set and an IDR picture.
abbrev units : List Bytes
units = (0x67 ∷ 1 ∷ 2 ∷ []) ∷ (0x65 ∷ 9 ∷ []) ∷ []

handle_h264-delivers_example :
    (is_key : Bool) × (handle_h264 (at_second 1) (at_second 2) types (some 5) (some units) params
      ≡ delivered (record {
        codec = h264;
        timestamp = timestamp_from_pts (at_second 1) (at_second 2) 5;
        units = units;
        is_key = is_key;
        frame_type = if is_key then frame_i else frame_p;
        params = record params {
          sps = last_of 7 units params.sps;
          pps = last_of 8 units params.pps;
        };
      }))
    × ((is_key ≡ true) ↔ ((u : Bytes) × In u units × IsKeyUnit types u))
handle_h264-delivers_example =
    handle_h264-delivers (at_second 1) (at_second 2) types 5 units params (omega arith)
      (omega arith)

handle_h264-panics_example :
    handle_h264 (at_second 1) (at_second 2) types (some 5) (some ((0x65 ∷ []) ∷ [] ∷ [])) params
    ≡ panicked
handle_h264-panics_example =
    handle_h264-panics (at_second 1) (at_second 2) types 5 ((0x65 ∷ []) ∷ [] ∷ []) params
      (inr (inl refl))

reconnect_loop-Connects_example :
    Connects 2
      (reconnect_loop (start_failed ∷ play_failed ∷ connected (at_second 9) ∷ []) second new_puller)
reconnect_loop-Connects_example =
    reconnect_loop-Connects (start_failed ∷ play_failed ∷ []) (at_second 9) [] second new_puller
      (omega arith) (omega arith) (unfold new_puller in refl)

-- Started, disconnected, and then stopped before the first attempt to reconnect.
started : Puller
started = (start_puller (connected (at_second 1)) new_puller).0

lost : Puller
lost = disconnected started

stopped : Puller
stopped = stop_puller lost

stopped-Reachable : Reachable stopped
unfolding started lost stopped new_puller start_puller connect_and_play
stopped-Reachable =
    further
      (further
        (further (fresh new_puller refl)
          (starts (connected (at_second 1)) new_puller started refl refl refl))
        (disconnects started lost refl refl))
      (stops lost stopped refl)

reachable-AllKept_example : In 0 stopped.closed ⊎ (stopped.client ≡ some 0)
unfolding started lost stopped new_puller start_puller connect_and_play stop_puller disconnected
reachable-AllKept_example = reachable-AllKept stopped 0 stopped-Reachable (omega arith)

reconnect_after_stop_leaks_example :
    ((attempt_reconnect second (connected (at_second 5)) stopped).phase ≡ gone)
    × ((attempt_reconnect second (connected (at_second 5)) stopped).client
        ≡ some stopped.next_client)
    × (In stopped.next_client (attempt_reconnect second (connected (at_second 5)) stopped).closed
        → ⊥)
    × (stop_puller (attempt_reconnect second (connected (at_second 5)) stopped)
        ≡ attempt_reconnect second (connected (at_second 5)) stopped)
unfolding started lost stopped new_puller start_puller connect_and_play stop_puller disconnected
reconnect_after_stop_leaks_example =
    reconnect_after_stop_leaks stopped second (at_second 5) stopped-Reachable refl refl
