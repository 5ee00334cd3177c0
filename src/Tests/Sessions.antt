-- ===== src/Tests/Sessions.antt =====
-- The sessions of internal/playback/server.go at concrete inputs.
use record_storage.Common.{ℕ, ◌≡◌, refl, inl, true, false, none, some, [], ◌∷◌, codes, ok}
use record_storage.Fmp4.Boxes.{write_box}
use record_storage.Playback.Request.{
  parse_playback_request, parse_rfc3339, parse_end, equal_fold, header_value, parse_range_header,
  shift,
}
use record_storage.Playback.Request.Text.{
  split_slashes, trim_slashes, to_lower, trim_dash, trim_prefix, trim_space,
}
use record_storage.Common.{bytes_eq, starts_with}
use record_storage.Playback.Reader.{lookup_initial_init, list_gops, load_init, window_end}
use record_storage.Fmp4.Builder.{parse_init_segment}
use record_storage.Fmp4.Boxes.{parse_boxes, find_box, params_equal, parse_loop}
use record_storage.Common.BigEndian.{get_be, put_be}
use record_storage.Playback.Scale.{parse_scale}
use record_storage.Playback.Sender.{build_description}
use record_storage.Playback.Session.{
  add_pending, cancel_context, new_session_state, resolve_play_parameters, start_playback, state_of,
}
use record_storage.Index.Cursor.{In}
use record_storage.Playback.Scale.{normal}
use record_storage.Playback.Request.{TextLibrary}
use record_storage.Playback.Reader.{Recordings}
use record_storage.Playback.Session.{
  Server, Playback, new_server, on_describe, on_setup, on_play, on_pause, on_session_close,
}
use record_storage.Playback.Session.Live.{reachable-one_playback, reachable-stops}
use record_storage.Playback.Session.Steps.{describe, setup, play, Reachable, started, further}
use record_storage.Tests.Data.{at_second, meta}
use record_storage.Tests.Fragments.{lib}

abbrev text : TextLibrary
text = record {
  parse_query = λ query. some (λ key. key);
  parse_time = λ layout value. some (at_second 5);
  parse_duration = λ value. none;
}

abbrev recordings : Recordings ℕ
recordings = record {
  query_range = λ camera start end. ok (meta ∷ []);
  get = λ key. ok (write_box [] (codes "rinf") (9 ∷ []));
}

described : Server
described = (on_describe text recordings lib 1 (codes "/playback/cam") (codes "q") new_server).1

ready : Server
ready = (on_setup 1 2 described).1

-- Two calls of OnPlay.
playing : Server
playing = (on_play text [] 2 ready).1

replaying : Server
replaying = (on_play text [] 2 playing).1

replaying-Reachable : Reachable text recordings lib replaying
unfolding described ready playing replaying
replaying-Reachable =
    further
      (further
        (further
          (further (started new_server refl)
            (describe 1 (codes "/playback/cam") (codes "q") new_server described refl))
          (setup 1 2 described ready refl))
        (play [] 2 ready playing refl))
      (play [] 2 playing replaying refl)

abbrev second_playback : Playback
second_playback = record { context = 1; state = 0; start = at_second 5; scale = normal }

replaying_lem :
    In second_playback replaying.playbacks
    × (replaying.cancelled 1 ≡ false)
    × (replaying.sessions 2 ≡ some 0)
unfolding replaying on_play playing ready on_setup described on_describe new_server write_box
    parse_playback_request split_slashes trim_slashes bytes_eq parse_rfc3339 parse_end
    lookup_initial_init list_gops parse_init_segment parse_boxes get_be put_be starts_with find_box
    params_equal parse_loop load_init window_end to_lower trim_dash trim_prefix trim_space
    equal_fold header_value parse_range_header shift parse_scale build_description add_pending
    cancel_context new_session_state resolve_play_parameters start_playback state_of
replaying_lem = (inl refl, refl, refl)

reachable-one_playback_example : second_playback.context ≡ second_playback.context
reachable-one_playback_example =
    reachable-one_playback text recordings lib replaying second_playback second_playback
      replaying-Reachable replaying_lem.0 replaying_lem.0 refl replaying_lem.1 replaying_lem.1

reachable-stops_example :
    ((on_pause 2 replaying).1.cancelled 1 ≡ true)
    × ((on_session_close 2 replaying).cancelled 1 ≡ true)
reachable-stops_example =
    reachable-stops text recordings lib replaying 2 0 second_playback replaying-Reachable
      replaying_lem.2 replaying_lem.0 refl
