-- ===== src/Tests/Retaining.antt =====
-- internal/recorder/retention.go at concrete inputs, with a world that lists what was deleted.
use record_storage.Common.{
  ◌≤◌, ◌≢◌, true, false, none, some, List, [], ◌∷◌, All, arith, Bytes, length,
}
use record_storage.Common.{leb, ◌-◌, ◌*◌, ℕ, if◌then◌else◌}
use record_storage.Clock.{Zone, Location, Time, at_instant, utc, day, second}
use record_storage.Retention.{
  RetentionOps, delete_expired, cleanup_camera, cleanup_camera-ends, delete_expired-keeps,
}
use record_storage.Tests.Data.{meta, at_second}

abbrev ops : RetentionOps (List Bytes)
ops = record {
  query_range = λ start end w. (some (meta ∷ []), w);
  delete_object = λ key w. (true, key ∷ w);
  delete_range = λ start end w. (true, w);
  is_done = λ w. false;
}

abbrev summer : Zone
summer = record { ahead = 3600 * second; behind = 0 }

-- An hour ahead of UTC up to an instant, and level with it from there on.
abbrev local : Location
local instant = if leb (at_second 2000000).instant instant then utc else summer

abbrev days_back : Time → ℕ → Time
days_back t n = at_instant local (t.instant - n * day - 3600 * second)

cleanup_camera-ends_example : cleanup_camera ops local days_back (at_second 3000000) [] ≢ none
cleanup_camera-ends_example =
    cleanup_camera-ends ops local days_back (at_second 3000000) [] (λ t n. omega arith)

abbrev AreShort : List Bytes → Type 0
AreShort = All (λ (key : Bytes). length key ≤ 3)

delete_expired-keeps_example : AreShort (delete_expired ops (at_second 20) (meta ∷ []) [])
delete_expired-keeps_example =
    delete_expired-keeps ops AreShort (at_second 20) (meta ∷ []) []
      ((λ late w p. ((omega arith, p), (omega arith, p))), tt) tt
