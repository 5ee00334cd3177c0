-- ===== src/Config/Valid.antt =====
-- What a configuration that passes Validate of internal/config/config.go meets.
use record_storage.Common.{
  ℕ, ◌<◌, ◌≤◌, ◌≡◌, ◌≢◌, refl, sym, Bool, true, false, Option, none, some, List, All, [], ◌∷◌,
  Bytes, bytes_eq_iff, length, Result, ok, err, ◌>>◌, arith,
}
use record_storage.Schedule.Match.{ScheduleConfig, parse_clock_minutes}
use record_storage.Config.{Config, CameraConfig}
use record_storage.Config.Integer.{ℤ, pos, negsuc, is_positive}
use record_storage.Config.Validate.{
  ConfigError, Url, check, parsed, validate_port, seen_before, validate_schedule, validate_rtsp_url,
  validate_cameras, validate_storage, validate_recorder, validate,
}

-- A check that is followed by others.
check-then :
    (b : Bool) (e : ConfigError) (rest : Result ConfigError (Unit {0}))
    → check b e >> rest ≡ ok tt
    → (b ≡ true) × (rest ≡ ok tt)
unfolding check
check-then true e rest h = (refl, h)
check-then false e rest h = cc

both :
    (first rest : Result ConfigError (Unit {0}))
    → first >> rest ≡ ok tt
    → (first ≡ ok tt) × (rest ≡ ok tt)
both (ok tt) rest h = (refl, h)
both (err e) rest h = cc

check-true : (b : Bool) (e : ConfigError) → check b e ≡ ok tt → b ≡ true
unfolding check
check-true true e h = refl
check-true false e h = cc

abbrev pub IsPort : ℤ → Type 0
IsPort n = (k : ℕ) × (n ≡ pos k) × (0 < k) × (k ≤ 65535)

abbrev pub IsPositive : ℤ → Type 0
IsPositive n = (k : ℕ) × (n ≡ pos k) × (0 < k)

-- Both ends of a window are clock times.
abbrev pub IsWindow : ScheduleConfig → Type 0
IsWindow s =
    (m : ℕ) × (n : ℕ) × (parse_clock_minutes s.start ≡ some m)
    × (parse_clock_minutes s.end ≡ some n)

abbrev pub NotAmong : Bytes → List CameraConfig → Type 0
NotAmong id [] = Unit {0}
NotAmong id (c ∷ cs) = (id ≢ c.id) × NotAmong id cs

abbrev pub HaveDistinctIds : List CameraConfig → Type 0
HaveDistinctIds [] = Unit {0}
HaveDistinctIds (c ∷ cs) = NotAmong c.id cs × HaveDistinctIds cs

pub record IsValid (c : Config) : Type 0 where
  pub playback_port : IsPort c.server.rtsp_playback_port
  pub api_port : IsPort c.server.api_port
  pub metrics_port : IsPort c.server.metrics_port
  pub workers : IsPositive c.recorder.async_writer_workers
  pub queue : IsPositive c.recorder.async_writer_queue_size
  pub some_camera : 0 < length c.cameras
  pub distinct : HaveDistinctIds c.cameras
  pub schedules : All (λ (camera : CameraConfig). All IsWindow camera.schedule) c.cameras

validate_port-IsPort : (n : ℤ) → validate_port n ≡ ok tt → IsPort n
unfolding validate_port
validate_port-IsPort (pos k) h =
    let e = check-true _ _ h in (k, refl, ground (arith, e), ground (arith, e))
validate_port-IsPort (negsuc k) h = absurd (ground (arith, check-true _ _ h))

positive : (n : ℤ) → is_positive n ≡ true → IsPositive n
positive (pos k) h = (k, refl, ground (arith, h))
positive (negsuc k) h = absurd (ground (arith, h))

parsed-some : {A : Type 0} (o : Option A) → parsed o ≡ true → (a : A) × (o ≡ some a)
parsed-some none h = absurd (ground (arith, h))
parsed-some (some a) h = (a, refl)

validate_schedule-IsWindow :
    (ss : List ScheduleConfig) → validate_schedule ss ≡ ok tt → All IsWindow ss
unfolding validate_schedule
validate_schedule-IsWindow [] h = tt
validate_schedule-IsWindow (s ∷ ss) h =
    let (starts, rest) = check-then _ _ _ h in
    let (ends, rest2) = check-then _ _ _ rest in
    let (m, em) = parsed-some (parse_clock_minutes s.start) starts in
    let (n, en) = parsed-some (parse_clock_minutes s.end) ends in
    ((m, n, em, en), validate_schedule-IsWindow ss rest2)

not_seen :
    (id : Bytes) (x : Bytes) (xs : List Bytes)
    → seen_before id (x ∷ xs) ≡ false
    → (id ≢ x) × (seen_before id xs ≡ false)
unfolding seen_before
not_seen id x xs h = (λ e. absurd (ground (arith, h, (bytes_eq_iff id x).1 e)), ground (arith, h))

-- What the loop over the cameras has checked of those that follow an id.
checked-NotAmong :
    (parse_url : Bytes → Option Url) (id : Bytes) (seen : List Bytes) (cs : List CameraConfig)
    → validate_cameras parse_url seen cs ≡ ok tt
    → ((x : Bytes) → seen_before x seen ≡ false → id ≢ x)
    → NotAmong id cs
unfolding validate_cameras
checked-NotAmong parse_url id seen [] h in_seen = tt
checked-NotAmong parse_url id seen (c ∷ cs) h in_seen =
    let (named, h1) = check-then _ _ _ h in
    let (fresh, h2) = check-then _ _ _ h1 in
    let (url, h3) = both (validate_rtsp_url parse_url c.rtsp_url) _ h2 in
    let (transport, h4) = check-then _ _ _ h3 in
    let (schedule, h5) = both (validate_schedule c.schedule) _ h4 in
    (
      in_seen c.id (ground (arith, fresh)),
      checked-NotAmong parse_url id (c.id ∷ seen) cs h5
          (λ x later. in_seen x (not_seen x c.id seen later).1),
    )

validate_cameras-valid :
    (parse_url : Bytes → Option Url) (seen : List Bytes) (cs : List CameraConfig)
    → validate_cameras parse_url seen cs ≡ ok tt
    → HaveDistinctIds cs × All (λ (camera : CameraConfig). All IsWindow camera.schedule) cs
unfolding validate_cameras
validate_cameras-valid parse_url seen [] h = (tt, tt)
validate_cameras-valid parse_url seen (c ∷ cs) h =
    let (named, h1) = check-then _ _ _ h in
    let (fresh, h2) = check-then _ _ _ h1 in
    let (url, h3) = both (validate_rtsp_url parse_url c.rtsp_url) _ h2 in
    let (transport, h4) = check-then _ _ _ h3 in
    let (schedule, h5) = both (validate_schedule c.schedule) _ h4 in
    let (distinct, windows) = validate_cameras-valid parse_url (c.id ∷ seen) cs h5 in
    (
      (
        checked-NotAmong parse_url c.id (c.id ∷ seen) cs h5
            (λ x later e. (not_seen x c.id seen later).0 (sym e)),
        distinct,
      ),
      (validate_schedule-IsWindow c.schedule schedule, windows),
    )

-- In a configuration that passes Validate the three ports are from 1 to 65535, there are workers, a
-- queue and a camera, no two cameras have one id, and every schedule's start and end are clock times.
pub validate-IsValid :
    (parse_url : Bytes → Option Url) (c : Config) → validate parse_url c ≡ ok tt → IsValid c
unfolding validate validate_recorder
validate-IsValid parse_url c h =
    let (playback, h1) = both (validate_port c.server.rtsp_playback_port) _ h in
    let (api, h2) = both (validate_port c.server.api_port) _ h1 in
    let (metrics, h3) = both (validate_port c.server.metrics_port) _ h2 in
    let (storage, h4) = both (validate_storage parse_url c.storage) _ h3 in
    let (path, h5) = check-then _ _ _ h4 in
    let (recorder, h6) = both (validate_recorder parse_url c.recorder) _ h5 in
    let (cameras, h7) = check-then _ _ _ h6 in
    let (workers, r1) = check-then _ _ _ recorder in
    let (queue, r2) = check-then _ _ _ r1 in
    let (distinct, windows) = validate_cameras-valid parse_url [] c.cameras h7 in
    record {
      playback_port = validate_port-IsPort _ playback;
      api_port = validate_port-IsPort _ api;
      metrics_port = validate_port-IsPort _ metrics;
      workers = positive _ workers;
      queue = positive _ queue;
      some_camera = ground (arith, cameras);
      distinct = distinct;
      schedules = windows;
    }
