-- ===== src/Playback/Request.antt =====
-- What a client asks for in internal/playback/server.go: parsePlaybackRequest, parseRFC3339,
-- headerValue, parseRangeHeader and resolvePlayParameters.
pub mod Text
use record_storage.Common.{
  ℕ, ◌+◌, ◌-◌, ◌==◌, Bool, true, false, not, ◌||◌, Option, none, some, List, [], ◌∷◌, ◌++◌, Bytes,
  codes, bytes_eq, starts_with, length, Result, ok, err, ◌>>=◌, ltb, if◌then◌else◌,
}
use record_storage.Clock.{Time, add, add_neg}
use record_storage.Playback.Request.Text.{
  trim_space, trim_slashes, split_slashes, to_lower, trim_prefix, trim_dash,
}

pub data RequestError : Type 0 where
  invalid_path bad_query empty_time unsupported_time_format bad_duration : RequestError
  unsupported_range_header unsupported_scale : RequestError
  invalid_start invalid_end : RequestError → RequestError

-- A duration in nanoseconds, which may be negative.
pub data Duration : Type 0 where
  forward back : ℕ → Duration

-- net/url and time: ParseQuery followed by Get, time.Parse by layout, time.ParseDuration. `none` is
-- any error.
pub record TextLibrary : Type 0 where
  pub parse_query : Bytes → Option (Bytes → Bytes)
  pub parse_time : Bytes → Bytes → Option Time
  pub parse_duration : Bytes → Option Duration

pub record PlaybackRequest : Type 0 where
  pub camera_id : Bytes
  pub start : Time
  pub end : Option Time

-- A header is a map from names to values; its entries are in the order in which a loop meets them.
abbrev pub Header : Type 0
Header = List (Bytes × List Bytes)

-- strings.EqualFold on ASCII
unfoldable pub equal_fold : Bytes → Bytes → Bool
equal_fold a b = bytes_eq (to_lower a) (to_lower b)

unfoldable pub header_value : Header → Bytes → List Bytes
header_value [] key = []
header_value ((name, values) ∷ header) key =
    let rest = header_value header key in if equal_fold name key then values else rest

unfoldable pub shift : Time → Duration → Time
shift t (forward d) = add t d
shift t (back d) = add_neg t d

abbrev rfc3339_nano : Bytes
rfc3339_nano = codes "2006-01-02T15:04:05.999999999Z07:00"

abbrev rfc3339 : Bytes
rfc3339 = codes "2006-01-02T15:04:05Z07:00"

first_time : Option Time → Result RequestError Time → Result RequestError Time
first_time none other = other
first_time (some t) other = ok t

wrap : {A : Type 0} → (RequestError → RequestError) → Result RequestError A → Result RequestError A
wrap f (ok a) = ok a
wrap f (err e) = err (f e)

or_err : {A : Type 0} → RequestError → Option A → Result RequestError A
or_err e none = err e
or_err e (some a) = ok a

module _ (lib : TextLibrary) where
  unfoldable pub parse_rfc3339 : Bytes → Result RequestError Time
  unfolding first_time
  parse_rfc3339 [] = err empty_time
  parse_rfc3339 (b ∷ bs) =
      first_time (lib.parse_time rfc3339_nano (b ∷ bs))
        (first_time (lib.parse_time rfc3339 (b ∷ bs)) (err unsupported_time_format))

  -- An absent end, or the parsed one.
  unfoldable pub parse_end : Bytes → Result RequestError (Option Time)
  unfolding wrap
  parse_end [] = ok none
  parse_end (b ∷ bs) = wrap invalid_end (parse_rfc3339 (b ∷ bs)) >>= λ t. ok (some t)

  parse_with_query : Bytes → Bytes → Result RequestError PlaybackRequest
  unfolding wrap or_err
  parse_with_query camera_id raw_query = do
    get ← or_err bad_query (lib.parse_query raw_query)
    start ← wrap invalid_start (parse_rfc3339 (get (codes "start")))
    end ← parse_end (get (codes "end"))
    ok (record { camera_id = camera_id; start = start; end = end })

  playback_parts : List Bytes → Bytes → Result RequestError PlaybackRequest
  unfolding parse_with_query
  playback_parts (first ∷ camera_id ∷ parts) raw_query =
      if bytes_eq first (codes "playback")
      then parse_with_query camera_id raw_query
      else err invalid_path
  playback_parts _ raw_query = err invalid_path

  unfoldable pub parse_playback_request : Bytes → Bytes → Result RequestError PlaybackRequest
  unfolding playback_parts
  parse_playback_request path_value raw_query =
      playback_parts (split_slashes (trim_slashes path_value)) raw_query

  unfoldable pub parse_range_header : Bytes → Time → Result RequestError Time
  unfolding or_err
  parse_range_header raw base_start =
      let value = trim_space raw in
      if starts_with (codes "npt=") (to_lower value)
      then (or_err bad_duration (
            lib.parse_duration
              (trim_dash (trim_prefix (to_lower value) (codes "npt=")) ++ codes "s"))
          >>= λ seconds. ok (shift base_start seconds))
      else if starts_with (codes "clock=") (to_lower value)
      then or_err unsupported_time_format (
          lib.parse_time (codes "20060102T150405Z")
            (trim_dash (trim_prefix value (codes "clock="))))
      else err unsupported_range_header
