-- ===== src/Schedule/Match.antt =====
-- scheduleMatches of internal/recorder/scheduler.go and time.Parse for the layout "15:04". A weekday
-- of the configuration is a number; a negative one matches no day, as one above 7 does.
use record_storage.Common.{
  ℕ, ◌+◌, ◌-◌, ◌*◌, Bool, true, false, not, ◌&&◌, ◌||◌, Option, none, some, List, [], ◌∷◌, Bytes,
  ltb, leb, ◌==◌, if◌then◌else◌,
}
use record_storage.Clock.{Location, Time, at_instant, day, weekday, minute_of_day}

-- config.ScheduleConfig
pub record ScheduleConfig : Type 0 where
  pub weekdays : List ℕ
  pub start : Bytes
  pub end : Bytes

abbrev is_digit : ℕ → Bool
is_digit b = leb b'0' b && leb b b'9'

-- The hour has one or two digits, and both the hour and the minute are in range.
unfoldable pub two_digits : ℕ → ℕ → ℕ
two_digits a b = (a - b'0') * 10 + (b - b'0')

-- the minute, which is two digits and ends the text
unfoldable pub minutes_from : ℕ → Bytes → Option ℕ
unfolding two_digits
minutes_from hour (colon ∷ a ∷ b ∷ []) =
    if (colon == b':') && (is_digit a && is_digit b) && (ltb hour 24 && ltb (two_digits a b) 60)
    then some (hour * 60 + two_digits a b)
    else none
minutes_from hour _ = none

-- parseClockMinutes
unfoldable pub parse_clock_minutes : Bytes → Option ℕ
unfolding two_digits
parse_clock_minutes (a ∷ b ∷ rest) =
    if not (is_digit a)
    then none
    else if is_digit b
    then minutes_from (two_digits a b) rest
    else minutes_from (a - b'0') (b ∷ rest)
parse_clock_minutes _ = none

-- isoWeekday
unfoldable pub iso_weekday : ℕ → ℕ
iso_weekday w = if w == 0 then 7 else w

-- containsWeekday; the number 0 stands for Sunday as well
unfoldable pub contains_weekday : List ℕ → ℕ → Bool
contains_weekday [] target = false
contains_weekday (v ∷ vs) target =
    (v == target) || ((v == 0) && (target == 7)) || contains_weekday vs target

-- scheduleMatches once both ends are parsed; `local` is the location of `now`, in which the offset of
-- now.Add(-24 * time.Hour) may be another one.
unfoldable pub within : Location → List ℕ → ℕ → ℕ → Time → Bool
within local weekdays start_minutes end_minutes now =
    let current = minute_of_day now in
    let today = iso_weekday (weekday now) in
    let yesterday = iso_weekday (weekday (at_instant local (now.instant - day))) in
    if leb start_minutes end_minutes
    then contains_weekday weekdays today && leb start_minutes current && ltb current end_minutes
    else if contains_weekday weekdays today && leb start_minutes current
    then true
    else contains_weekday weekdays yesterday && ltb current end_minutes

unfoldable pub match_parsed : Location → List ℕ → Option ℕ → Option ℕ → Time → Bool
match_parsed local weekdays (some s) (some e) now = within local weekdays s e now
match_parsed local weekdays (some s) none now = false
match_parsed local weekdays none q now = false

-- scheduleMatches
unfoldable pub schedule_matches : Location → ScheduleConfig → Time → Bool
schedule_matches local item now =
    match_parsed local item.weekdays (parse_clock_minutes item.start) (parse_clock_minutes item.end)
      now
