-- ===== src/Clock.antt =====
-- Go's time.Time and time.Duration, as far as the program uses them. An instant is the number of
-- nanoseconds since the zero Time (1 January of year 1, UTC), which is also what `Truncate` counts
-- from; a time carries the offset from UTC that its location has at the instant. `add` keeps that
-- offset; where the code can cross a change of the offset, it is given the location. `Sub` saturates after 292 years, which is not
-- modelled: comparisons of a difference with a duration are written as sums.
use record_storage.Common.{ℕ, ◌+◌, ◌-◌, ◌*◌, ◌/◌, ◌%◌, Bool, ltb, leb, ◌==◌}
use record_storage.Common.Words.{u64_mod}

pub record Zone : Type 0 where
  pub ahead : ℕ
  pub behind : ℕ

abbrev pub utc : Zone
utc = record { ahead = 0; behind = 0 }

pub record Time : Type 0 where
  pub instant : ℕ
  pub zone : Zone

-- A location: the offset from UTC at each instant.
abbrev pub Location : Type 0
Location = ℕ → Zone

abbrev pub at_instant : Location → ℕ → Time
at_instant local instant = record { instant = instant; zone = local instant }

abbrev pub zero_time : Time
zero_time = record { instant = 0; zone = utc }

-- time.Millisecond, time.Second, time.Minute and 24 * time.Hour in nanoseconds
abbrev pub millisecond : ℕ
millisecond = 1000000

abbrev pub second : ℕ
second = 1000000000

abbrev pub minute : ℕ
minute = 60000000000

abbrev pub day : ℕ
day = 86400000000000

-- the Unix epoch, in nanoseconds since the zero Time
abbrev pub epoch : ℕ
epoch = 62135596800000000000

abbrev pub is_zero : Time → Bool
is_zero t = t.instant == 0

abbrev pub before : Time → Time → Bool
before t u = ltb t.instant u.instant

abbrev pub after : Time → Time → Bool
after t u = ltb u.instant t.instant

abbrev pub add : Time → ℕ → Time
add t d = record t { instant = t.instant + d }

-- t.Add(-d)
abbrev pub add_neg : Time → ℕ → Time
add_neg t d = record t { instant = t.instant - d }

-- t.Sub(u) < d, t.Sub(u) <= d and t.Sub(u) > d, for d >= 0
abbrev pub sub_ltb : Time → Time → ℕ → Bool
sub_ltb t u d = ltb t.instant (u.instant + d)

abbrev pub sub_leb : Time → Time → ℕ → Bool
sub_leb t u d = leb t.instant (u.instant + d)

abbrev pub sub_gtb : Time → Time → ℕ → Bool
sub_gtb t u d = ltb (u.instant + d) t.instant

-- t.Truncate(24 * time.Hour)
abbrev pub truncate_day : Time → Time
truncate_day t = record t { instant = t.instant - t.instant % day }

-- t.UnixNano(), the bit pattern of an int64
abbrev pub unix_nano : Time → ℕ
unix_nano t = (t.instant + 4 * u64_mod - epoch) % u64_mod

-- What the wall clock at the location of `t` shows, as nanoseconds since midnight of day 0.
abbrev pub wall : Time → ℕ
wall t = t.instant + t.zone.ahead - t.zone.behind

-- The day that t.Format("2006-01-02") names, by its number: day 0 is 1 January of year 1.
abbrev pub date_of : Time → ℕ
date_of t = wall t / day

-- t.Hour() * 60 + t.Minute()
abbrev pub minute_of_day : Time → ℕ
minute_of_day t = wall t % day / minute

-- t.Weekday(): 0 is Sunday. Day 0 is a Monday.
abbrev pub weekday : Time → ℕ
weekday t = (date_of t + 1) % 7
