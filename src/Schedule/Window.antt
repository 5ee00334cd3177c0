-- ===== src/Schedule/Window.antt =====
-- The windows of time that a schedule of internal/recorder/scheduler.go covers.
use record_storage.Common.{
  ℕ, suc, ◌+◌, ◌-◌, ◌*◌, ◌/◌, ◌%◌, ◌≤◌, ◌<◌, ◌≡◌, ◌↔◌, ◌⊎◌, inl, inr, refl, ap, sym, ◌∙◌, Bool,
  true, ◌&&◌, Option, none, some, List, [], ◌∷◌, Bytes, ltb, leb, if◌then◌else◌, arith,
}
use record_storage.Clock.{
  Zone, Location, Time, at_instant, add_neg, day, minute_of_day, date_of, wall, minute,
}
use mathlib.Core.Path.{subst, subst₂}
use record_storage.Schedule.Match.{
  ScheduleConfig, parse_clock_minutes, iso_weekday, contains_weekday, within, schedule_matches,
  match_parsed, minutes_from, two_digits,
}

-- The minutes a window lasts; one that ends before it starts goes on past midnight.
abbrev pub span : ℕ → ℕ → ℕ
span s e = if leb s e then e - s else e + 1440 - s

-- The number of whole minutes on the wall clock since midnight of day 0.
abbrev pub wall_minute : Time → ℕ
wall_minute t = wall t / minute

abbrev pub iso_day : ℕ → ℕ
iso_day d = iso_weekday ((d + 1) % 7)

-- `now` is in the window that begins on a listed day at minute `s`.
abbrev pub Covered : List ℕ → ℕ → ℕ → Time → Type 0
Covered weekdays s e now =
    (d : ℕ) × (contains_weekday weekdays (iso_day d) ≡ true)
    × (d * 1440 + s ≤ wall_minute now)
    × (wall_minute now < d * 1440 + s + span s e)

wall_minute-split : (t : Time) → wall_minute t ≡ date_of t * 1440 + minute_of_day t
wall_minute-split t = omega arith

minute_of_day-lt : (t : Time) → minute_of_day t < 1440
minute_of_day-lt t = omega arith

yesterday-date :
    (t : Time) → day + t.zone.behind ≤ t.instant → date_of (add_neg t day) + 1 ≡ date_of t
yesterday-date t h = omega arith

-- `within` with the answers for today and for yesterday, at minute `m` of today.
open_now : Bool → Bool → ℕ → ℕ → ℕ → Bool
open_now t y s e m =
    if leb s e then t && leb s m && ltb m e else if t && leb s m then true else y && ltb m e

open_now-cases :
    (t y : Bool) (s e m : ℕ)
    → m < 1440
    → s < 1440
    → open_now t y s e m ≡ true
    → ((t ≡ true) × (s ≤ m) × (m < s + span s e)) ⊎ ((y ≡ true) × (m + 1440 < s + span s e))
unfolding open_now
open_now-cases t y s e m hm hs h = ground arith

open_today :
    (t y : Bool) (s e m : ℕ) → t ≡ true → s ≤ m → m < s + span s e → open_now t y s e m ≡ true
unfolding open_now
open_today t y s e m ht l u = ground arith

open_since_yesterday :
    (t y : Bool) (s e m : ℕ)
    → y ≡ true
    → s < 1440
    → e < 1440
    → m + 1440 < s + span s e
    → open_now t y s e m ≡ true
unfolding open_now
open_since_yesterday t y s e m hy hs he u = ground arith

abbrev Opens : List ℕ → ℕ → ℕ → ℕ → Type 0
Opens weekdays s e now =
    (k : ℕ) × (contains_weekday weekdays (iso_day k) ≡ true)
    × (k * 1440 + s ≤ now)
    × (now < k * 1440 + s + span s e)

span-le : (s e : ℕ) → s < 1440 → e < 1440 → span s e ≤ 1440
span-le s e hs he = ground arith

window_day :
    (s n d m k : ℕ)
    → n ≤ 1440
    → m < 1440
    → k * 1440 + s ≤ suc d * 1440 + m
    → suc d * 1440 + m < k * 1440 + s + n
    → s < 1440
    → (k ≡ suc d) ⊎ (k ≡ d)
window_day s n d m k hn hm l u hs = ground arith

module _ (weekdays : List ℕ) (s e d m : ℕ) (hs : s < 1440) (he : e < 1440) (hm : m < 1440) where
  abbrev on : ℕ → Bool
  on k = contains_weekday weekdays (iso_day k)

  opens :
      ((on (suc d) ≡ true) × (s ≤ m) × (m < s + span s e))
        ⊎ ((on d ≡ true) × (m + 1440 < s + span s e))
      → Opens weekdays s e (suc d * 1440 + m)
  opens (inl (t, l, u)) = (suc d, t, omega arith, omega arith)
  opens (inr (y, u)) = (d, y, omega arith, omega arith)

  is_open :
      (k : ℕ)
      → on k ≡ true
      → k * 1440 + s ≤ suc d * 1440 + m
      → suc d * 1440 + m < k * 1440 + s + span s e
      → (k ≡ suc d) ⊎ (k ≡ d)
      → open_now (on (suc d)) (on d) s e m ≡ true
  is_open k c l u (inl q) =
      open_today (on (suc d)) (on d) s e m (sym (ap on q) ∙ c) (omega arith) (omega arith)
  is_open k c l u (inr q) =
      open_since_yesterday (on (suc d)) (on d) s e m (sym (ap on q) ∙ c) hs he (omega arith)

  open_now_iff : (open_now (on (suc d)) (on d) s e m ≡ true) ↔ Opens weekdays s e (suc d * 1440 + m)
  open_now_iff = (
    λ h. opens (open_now-cases (on (suc d)) (on d) s e m hm hs h),
    λ (k, c, l, u). is_open k c l u (window_day s (span s e) d m k (span-le s e hs he) hm l u hs),
  )

within-open_now :
    (local : Location) (weekdays : List ℕ) (s e : ℕ) (now : Time) (d : ℕ)
    → date_of now ≡ suc d
    → date_of (at_instant local (now.instant - day)) ≡ d
    → within local weekdays s e now
      ≡ open_now
          (contains_weekday weekdays (iso_day (suc d)))
          (contains_weekday weekdays (iso_day d))
          s
          e
          (minute_of_day now)
unfolding within open_now
within-open_now local weekdays s e now d today yesterday = rw (today, yesterday)

iff-rewrite :
    {b c : Bool} {x y : ℕ} (P : ℕ → Type 0) → b ≡ c → x ≡ y → (c ≡ true) ↔ P y → (b ≡ true) ↔ P x
iff-rewrite P p q (f, g) = (λ h. subst P (sym q) (f (sym p ∙ h)), λ o. p ∙ g (subst P q o))

within-Covered :
    (local : Location) (weekdays : List ℕ) (s e : ℕ) (now : Time)
    → s < 1440
    → e < 1440
    → local (now.instant - day) ≡ now.zone
    → day + now.zone.behind ≤ now.instant
    → (within local weekdays s e now ≡ true) ↔ Covered weekdays s e now
within-Covered local weekdays s e now hs he same h =
    let d = date_of (add_neg now day) in
    let today : date_of now ≡ suc d = omega (arith, yesterday-date now h) in
    iff-rewrite (Opens weekdays s e)
      (within-open_now local weekdays s e now d today
        (ap (λ (z : Zone). date_of (record { instant = now.instant - day; zone = z })) same))
      (wall_minute-split now ∙ ap (λ k. k * 1440 + minute_of_day now) today)
      (open_now_iff weekdays s e d (minute_of_day now) hs he (minute_of_day-lt now))

minutes_from-lt : (hour : ℕ) (v : Bytes) (n : ℕ) → minutes_from hour v ≡ some n → n < 1440
unfolding minutes_from
minutes_from-lt hour [] n h = ground arith
minutes_from-lt hour (a ∷ []) n h = ground arith
minutes_from-lt hour (a ∷ b ∷ []) n h = ground arith
minutes_from-lt hour (a ∷ b ∷ c ∷ []) n h = ground arith
minutes_from-lt hour (a ∷ b ∷ c ∷ d ∷ v) n h = ground arith

parse_clock_minutes-lt : (v : Bytes) (n : ℕ) → parse_clock_minutes v ≡ some n → n < 1440
unfolding parse_clock_minutes
parse_clock_minutes-lt [] n h = ground arith
parse_clock_minutes-lt (a ∷ []) n h = ground arith
parse_clock_minutes-lt (a ∷ b ∷ rest) n h = grind (arith, minutes_from-lt)

-- The windows that a schedule covers, if both of its ends are times of day.
abbrev pub Covers : List ℕ → Option ℕ → Option ℕ → Time → Type 0
Covers weekdays p q now = (s : ℕ) × (e : ℕ) × (p ≡ some s) × (q ≡ some e) × Covered weekdays s e now

abbrev number : Option ℕ → ℕ
number none = 0
number (some n) = n

match_parsed-Covers :
    (local : Location) (weekdays : List ℕ) (p q : Option ℕ) (now : Time)
    → ((s : ℕ) → p ≡ some s → s < 1440)
    → ((e : ℕ) → q ≡ some e → e < 1440)
    → local (now.instant - day) ≡ now.zone
    → day + now.zone.behind ≤ now.instant
    → (match_parsed local weekdays p q now ≡ true) ↔ Covers weekdays p q now
unfolding match_parsed
match_parsed-Covers local weekdays none q now hp hq same h =
    (λ f. ground arith, λ (s, e, ps, pe, c). ground arith)
match_parsed-Covers local weekdays (some s) none now hp hq same h =
    (λ f. ground arith, λ (s', e, ps, pe, c). ground arith)
match_parsed-Covers local weekdays (some s) (some e) now hp hq same h =
    let w = within-Covered local weekdays s e now (hp s refl) (hq e refl) same h in
    (
      λ f. (s, e, refl, refl, w.0 f),
      λ (s', e', ps, pe, c).
          w.1
            (subst₂ (λ a b. Covered weekdays a b now) (sym (ap number ps)) (sym (ap number pe)) c),
    )

-- Where the location had the same offset from UTC twenty-four hours ago as now: a schedule matches
-- the present exactly when both of its ends are times of day and the present is in a window that
-- begins on one of its weekdays (0 and 7 are Sunday) at its start, and lasts until its end, past
-- midnight if the end is the earlier one; the clock must show a time after 2 January of year 1.
pub schedule_matches-Covers :
    (local : Location) (item : ScheduleConfig) (now : Time)
    → local (now.instant - day) ≡ now.zone
    → day + now.zone.behind ≤ now.instant
    → (schedule_matches local item now ≡ true)
      ↔ Covers item.weekdays (parse_clock_minutes item.start) (parse_clock_minutes item.end) now
unfolding schedule_matches
schedule_matches-Covers local item now same h =
    match_parsed-Covers local item.weekdays (parse_clock_minutes item.start)
      (parse_clock_minutes item.end) now (parse_clock_minutes-lt item.start)
      (parse_clock_minutes-lt item.end) same h

-- "15:04"
abbrev pub clock_text : ℕ → ℕ → Bytes
clock_text hour minutes =
    (b'0' + hour / 10)
    ∷ (b'0' + hour % 10)
    ∷ b':'
    ∷ (b'0' + minutes / 10)
    ∷ (b'0' + minutes % 10)
    ∷ []

-- A time of day written as HH:MM is read as its number of minutes since midnight.
pub parse_clock_minutes-clock_text :
    (hour minutes : ℕ)
    → hour < 24
    → minutes < 60
    → parse_clock_minutes (clock_text hour minutes) ≡ some (hour * 60 + minutes)
unfolding parse_clock_minutes minutes_from two_digits
parse_clock_minutes-clock_text hour minutes hh hm = ground arith
