-- ===== src/Index/Store/Days.antt =====
-- The loop over the days of a query in internal/index/bolt_index.go (queryV2, DeleteRange).
use record_storage.Common.{
  ℕ, zero, suc, ◌+◌, ◌-◌, ◌*◌, ◌/◌, ◌≤◌, ◌<◌, ◌≡◌, refl, ap, subst, ◌⊎◌, inl, inr, List, [], ◌∷◌,
  if◌then◌else◌, arith, Bool-cases,
}
use record_storage.Clock.{Zone, Time, add, after, day, truncate_day, date_of}
use record_storage.Index.Cursor.{In}

-- for d := first; !d.After(last); d = d.Add(24 * time.Hour)
unfoldable pub days_from : ℕ → Time → Time → List Time
days_from zero d last = []
days_from (suc fuel) d last =
    let rest = days_from fuel (add d day) last in if after d last then [] else d ∷ rest

-- The days from startDate to endDate. The fuel is a bound on their number.
unfoldable pub query_days : Time → Time → List Time
unfolding days_from
query_days start end =
    days_from (end.instant / day + 3) (truncate_day start) (add (truncate_day end) day)

-- With this fuel the loop ends by its own test: more fuel changes nothing.
pub days_from-more :
    (f g : ℕ) (d last : Time)
    → last.instant < d.instant + f * day
    → last.instant < d.instant + g * day
    → days_from f d last ≡ days_from g d last
unfolding days_from
days_from-more zero zero d last h k = refl
days_from-more zero (suc g) d last h k = ground arith
days_from-more (suc f) zero d last h k = ground arith
days_from-more (suc f) (suc g) d last h k = elim (Bool-cases (after d last)) [
  | inl t ↦ rw t refl
  | inr t ↦ rw t (ap (◌∷◌ d) (days_from-more f g (add d day) last (omega arith) (omega arith)))
]

add_days : (d : Time) (k : ℕ) → add (add d day) (k * day) ≡ add d (suc k * day)
add_days d k = ap (λ (n : ℕ). record d { instant = n }) (omega arith)

add_none : (d : Time) → add d (0 * day) ≡ d
add_none d = ap (λ (n : ℕ). record d { instant = n }) (omega arith)

pub days_from-In :
    (fuel k : ℕ) (d last : Time)
    → k < fuel
    → d.instant + k * day ≤ last.instant
    → In (add d (k * day)) (days_from fuel d last)
unfolding days_from
days_from-In zero k d last h le = absurd (omega arith)
days_from-In (suc fuel) zero d last h le = elim (Bool-cases (after d last)) [
  | inl t ↦ absurd (ground arith)
  | inr t ↦ rw t (inl (add_none d))
]
days_from-In (suc fuel) (suc k) d last h le = elim (Bool-cases (after d last)) [
  | inl t ↦ absurd (ground arith)
  | inr t ↦ rw t (
      inr (
        subst (λ (x : Time). In x (days_from fuel (add d day) last)) (add_days d k)
          (days_from-In fuel k (add d day) last (omega arith) (omega arith))))
]

-- An offset from UTC is less than a day.
abbrev pub IsOffset : Zone → Type 0
IsOffset z =
    (z.ahead < day) × (z.behind < day) × ((z.behind ≡ 0) ⊎ ((z.ahead ≡ 0) × (0 < z.behind)))

module _ (start end t : Time) (same : t.zone ≡ start.zone) where
  named_by :
      (k : ℕ)
      → date_of (add (truncate_day start) (k * day)) ≡ date_of t
      → k < end.instant / day + 3
      → start.instant / day + k ≤ end.instant / day + 1
      → (d : Time) × In d (query_days start end) × (date_of d ≡ date_of t)
  unfolding query_days
  named_by k e fuel last = (
    add (truncate_day start) (k * day),
    days_from-In (end.instant / day + 3) k (truncate_day start) (add (truncate_day end) day) fuel
        (omega arith),
    e,
  )

  -- Each date of an instant from `start` to `end`, in the zone of `start`, is the date of a day of
  -- the loop.
  pub query_days-In :
      IsOffset start.zone
      → start.instant ≤ t.instant
      → t.instant ≤ end.instant
      → day ≤ start.instant
      → (d : Time) × In d (query_days start end) × (date_of d ≡ date_of t)
  query_days-In offset from to later =
      let ahead : t.zone.ahead ≡ start.zone.ahead = ap (λ (z : Zone). z.ahead) same in
      let behind : t.zone.behind ≡ start.zone.behind = ap (λ (z : Zone). z.behind) same in
      elim offset.2 [
        | inl none_behind ↦
            named_by (date_of t - start.instant / day) (omega arith) (omega arith) (omega arith)
        | inr west ↦
            named_by (date_of t + 1 - start.instant / day) (omega (arith, west.0, west.1))
              (omega (arith, west.0)) (omega (arith, west.0, west.1))
      ]
