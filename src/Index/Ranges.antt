-- ===== src/Index/Ranges.antt =====
-- GetRecordingRanges of internal/index/bolt_index.go.
use record_storage.Common.{
  ℕ, ◌+◌, ◌-◌, ◌*◌, ◌%◌, ◌≤◌, ◌≡◌, ◌⊎◌, inl, inr, refl, Bool, true, false, List, [], ◌∷◌, Result,
  ok, ◌>>=◌, All, arith, if◌then◌else◌,
}
use record_storage.Clock.{Time, add, sub_ltb, wall, day, second}
use record_storage.Index.{GopMeta, TimeRange}

-- The loop over the GOPs, with the range at hand.
unfoldable pub merge_ranges : TimeRange → List GopMeta → List TimeRange
merge_ranges current [] = current ∷ []
merge_ranges current (g ∷ gs) =
    if sub_ltb g.start_time current.end (5 * second)
    then merge_ranges (record current { end = g.end_time }) gs
    else current ∷ merge_ranges (record { start = g.start_time; end = g.end_time }) gs

unfoldable pub ranges_of : List GopMeta → List TimeRange
ranges_of [] = []
ranges_of (g ∷ gs) = merge_ranges (record { start = g.start_time; end = g.end_time }) gs

-- time.Date with the date of `date` and no time of day
unfoldable pub midnight : Time → Time
midnight date = record date { instant = date.instant - wall date % day }

-- GetRecordingRanges, where `query` is QueryRange for the camera
unfoldable pub get_recording_ranges :
    {E : Type 0} → (Time → Time → Result E (List GopMeta)) → Time → Result E (List TimeRange)
get_recording_ranges query date = do
  gops ← query (midnight date) (add (midnight date) day)
  ok (ranges_of gops)

-- Neighbouring ranges are at least five seconds apart.
abbrev pub AreApart : List TimeRange → Type 0
AreApart [] = Unit {0}
AreApart (r ∷ []) = Unit {0}
AreApart (r ∷ r' ∷ rs) = (r.end.instant + 5 * second ≤ r'.start.instant) × AreApart (r' ∷ rs)

-- Some range goes from `s` or before to `e` or after.
abbrev pub Spans : ℕ → ℕ → List TimeRange → Type 0
Spans s e [] = ⊥
Spans s e (r ∷ rs) = ((r.start.instant ≤ s) × (e ≤ r.end.instant)) ⊎ Spans s e rs

-- Start and end times do not decrease, from `s` and `e` on.
abbrev pub AreOrdered : ℕ → ℕ → List GopMeta → Type 0
AreOrdered s e [] = Unit {0}
AreOrdered s e (g ∷ gs) =
    (s ≤ g.start_time.instant)
    × (e ≤ g.end_time.instant)
    × AreOrdered g.start_time.instant g.end_time.instant gs

lower : (s s' e : ℕ) (gs : List GopMeta) → s' ≤ s → AreOrdered s e gs → AreOrdered s' e gs
lower s s' e [] h o = tt
lower s s' e (g ∷ gs) h o = (omega (arith, o.0), o.1, o.2)

begin : GopMeta → TimeRange
begin g = record { start = g.start_time; end = g.end_time }

not_joined :
    (g : GopMeta) (r : TimeRange)
    → sub_ltb g.start_time r.end (5 * second) ≡ false
    → r.end.instant + 5 * second ≤ g.start_time.instant
not_joined g r h = ground arith

module _ (P : List TimeRange → Type 0) (x y : List TimeRange) where
  either : (b : Bool) → (b ≡ true → P x) → (b ≡ false → P y) → P (if b then x else y)
  either true h k = h refl
  either false h k = k refl

merge_after :
    (r current : TimeRange) (gs : List GopMeta)
    → r.end.instant + 5 * second ≤ current.start.instant
    → AreApart (r ∷ merge_ranges current gs)
unfolding merge_ranges begin
merge_after r current [] h = (h, tt)
merge_after r current (g ∷ gs) h =
    either (λ rs. AreApart (r ∷ rs)) _ _ (sub_ltb g.start_time current.end (5 * second))
      (λ b. merge_after r (record current { end = g.end_time }) gs h)
      (λ b. (h, merge_after current (begin g) gs (not_joined g current b)))

merge-AreApart : (current : TimeRange) (gs : List GopMeta) → AreApart (merge_ranges current gs)
unfolding merge_ranges begin
merge-AreApart current [] = tt
merge-AreApart current (g ∷ gs) =
    either AreApart _ _ (sub_ltb g.start_time current.end (5 * second))
      (λ b. merge-AreApart (record current { end = g.end_time }) gs)
      (λ b. merge_after current (begin g) gs (not_joined g current b))

merge-Spans :
    (s e : ℕ) (current : TimeRange) (gs : List GopMeta)
    → current.start.instant ≤ s
    → e ≤ current.end.instant
    → AreOrdered current.start.instant current.end.instant gs
    → Spans s e (merge_ranges current gs)
unfolding merge_ranges
merge-Spans s e current [] hs he o = inl (hs, he)
merge-Spans s e current (g ∷ gs) hs he o =
    either (Spans s e) _ _ (sub_ltb g.start_time current.end (5 * second))
      (λ b.
        merge-Spans s e (record current { end = g.end_time }) gs hs (omega (arith, o.1))
          (lower _ _ _ gs o.0 o.2))
      (λ b. inl (hs, he))

AllSpan : List TimeRange → List GopMeta → Type 0
AllSpan rs = All (λ (g : GopMeta). Spans g.start_time.instant g.end_time.instant rs)

AllSpan-cons :
    (r : TimeRange) (rs : List TimeRange) (gs : List GopMeta) → AllSpan rs gs → AllSpan (r ∷ rs) gs
unfolding AllSpan
AllSpan-cons r rs [] h = tt
AllSpan-cons r rs (g ∷ gs) h = (inr h.0, AllSpan-cons r rs gs h.1)

merge-AllSpan :
    (current : TimeRange) (gs : List GopMeta)
    → AreOrdered current.start.instant current.end.instant gs
    → AllSpan (merge_ranges current gs) gs
unfolding merge_ranges begin AllSpan
merge-AllSpan current [] o = tt
merge-AllSpan current (g ∷ gs) o =
    either (λ rs. AllSpan rs (g ∷ gs)) _ _ (sub_ltb g.start_time current.end (5 * second))
      (λ b.
        let o' = lower _ _ _ gs o.0 o.2 in
        let current' = record current { end = g.end_time } in
        (merge-Spans _ _ current' gs o.0 (omega arith) o', merge-AllSpan current' gs o'))
      (λ b. (
        inr (merge-Spans _ _ (begin g) gs (omega arith) (omega arith) o.2),
        AllSpan-cons current _ gs (merge-AllSpan (begin g) gs o.2),
      ))

-- For GOPs whose start and end times do not decrease: the ranges of GetRecordingRanges are at least
-- five seconds apart from one to the next, and every GOP lies within one of them.
pub ranges_of-AreApart :
    (gs : List GopMeta)
    → AreOrdered 0 0 gs
    → AreApart (ranges_of gs)
      × All (λ (g : GopMeta). Spans g.start_time.instant g.end_time.instant (ranges_of gs)) gs
unfolding ranges_of begin AllSpan
ranges_of-AreApart [] o = (tt, tt)
ranges_of-AreApart (g ∷ gs) o = (
  merge-AreApart (begin g) gs,
  (merge-Spans _ _ (begin g) gs (omega arith) (omega arith) o.2, merge-AllSpan (begin g) gs o.2),
)
