-- ===== src/Retention.antt =====
-- internal/recorder/retention.go: cleanupCamera. The storage, the index and the context are
-- operations on a world of their own. The location, whose offset from UTC may change, and AddDate in
-- it are parameters.
use record_storage.Common.{
  ℕ, zero, suc, ◌+◌, ◌*◌, ◌≤◌, ◌≡◌, ◌≢◌, refl, Bool, true, false, not, Option, none, some, List, [],
  ◌∷◌, Bytes, length, ◌==◌, All, arith, if◌then◌else◌,
}
use record_storage.Clock.{Location, Time, utc, add, at_instant, before, after, date_of, day}
use record_storage.Index.{GopMeta}

-- QueryRange for the camera, Delete of the storage, DeleteRange for the camera, and whether the
-- context is done; the flags say whether a call succeeded.
pub record RetentionOps (W : Type 0) : Type 0 where
  pub query_range : Time → Time → W → Option (List GopMeta) × W
  pub delete_object : Bytes → W → Bool × W
  pub delete_range : Time → Time → W → Bool × W
  pub is_done : W → Bool

module _ {W : Type 0} (ops : RetentionOps W) where
  delete_init : GopMeta → W → W
  delete_init gop w = if length gop.init_key == 0 then w else (ops.delete_object gop.init_key w).1

  -- One GOP that has expired; its init segment goes only if its object went.
  delete_gop : GopMeta → Bool × W → W
  unfolding delete_init
  delete_gop gop (true, w) = delete_init gop w
  delete_gop gop (false, w) = w

  -- The loop over the GOPs of a day.
  unfoldable pub delete_expired : Time → List GopMeta → W → W
  unfolding delete_gop
  delete_expired cutoff [] w = w
  delete_expired cutoff (gop ∷ gops) w =
      delete_expired cutoff gops (
        if after gop.end_time cutoff
        then w
        else delete_gop gop (ops.delete_object gop.object_key w))

  -- deleteExpiredFromIndex, which ignores the end of the day
  unfoldable pub delete_expired_from_index : Time → Time → Time → W → W
  delete_expired_from_index start end cutoff w = (ops.delete_range start cutoff w).1

  clean_gops : Time → Time → Time → Option (List GopMeta) × W → W
  clean_gops start end cutoff (none, w) = w
  clean_gops start end cutoff (some [], w) = w
  clean_gops start end cutoff (some (gop ∷ gops), w) =
      delete_expired_from_index start end cutoff (delete_expired cutoff (gop ∷ gops) w)

  -- One turn of the loop over the days.
  unfoldable pub clean_day : Time → Time → W → W
  unfolding clean_gops
  clean_day cutoff d w =
      let start : Time = record { instant = date_of d * day; zone = utc } in
      let end : Time = add start day in clean_gops start end cutoff (ops.query_range start end w)

  -- The loop over the days, on fuel; `none` if it runs out.
  unfoldable pub clean_days : Location → ℕ → Time → Time → W → Option W
  clean_days local zero cutoff d w = none
  clean_days local (suc fuel) cutoff d w =
      let rest =
        clean_days local fuel cutoff (at_instant local (d.instant + day)) (clean_day cutoff d w) in
      if not (before d cutoff) then some w else if ops.is_done w then some w else rest

  -- cleanupCamera; `days_back t n` is t.AddDate(0, 0, -n).
  unfoldable pub cleanup_camera : Location → (Time → ℕ → Time) → Time → W → Option W
  cleanup_camera local days_back cutoff w = clean_days local 32 cutoff (days_back cutoff 30) w

  some_if :
      {A : Type 0} (b : Bool) (a : A) (o : Option A) → o ≢ none → (if b then some a else o) ≢ none
  some_if true a o h = ground arith
  some_if false a o h = h

  clean_days-ends :
      (local : Location) (fuel : ℕ) (cutoff d : Time) (w : W)
      → cutoff.instant ≤ d.instant + fuel * day
      → clean_days local (suc fuel) cutoff d w ≢ none
  unfolding clean_days
  clean_days-ends local zero cutoff d w h = ground arith
  clean_days-ends local (suc fuel) cutoff d w h =
      let rest =
        clean_days-ends local fuel cutoff (at_instant local (d.instant + day))
          (clean_day cutoff d w) (omega arith) in
      some_if (not (before d cutoff)) w _ (some_if (ops.is_done w) w _ rest)

  -- cleanupCamera ends for every cutoff and in every location: from its start thirty calendar days
  -- before the cutoff, thirty-one turns of 24 hours reach it, given that a date n days back is at most
  -- n + 1 times 24 hours back, whatever the changes of the offset from UTC between them.
  pub cleanup_camera-ends :
      (local : Location) (days_back : Time → ℕ → Time) (cutoff : Time) (w : W)
      → ((t : Time) (n : ℕ) → t.instant ≤ (days_back t n).instant + (n + 1) * day)
      → cleanup_camera local days_back cutoff w ≢ none
  unfolding cleanup_camera
  cleanup_camera-ends local days_back cutoff w back =
      clean_days-ends local 31 cutoff (days_back cutoff 30) w (omega (arith, back cutoff 30))

  module _ (P : W → Type 0) (cutoff : Time) where
    -- Deleting the objects of a GOP that ended by the cutoff keeps P.
    abbrev pub Keeps : GopMeta → Type 0
    Keeps gop =
        gop.end_time.instant ≤ cutoff.instant
        → (w : W) → P w
        → P (ops.delete_object gop.object_key w).1 × P (ops.delete_object gop.init_key w).1

    keeps_if : (b : Bool) (w v : W) → P w → P v → P (if b then w else v)
    keeps_if true w v p q = p
    keeps_if false w v p q = q

    delete_init-keeps :
        (gop : GopMeta) (w : W)
        → P w
        → P (ops.delete_object gop.init_key w).1
        → P (delete_init gop w)
    unfolding delete_init
    delete_init-keeps gop w p q = keeps_if (length gop.init_key == 0) w _ p q

    delete_gop-keeps :
        (gop : GopMeta) (r : Bool × W)
        → P r.1
        → ((w : W) → P w → P (ops.delete_object gop.init_key w).1)
        → P (delete_gop gop r)
    unfolding delete_gop
    delete_gop-keeps gop (true, w) p k = delete_init-keeps gop w p (k w p)
    delete_gop-keeps gop (false, w) p k = p

    turn-keeps :
        (gop : GopMeta) (w : W) (b : Bool)
        → after gop.end_time cutoff ≡ b
        → Keeps gop
        → P w
        → P (if b then w else delete_gop gop (ops.delete_object gop.object_key w))
    turn-keeps gop w true e k p = p
    turn-keeps gop w false e k p =
        let late : gop.end_time.instant ≤ cutoff.instant = ground arith in
        delete_gop-keeps gop (ops.delete_object gop.object_key w) (k late w p).0
          (λ v q. (k late v q).1)

    -- Of the GOPs of a day, retention deletes only objects and init segments of those that ended by
    -- the cutoff: whatever their deletions keep is kept.
    pub delete_expired-keeps :
        (gops : List GopMeta) (w : W) → All Keeps gops → P w → P (delete_expired cutoff gops w)
    unfolding delete_expired
    delete_expired-keeps [] w k p = p
    delete_expired-keeps (gop ∷ gops) w k p =
        delete_expired-keeps gops _ k.1 (turn-keeps gop w (after gop.end_time cutoff) refl k.0 p)
