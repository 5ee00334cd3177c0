-- ===== src/Index/Store/Put.antt =====
-- A put into a date bucket of internal/index/bolt_index.go: what it stores and what it keeps.
use record_storage.Common.{
  ℕ, ◌==◌, ◌≡◌, ◌≢◌, refl, ap, ◌∙◌, ◌⊎◌, inl, inr, ◌&&◌, Option, none, some, Bytes, bytes_eq,
  bytes_eq_refl, bytes_eq_iff, ok, >>=-eq-ok, Bool-cases, if◌then◌else◌, arith,
}
use record_storage.Clock.{Time, date_of}
use record_storage.Index.{GopMeta}
use record_storage.Index.Bolt.{IsBolt, find}
use record_storage.Index.Keys.{make_binary_key}
use record_storage.Index.Store.{
  Deps, Idx, dates_of, or_else, set_bucket, put_v2, get_or_create_date_bucket,
}
use record_storage.Index.Store.Found.{Stored, value_at, find_in}

-- Two GOPs of the index are different ones: of two cameras, or of different keys.
module _ {E : Type 0} (d : Deps E) where
  abbrev pub DifferentKeys : Bytes → Time → Bytes → Time → Type 0
  DifferentKeys camera t camera' t' =
      (camera ≢ camera') ⊎ (make_binary_key d.hash camera t ≢ make_binary_key d.hash camera' t')

module _ {E : Type 0} (d : Deps E) (laws : IsBolt d.bolt) where
  find_in-or_else :
      (key : Bytes) (bucket : Option d.bolt.Bucket)
      → find key (d.bolt.entries (or_else d.bolt.empty bucket)) ≡ find_in d key bucket
  unfolding find_in or_else find
  find_in-or_else key none = rw laws.entries-empty refl
  find_in-or_else key (some bucket) = refl

  value_at-set_bucket :
      (camera camera' : Bytes) (date : ℕ) (t' : Time) (bucket : Option d.bolt.Bucket) (idx : Idx d)
      → value_at d camera' t' (set_bucket camera date bucket idx) ≡ (
          if bytes_eq camera' camera && (date_of t' == date)
          then find_in d (make_binary_key d.hash camera' t') bucket
          else value_at d camera' t' idx)
  unfolding value_at set_bucket dates_of
  value_at-set_bucket camera camera' date t' bucket idx =
      elim (Bool-cases (bytes_eq camera' camera)) [
        | inl same ↦ rw (same, (bytes_eq_iff camera' camera).0 same) (ground arith)
        | inr other ↦ rw other refl
      ]

  put_v2-eq-ok :
      (camera : Bytes) (t : Time) (value : Bytes) (idx idx' : Idx d)
      → put_v2 d camera t value idx ≡ ok idx'
      → (bucket : d.bolt.Bucket) × (d.bolt.put
            (make_binary_key d.hash camera t)
            value
            (or_else d.bolt.empty (dates_of (idx.cameras camera) (date_of t)))
          ≡ ok bucket)
        × (idx' ≡ set_bucket camera (date_of t) (some bucket) idx)
  unfolding put_v2 get_or_create_date_bucket
  put_v2-eq-ok camera t value idx idx' done =
      let created = >>=-eq-ok (get_or_create_date_bucket d camera t idx) _ done in
      let named = >>=-eq-ok (d.bolt.check_name camera) _ created.1 in
      let stored =
        >>=-eq-ok (d.bolt.put (make_binary_key d.hash camera t) value created.0) _ created.2 in
      (stored.0, cc (named.2, stored.1), cc (stored.2))

  find_in-put :
      (key j value : Bytes) (old : Option d.bolt.Bucket) (bucket : d.bolt.Bucket)
      → d.bolt.put key value (or_else d.bolt.empty old) ≡ ok bucket
      → find_in d j (some bucket) ≡ (if bytes_eq j key then some value else find_in d j old)
  unfolding find_in
  find_in-put key j value old bucket put =
      laws.find-put _ bucket key value j put
      ∙ ap (λ (o : Option Bytes). if bytes_eq j key then some value else o) (find_in-or_else j old)

  -- What a put leaves at every key.
  value_at-put_v2 :
      (camera camera' : Bytes) (t t' : Time) (value : Bytes) (idx idx' : Idx d)
      → put_v2 d camera t value idx ≡ ok idx'
      → value_at d camera' t' idx' ≡ (
          if bytes_eq camera' camera
            && (date_of t' == date_of t)
            && bytes_eq (make_binary_key d.hash camera' t') (make_binary_key d.hash camera t)
          then some value
          else value_at d camera' t' idx)
  unfolding value_at
  value_at-put_v2 camera camera' t t' value idx idx' done =
      let (bucket, put, is) = put_v2-eq-ok camera t value idx idx' done in
      rw (is, value_at-set_bucket camera camera' (date_of t) t' (some bucket) idx)
        (ground (
          arith,
          find_in-put (make_binary_key d.hash camera t) (make_binary_key d.hash camera' t') value
              (dates_of (idx.cameras camera) (date_of t)) bucket put,
          (bytes_eq_iff camera' camera).0,
        ))

  -- A put stores its GOP, and keeps one of another key or another camera.
  pub put_v2-Stored :
      (camera : Bytes) (m : GopMeta) (value : Bytes) (idx idx' : Idx d)
      → put_v2 d camera m.start_time value idx ≡ ok idx'
      → d.decode value ≡ some m
      → Stored d camera m idx'
  put_v2-Stored camera m value idx idx' done decoded = (
    value,
    value_at-put_v2 camera camera m.start_time m.start_time value idx idx' done
        ∙ ground (
          arith,
          bytes_eq_refl camera,
          bytes_eq_refl (make_binary_key d.hash camera m.start_time),
        ),
    decoded,
  )

  pub put_v2-keeps :
      (camera camera' : Bytes) (t : Time) (value : Bytes) (m : GopMeta) (idx idx' : Idx d)
      → put_v2 d camera t value idx ≡ ok idx'
      → DifferentKeys d camera' m.start_time camera t
      → Stored d camera' m idx
      → Stored d camera' m idx'
  put_v2-keeps camera camera' t value m idx idx' done differ stored =
      let at = value_at-put_v2 camera camera' t m.start_time value idx idx' done in
      elim differ [
        | inl cameras ↦
            (stored.0, ground (arith, at, (bytes_eq_iff camera' camera).0, cameras), stored.2)
        | inr keys ↦ (
          stored.0,
          ground (
            arith,
            at,
            (bytes_eq_iff (make_binary_key d.hash camera' m.start_time)
                (make_binary_key d.hash camera t)).0,
            keys,
          ),
          stored.2,
        )
      ]

  pub put_v2-use_v2 :
      (camera : Bytes) (t : Time) (value : Bytes) (idx idx' : Idx d)
      → put_v2 d camera t value idx ≡ ok idx'
      → idx'.use_v2 ≡ idx.use_v2
  unfolding set_bucket
  put_v2-use_v2 camera t value idx idx' done =
      ap (λ (i : Idx d). i.use_v2) (put_v2-eq-ok camera t value idx idx' done).2
