-- ===== src/Index/Store/Deleting.antt =====
-- DeleteRange of internal/index/bolt_index.go against QueryRange.
use record_storage.Common.{
  ℕ, ◌==◌, ==_iff, ◌≡◌, refl, sym, ap, subst, ◌∙◌, ◌⊎◌, inl, inr, true, false, Option, none, some,
  List, [], ◌∷◌, Bytes, bytes_eq_refl, Option-cases, ok, >>=-eq-ok, Bool-cases, if_true, if_false,
  if◌then◌else◌, arith,
}
use record_storage.Clock.{Time, date_of}
use record_storage.Index.Bolt.{IsBolt}
use record_storage.Index.Cursor.{In, keep}
use record_storage.Index.Store.{
  Deps, Idx, Dates, dates_of, set_bucket, query_range, query_v1, query_v2, query_dates, query_date,
  delete_range, delete_v2, delete_dates, delete_date, delete_all, left_of, walk_date, walk_gops,
  decode_all,
}
use record_storage.Index.Store.Days.{query_days}
use record_storage.Index.Store.Emptied.{walk_date-delete_all, walk_gops-delete_all}

module _ {E : Type 0} (d : Deps E) (laws : IsBolt d.bolt) (camera : Bytes) (start end : Time) where
  IsClear : Option d.bolt.Bucket → Type 0
  IsClear bucket = query_date d camera start end bucket ≡ []

  left_of-IsClear :
      (u : d.bolt.Bucket) → walk_date d camera start end u ≡ [] → IsClear (left_of d u)
  unfolding IsClear left_of query_date decode_all keep
  left_of-IsClear u h = elim (Bool-cases (d.bolt.key_n u == 0)) [
    | inl t ↦ rw t refl
    | inr t ↦ rw (t, h) refl
  ]

  none-IsClear : IsClear none
  unfolding IsClear query_date
  none-IsClear = refl

  delete_date-IsClear :
      (bucket bucket' : Option d.bolt.Bucket)
      → delete_date d camera start end bucket ≡ ok bucket'
      → IsClear bucket'
  unfolding delete_date
  delete_date-IsClear none bucket' done = subst IsClear (cc done) none-IsClear
  delete_date-IsClear (some u) bucket' done =
      let (u', deleted, is) = >>=-eq-ok (delete_all d (walk_date d camera start end u) u) _ done in
      subst IsClear (cc is)
        (left_of-IsClear u' (walk_date-delete_all d laws camera start end u u' deleted))

  dates_of-set_bucket :
      (date n : ℕ) (bucket : Option d.bolt.Bucket) (idx : Idx d)
      → dates_of ((set_bucket camera date bucket idx).cameras camera) n
        ≡ (if n == date then bucket else dates_of (idx.cameras camera) n)
  unfolding set_bucket dates_of
  dates_of-set_bucket date n bucket idx = rw (bytes_eq_refl camera) refl

  abbrev ClearAt : Idx d → ℕ → Type 0
  ClearAt idx n = IsClear (dates_of (idx.cameras camera) n)

  set_bucket-ClearAt :
      (t : Time) (n : ℕ) (bucket : Option d.bolt.Bucket) (idx : Idx d)
      → IsClear bucket
      → (date_of t ≡ n) ⊎ ClearAt idx n
      → ClearAt (set_bucket camera (date_of t) bucket idx) n
  set_bucket-ClearAt t n bucket idx clear (inl e) =
      rw (dates_of-set_bucket, (==_iff n (date_of t)).1 (sym e)) clear
  set_bucket-ClearAt t n bucket idx clear (inr old) = elim (Bool-cases (n == date_of t)) [
    | inl same ↦ rw (dates_of-set_bucket, same) clear
    | inr other ↦ rw (dates_of-set_bucket, other) old
  ]

  after_one :
      (t : Time) (ts : List Time) (n : ℕ) (bucket : Option d.bolt.Bucket) (idx : Idx d)
      → IsClear bucket
      → ((x : Time) × In x (t ∷ ts) × (date_of x ≡ n)) ⊎ ClearAt idx n
      → ((x : Time) × In x ts × (date_of x ≡ n))
        ⊎ ClearAt (set_bucket camera (date_of t) bucket idx) n
  after_one t ts n bucket idx clear (inl (x, inl e, named)) =
      inr (set_bucket-ClearAt t n bucket idx clear (inl (ap date_of (sym e) ∙ named)))
  after_one t ts n bucket idx clear (inl (x, inr i, named)) = inl (x, i, named)
  after_one t ts n bucket idx clear (inr old) =
      inr (set_bucket-ClearAt t n bucket idx clear (inr old))

  -- A date that is clear stays so, and every date of the loop becomes so.
  delete_dates-ClearAt :
      (ts : List Time) (n : ℕ) (idx idx' : Idx d)
      → delete_dates d camera start end ts idx ≡ ok idx'
      → ((t : Time) × In t ts × (date_of t ≡ n)) ⊎ ClearAt idx n
      → ClearAt idx' n
  unfolding delete_dates
  delete_dates-ClearAt [] n idx idx' done (inl (t, i, e)) = elim i [ ]
  delete_dates-ClearAt [] n idx idx' done (inr old) =
      let e : idx ≡ idx' = cc done in subst (λ (x : Idx d). ClearAt x n) e old
  delete_dates-ClearAt (t ∷ ts) n idx idx' done h =
      let (bucket, deleted, rest) =
        >>=-eq-ok (delete_date d camera start end (dates_of (idx.cameras camera) (date_of t))) _
          done in
      delete_dates-ClearAt ts n (set_bucket camera (date_of t) bucket idx) idx' rest
        (after_one t ts n bucket idx (delete_date-IsClear _ bucket deleted) h)

  query_dates-clear :
      (dates : Dates d.bolt.Bucket) (ts : List Time)
      → ((t : Time) → In t ts → IsClear (dates (date_of t)))
      → query_dates d camera start end dates ts ≡ []
  unfolding query_dates IsClear
  query_dates-clear dates [] h = refl
  query_dates-clear dates (t ∷ ts) h =
      rw (h t (inl refl)) (query_dates-clear dates ts (λ x i. h x (inr i)))

  delete_v2-cases :
      (idx idx' : Idx d)
      → delete_v2 d camera start end idx ≡ ok idx'
      → ((idx.cameras camera ≡ none) × (idx ≡ idx'))
        ⊎ (delete_dates d camera start end (query_days start end) idx ≡ ok idx')
  unfolding delete_v2
  delete_v2-cases idx idx' done = elim (Option-cases (idx.cameras camera)) [
    | inl missing ↦ inl (missing, cc (nothing missing, done))
    | inr found ↦ inr (sym (something found.0 found.1) ∙ done)
  ]
    where
      nothing : idx.cameras camera ≡ none → delete_v2 d camera start end idx ≡ ok idx
      nothing missing = rw (missing, delete_v2) refl

      something :
          (dates : Dates d.bolt.Bucket)
          → idx.cameras camera ≡ some dates
          → delete_v2 d camera start end idx
            ≡ delete_dates d camera start end (query_days start end) idx
      something dates found = rw (found, delete_v2) refl

  missing-ClearAt : (idx : Idx d) (n : ℕ) → idx.cameras camera ≡ none → ClearAt idx n
  missing-ClearAt idx n missing =
      subst (λ dates. IsClear (dates_of dates n)) (sym missing) (unfold dates_of in none-IsClear)

  delete_v2-query_v2 :
      (idx idx' : Idx d)
      → delete_v2 d camera start end idx ≡ ok idx'
      → query_v2 d camera start end idx' ≡ []
  unfolding query_v2
  delete_v2-query_v2 idx idx' done =
      query_dates-clear (dates_of (idx'.cameras camera)) (query_days start end) λ t i.
        elim (delete_v2-cases idx idx' done) [
          | inl unchanged ↦
              subst (λ (x : Idx d). ClearAt x (date_of t)) unchanged.1
                (missing-ClearAt idx (date_of t) unchanged.0)
          | inr deleted ↦
              delete_dates-ClearAt (query_days start end) (date_of t) idx idx' deleted
                (inl (t, i, refl))
        ]

  delete_dates-use_v2 :
      (ts : List Time) (idx idx' : Idx d)
      → delete_dates d camera start end ts idx ≡ ok idx'
      → idx'.use_v2 ≡ idx.use_v2
  unfolding delete_dates set_bucket
  delete_dates-use_v2 [] idx idx' done = ground arith
  delete_dates-use_v2 (t ∷ ts) idx idx' done =
      let (bucket, deleted, rest) =
        >>=-eq-ok (delete_date d camera start end (dates_of (idx.cameras camera) (date_of t))) _
          done in
      delete_dates-use_v2 ts (set_bucket camera (date_of t) bucket idx) idx' rest

  delete_v2-use_v2 :
      (idx idx' : Idx d) → delete_v2 d camera start end idx ≡ ok idx' → idx'.use_v2 ≡ idx.use_v2
  delete_v2-use_v2 idx idx' done = elim (delete_v2-cases idx idx' done) [
    | inl unchanged ↦ ap (λ (x : Idx d). x.use_v2) (sym unchanged.1)
    | inr deleted ↦ delete_dates-use_v2 (query_days start end) idx idx' deleted
  ]

  -- Whichever bucket the index reads.
  cleared :
      (mid : Idx d) (gops : d.bolt.Bucket)
      → (mid.use_v2 ≡ true → query_v2 d camera start end mid ≡ [])
      → walk_gops d camera start end gops ≡ []
      → query_range d camera start end (record mid { gops = gops }) ≡ []
  unfolding query_range query_v2 query_v1 decode_all
  cleared mid gops v2 v1 = elim (Bool-cases mid.use_v2) [
    | inl t ↦ rw t (v2 t)
    | inr t ↦ rw (t, v1) refl
  ]

  dates_cleared :
      (idx mid : Idx d)
      → (if idx.use_v2 then delete_v2 d camera start end idx else ok idx) ≡ ok mid
      → mid.use_v2 ≡ true
      → query_v2 d camera start end mid ≡ []
  dates_cleared idx mid first v2 = elim (Bool-cases idx.use_v2) [
    | inl t ↦
        delete_v2-query_v2 idx mid
          (sym (if_true idx.use_v2 (delete_v2 d camera start end idx) (ok idx) t) ∙ first)
    | inr t ↦ absurd (ground (arith, ap (λ (x : Idx d). x.use_v2) (kept t)))
  ]
    where
      kept : idx.use_v2 ≡ false → idx ≡ mid
      kept t = cc (if_false idx.use_v2 (delete_v2 d camera start end idx) (ok idx) t, first)

  -- After DeleteRange succeeds, QueryRange with the same camera and times finds nothing, by the date
  -- buckets as by the old bucket.
  pub query_range-delete_range :
      (idx idx' : Idx d)
      → delete_range d camera start end idx ≡ ok idx'
      → query_range d camera start end idx' ≡ []
  unfolding delete_range
  query_range-delete_range idx idx' done =
      let (mid, first, rest) =
        >>=-eq-ok (if idx.use_v2 then delete_v2 d camera start end idx else ok idx) _ done in
      let (gops, deleted, is) =
        >>=-eq-ok (delete_all d (walk_gops d camera start end mid.gops) mid.gops) _ rest in
      let e : record mid { gops = gops } ≡ idx' = cc (is) in
      subst (λ (x : Idx d). query_range d camera start end x ≡ []) e
        (cleared mid gops (dates_cleared idx mid first)
          (walk_gops-delete_all d laws camera start end mid.gops gops deleted))
