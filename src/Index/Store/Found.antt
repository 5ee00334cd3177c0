-- ===== src/Index/Store/Found.antt =====
-- QueryRange of internal/index/bolt_index.go finds what the date buckets hold.
use record_storage.Common.{
  ℕ, ◌+◌, ◌≤◌, ◌<◌, ◌≡◌, refl, sym, ap, subst, ◌∙◌, inl, inr, true, Option, none, some, List, [],
  ◌∷◌, ◌++◌, Bytes, leb, ◌&&◌, le→leb, Option-cases, arith,
}
use record_storage.Common.Words.{u64_mod}
use record_storage.Clock.{Time, epoch, date_of, unix_nano}
use record_storage.Index.{GopMeta}
use record_storage.Index.Bolt.{IsBolt, Entry, find}
use record_storage.Index.Cursor.{In, In-keep, walk-eq-keep, find-In, in_range}
use record_storage.Index.Keys.{make_binary_key, bytes_leb-make_binary_key}
use record_storage.Index.Store.{
  Deps, Idx, Dates, dates_of, decode_all, in_window, walk_date, query_date, query_dates, query_v2,
  query_range,
}
use record_storage.Index.Store.Days.{IsOffset, query_days-In}

module _ {E : Type 0} (d : Deps E) where
  -- The value of a key in a bucket that may be missing.
  unfoldable pub find_in : Bytes → Option d.bolt.Bucket → Option Bytes
  find_in key none = none
  find_in key (some bucket) = find key (d.bolt.entries bucket)

  -- The value in the bucket of the date.
  unfoldable pub value_at : Bytes → Time → Idx d → Option Bytes
  unfolding find_in dates_of
  value_at camera t idx =
      find_in (make_binary_key d.hash camera t) (dates_of (idx.cameras camera) (date_of t))

  -- The date bucket of the GOP's start holds the GOP under its key.
  abbrev pub Stored : Bytes → GopMeta → Idx d → Type 0
  Stored camera m idx =
      (v : Bytes) × (value_at camera m.start_time idx ≡ some v) × (d.decode v ≡ some m)

-- The GOP starts in_window a query that the time zone of the recorder names, in the years whose
-- nanoseconds fit 64 bits.
pub record Asks (start end : Time) (m : GopMeta) : Type 0 where
  pub same_zone : m.start_time.zone ≡ start.zone
  pub offset : IsOffset start.zone
  pub from : start.instant ≤ m.start_time.instant
  pub to : m.start_time.instant ≤ end.instant
  pub after_1970 : epoch ≤ start.instant
  pub fits : end.instant < epoch + u64_mod

In-append_left : {A : Type 0} (a : A) (xs ys : List A) → In a xs → In a (xs ++ ys)
In-append_left a [] ys i = elim i [ ]
In-append_left a (x ∷ xs) ys (inl e) = inl e
In-append_left a (x ∷ xs) ys (inr i) = inr (In-append_left a xs ys i)

In-append_right : {A : Type 0} (a : A) (xs ys : List A) → In a ys → In a (xs ++ ys)
In-append_right a [] ys i = i
In-append_right a (x ∷ xs) ys i = inr (In-append_right a xs ys i)

module _ (decode : Bytes → Option GopMeta) (x : Entry) (es : List Entry) where
  decode_all-some :
      (m : GopMeta) → decode x.1 ≡ some m → decode_all decode (x ∷ es) ≡ m ∷ decode_all decode es
  unfolding decode_all
  decode_all-some m h = rw (h, decode_all) refl

  decode_all-none : decode x.1 ≡ none → decode_all decode (x ∷ es) ≡ decode_all decode es
  unfolding decode_all
  decode_all-none h = rw (h, decode_all) refl

In-decode_all :
    (decode : Bytes → Option GopMeta) (k v : Bytes) (m : GopMeta) (es : List Entry)
    → decode v ≡ some m
    → In (k, v) es
    → In m (decode_all decode es)
In-decode_all decode k v m [] e i = elim i [ ]
In-decode_all decode k v m (x ∷ es) e (inl p) =
    rw (decode_all-some decode x es m (sym (ap (λ (y : Entry). decode y.1) p) ∙ e)) (inl refl)
In-decode_all decode k v m (x ∷ es) e (inr i) = elim (Option-cases (decode x.1)) [
  | inl n ↦ rw (decode_all-none decode x es n) (In-decode_all decode k v m es e i)
  | inr s ↦ rw (decode_all-some decode x es s.0 s.1) (inr (In-decode_all decode k v m es e i))
]

module _ (start end : Time) (m : GopMeta) (asks : Asks start end m) where
  in_window-Asks : in_window start end m ≡ true
  unfolding in_window
  in_window-Asks = ground (arith, asks.from, asks.to)

  times_in_range :
      (leb (unix_nano start) (unix_nano m.start_time)
        && leb (unix_nano m.start_time) (unix_nano end))
      ≡ true
  times_in_range =
      let a : unix_nano start ≤ unix_nano m.start_time =
        omega (arith, asks.from, asks.to, asks.after_1970, asks.fits) in
      let b : unix_nano m.start_time ≤ unix_nano end =
        omega (arith, asks.from, asks.to, asks.after_1970, asks.fits) in
      rw (le→leb _ _ a, le→leb _ _ b) refl

  module _ {E : Type 0} (d : Deps E) (laws : IsBolt d.bolt) (camera v : Bytes)
      (decoded : d.decode v ≡ some m) where
    In-query_date :
        (bucket : Option d.bolt.Bucket)
        → find_in d (make_binary_key d.hash camera m.start_time) bucket ≡ some v
        → In m (query_date d camera start end bucket)
    unfolding find_in query_date walk_date
    In-query_date none h = absurd (ground arith)
    In-query_date (some bucket) h =
        In-keep (in_window start end) m _
          (In-decode_all d.decode (make_binary_key d.hash camera m.start_time) v m _ decoded (
            rw (walk-eq-keep _ _ _ (laws.sorted bucket)) (
              In-keep (in_range _ _) (make_binary_key d.hash camera m.start_time, v) _
                (find-In _ _ _ h) key_in_range)))
          in_window-Asks
      where
        key_in_range :
            in_range
              (make_binary_key d.hash camera start)
              (make_binary_key d.hash camera end)
              (make_binary_key d.hash camera m.start_time, v)
            ≡ true
        key_in_range =
            unfold in_range in
            rw
              (
                bytes_leb-make_binary_key d.hash camera start m.start_time,
                bytes_leb-make_binary_key d.hash camera m.start_time end,
              )
              times_in_range

    In-query_dates :
        (dates : Dates d.bolt.Bucket) (t : Time) (ts : List Time)
        → In t ts
        → find_in d (make_binary_key d.hash camera m.start_time) (dates (date_of t)) ≡ some v
        → In m (query_dates d camera start end dates ts)
    unfolding query_dates
    In-query_dates dates t [] i h = elim i [ ]
    In-query_dates dates t (x ∷ ts) (inl e) h = In-append_left m _ _ (
        subst (λ (y : Time). In m (query_date d camera start end (dates (date_of y)))) e
          (In-query_date (dates (date_of t)) h))
    In-query_dates dates t (x ∷ ts) (inr i) h =
        In-append_right m _ _ (In-query_dates dates t ts i h)

  pub In-query_range :
      {E : Type 0} (d : Deps E) (laws : IsBolt d.bolt) (camera : Bytes) (idx : Idx d)
      → idx.use_v2 ≡ true
      → Stored d camera m idx
      → In m (query_range d camera start end idx)
  unfolding query_range query_v2 value_at
  In-query_range d laws camera idx v2 stored =
      let named =
        query_days-In start end m.start_time asks.same_zone asks.offset asks.from asks.to
          (omega (arith, asks.after_1970)) in
      rw v2 (
        In-query_dates d laws camera stored.0 stored.2 (dates_of (idx.cameras camera)) named.0 _
          named.1
          (ap
              (λ (n : ℕ).
                find_in d (make_binary_key d.hash camera m.start_time)
                  (dates_of (idx.cameras camera) n))
              named.2
            ∙ stored.1))
