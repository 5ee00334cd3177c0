-- ===== src/Playback/Prefetcher/Laws.antt =====
-- The cache of internal/playback/prefetcher.go holds what reading gives, for at most ten objects.
use record_storage.Common.{
  ◌≡◌, ◌≢◌, ◌≤◌, ◌<◌, ◌⊎◌, inl, inr, refl, sym, ap, subst, ◌∙◌, true, false, none, some, List, [],
  ◌∷◌, Bytes, All, bytes_eq, bytes_eq_iff, length, ltb, Result, ok, if◌then◌else◌, arith,
  Bool-cases, Result-cases, Option-cases,
}
use record_storage.Sample.{Sample}
use record_storage.Index.{GopMeta}
use record_storage.Index.Cursor.{In}
use record_storage.Playback.Prefetcher.{
  Cache, cached, remove, evict, store, keep_read, prefetch, prefetch_all,
}

cached-remove :
    (k j : Bytes) (cache : Cache)
    → cached k (remove j cache) ≡ (if bytes_eq k j then none else cached k cache)
unfolding cached remove
cached-remove k j [] = ground arith
cached-remove k j (e ∷ es) =
    ground (arith, cached-remove k j es, bytes_eq_iff j e.0, bytes_eq_iff k e.0, bytes_eq_iff k j)

module _ (k : Bytes) (e : Bytes × List Sample) (es : Cache) where
  cached-first : bytes_eq k e.0 ≡ true → cached k (e ∷ es) ≡ some e.1
  unfolding cached
  cached-first same = rw same refl

  cached-later : bytes_eq k e.0 ≡ false → cached k (e ∷ es) ≡ cached k es
  unfolding cached
  cached-later other = rw other refl

-- What a removal leaves was there.
cached-remove-some :
    (k j : Bytes) (v : List Sample) (cache : Cache)
    → cached k (remove j cache) ≡ some v
    → cached k cache ≡ some v
cached-remove-some k j v cache h = ground (arith, cached-remove k j cache)

-- A prefetch that finds its object, or cannot read it, changes nothing.
prefetch-cases :
    {E : Type 0} (read : GopMeta → Result E (List Sample)) (pick : Cache → Bytes) (m : GopMeta)
    (cache : Cache)
    → (prefetch read pick m cache ≡ cache)
      ⊎ ((samples : List Sample) × (read m ≡ ok samples)
          × (prefetch read pick m cache ≡ store pick m.object_key samples cache))
unfolding prefetch keep_read
prefetch-cases read pick m cache = elim (Option-cases (cached m.object_key cache)) [
  | inr here ↦ inl (rw (here.1, prefetch) refl)
  | inl missing ↦ elim (Result-cases (read m)) [
    | inl r ↦ inr (r.0, r.1, fetched missing ∙ ap (keep_read pick m.object_key cache) r.1)
    | inr failed ↦ inl (fetched missing ∙ ap (keep_read pick m.object_key cache) failed.1)
  ]
]
  where
    fetched :
        cached m.object_key cache ≡ none
        → prefetch read pick m cache ≡ keep_read pick m.object_key cache (read m)
    fetched missing = rw (missing, prefetch) refl

module _ {E : Type 0} (read : GopMeta → Result E (List Sample)) (metas : List GopMeta) where
  -- For each of the GOPs, a cached value is what reading it gives.
  abbrev pub IsFaithful : Cache → Type 0
  IsFaithful cache =
      (m : GopMeta) (v : List Sample)
      → In m metas
      → cached m.object_key cache ≡ some v
      → read m ≡ ok v

  -- GOPs of one object read alike.
  abbrev pub ReadAlike : Type 0
  ReadAlike =
      (m m' : GopMeta) → In m metas → In m' metas → m.object_key ≡ m'.object_key → read m ≡ read m'

  pub remove-IsFaithful :
      (k : Bytes) (cache : Cache) → IsFaithful cache → IsFaithful (remove k cache)
  remove-IsFaithful k cache f m v i h = f m v i (cached-remove-some m.object_key k v cache h)

  module _ (pick : Cache → Bytes) (alike : ReadAlike) where
    store-IsFaithful :
        (m : GopMeta) (samples : List Sample) (cache : Cache)
        → In m metas
        → read m ≡ ok samples
        → IsFaithful cache
        → IsFaithful (store pick m.object_key samples cache)
    unfolding store evict
    store-IsFaithful m samples cache i r f = evicted (Bool-cases (ltb 10 (length added)))
      where
        added : Cache
        added = (m.object_key, samples) ∷ remove m.object_key cache

        with_added : IsFaithful added
        with_added m' v i' h = elim (Bool-cases (bytes_eq m'.object_key m.object_key)) [
          | inl same ↦
              alike m' m i' i ((bytes_eq_iff m'.object_key m.object_key).0 same)
              ∙ r
              ∙ cc (
                cached-first m'.object_key (m.object_key, samples) (remove m.object_key cache) same,
                h,
              )
          | inr other ↦ f m' v i' (
              cached-remove-some m'.object_key m.object_key v cache (
                sym (
                  cached-later m'.object_key (m.object_key, samples) (remove m.object_key cache)
                    other)
                ∙ h))
        ]

        evicted :
            (ltb 10 (length added) ≡ true) ⊎ (ltb 10 (length added) ≡ false)
            → IsFaithful (evict pick added)
        evicted (inl t) = rw t (remove-IsFaithful (pick added) added with_added)
        evicted (inr t) = rw t with_added

    prefetch-IsFaithful :
        (m : GopMeta) (cache : Cache)
        → In m metas
        → IsFaithful cache
        → IsFaithful (prefetch read pick m cache)
    prefetch-IsFaithful m cache i f = elim (prefetch-cases read pick m cache) [
      | inl kept ↦ subst IsFaithful (sym kept) f
      | inr (samples, r, stored) ↦
          subst IsFaithful (sym stored) (store-IsFaithful m samples cache i r f)
    ]

    pub prefetch_all-IsFaithful :
        (ms : List GopMeta) (cache : Cache)
        → All (λ (m : GopMeta). In m metas) ms
        → IsFaithful cache
        → IsFaithful (prefetch_all read pick ms cache)
    unfolding prefetch_all
    prefetch_all-IsFaithful [] cache is f = f
    prefetch_all-IsFaithful (m ∷ ms) cache is f =
        prefetch_all-IsFaithful ms (prefetch read pick m cache) is.1
          (prefetch-IsFaithful m cache is.0 f)

-- The key that eviction picks is one of the cache's.
abbrev pub PicksOwn : (Cache → Bytes) → Type 0
PicksOwn pick = (cache : Cache) → 0 < length cache → cached (pick cache) cache ≢ none

length-remove : (k : Bytes) (cache : Cache) → length (remove k cache) ≤ length cache
unfolding remove
length-remove k [] = omega arith
length-remove k (e ∷ es) = ground (arith, length-remove k es)

length-remove-cached :
    (k : Bytes) (cache : Cache) → cached k cache ≢ none → length (remove k cache) < length cache
unfolding remove cached
length-remove-cached k [] h = absurd (h refl)
length-remove-cached k (e ∷ es) h = elim (Bool-cases (bytes_eq k e.0)) [
  | inl same ↦ rw same (omega (arith, length-remove k es))
  | inr other ↦ rw other (omega (arith, length-remove-cached k es (rw other at h)))
]

evict-le :
    (pick : Cache → Bytes) (cache : Cache)
    → PicksOwn pick
    → length cache ≤ 11
    → length (evict pick cache) ≤ 10
unfolding evict
evict-le pick cache own h = elim (Bool-cases (ltb 10 (length cache))) [
  | inl t ↦ rw t (omega (arith, length-remove-cached (pick cache) cache (own cache (ground arith))))
  | inr t ↦ rw t (ground arith)
]

length-prefetch :
    {E : Type 0} (read : GopMeta → Result E (List Sample)) (pick : Cache → Bytes) (m : GopMeta)
    (cache : Cache)
    → PicksOwn pick
    → length cache ≤ 10
    → length (prefetch read pick m cache) ≤ 10
unfolding store
length-prefetch read pick m cache own h = elim (prefetch-cases read pick m cache) [
  | inl kept ↦ rw kept h
  | inr (samples, r, stored) ↦ rw stored (
      evict-le pick ((m.object_key, samples) ∷ remove m.object_key cache) own
        (omega (arith, length-remove m.object_key cache)))
]

-- Whatever prefetches end, a cache of at most ten objects stays one, where the loop over the map
-- meets a key of the map.
pub length-prefetch_all :
    {E : Type 0} (read : GopMeta → Result E (List Sample)) (pick : Cache → Bytes)
    (ms : List GopMeta) (cache : Cache)
    → PicksOwn pick
    → length cache ≤ 10
    → length (prefetch_all read pick ms cache) ≤ 10
unfolding prefetch_all
length-prefetch_all read pick [] cache own h = h
length-prefetch_all read pick (m ∷ ms) cache own h =
    length-prefetch_all read pick ms (prefetch read pick m cache) own
      (length-prefetch read pick m cache own h)
