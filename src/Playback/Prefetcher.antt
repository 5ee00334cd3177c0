-- ===== src/Playback/Prefetcher.antt =====
-- internal/playback/prefetcher.go. The map is an association list without a key twice; which key a
-- loop over a map meets first is the argument `pick`. ReadGOP is the argument `read`.
pub mod Laws
use record_storage.Common.{
  ℕ, ◌≡◌, ◌≢◌, ◌≤◌, ◌<◌, ◌+◌, ◌⊎◌, inl, inr, refl, sym, ap, ◌∙◌, Bool, true, false, Option, none,
  some, List, [], ◌∷◌, Bytes, bytes_eq, bytes_eq_iff, bytes_eq_refl, length, ltb, Result, ok, err,
  if◌then◌else◌, arith, Bool-cases, Result-cases, Option-cases,
}
use record_storage.Sample.{Sample}
use record_storage.Index.{GopMeta}

abbrev pub Cache : Type 0
Cache = List (Bytes × List Sample)

unfoldable pub cached : Bytes → Cache → Option (List Sample)
cached key [] = none
cached key (e ∷ es) = let rest = cached key es in if bytes_eq key e.0 then some e.1 else rest

unfoldable pub remove : Bytes → Cache → Cache
remove key [] = []
remove key (e ∷ es) = let rest = remove key es in if bytes_eq key e.0 then rest else e ∷ rest

-- Get: the samples leave the cache.
unfoldable pub take_cached : Bytes → Cache → Option (List Sample) × Cache
take_cached key cache = (cached key cache, remove key cache)

unfoldable pub clear : Cache → Cache
clear cache = []

unfoldable pub evict : (Cache → Bytes) → Cache → Cache
evict pick cache = if ltb 10 (length cache) then remove (pick cache) cache else cache

unfoldable pub store : (Cache → Bytes) → Bytes → List Sample → Cache → Cache
unfolding evict
store pick key samples cache = evict pick ((key, samples) ∷ remove key cache)

-- The result of ReadGOP goes into the cache unless it is an error.
unfoldable pub keep_read :
    {E : Type 0} → (Cache → Bytes) → Bytes → Cache → Result E (List Sample) → Cache
keep_read pick key cache (err e) = cache
keep_read pick key cache (ok samples) = store pick key samples cache

module _ {E : Type 0} (read : GopMeta → Result E (List Sample)) (pick : Cache → Bytes) where
  unfoldable pub prefetch : GopMeta → Cache → Cache
  prefetch meta cache = elim (cached meta.object_key cache) [
    | some samples ↦ cache
    | none ↦ keep_read pick meta.object_key cache (read meta)
  ]

  -- Prefetches that end one after the other.
  unfoldable pub prefetch_all : List GopMeta → Cache → Cache
  unfolding prefetch
  prefetch_all [] cache = cache
  prefetch_all (meta ∷ metas) cache = prefetch_all metas (prefetch meta cache)
