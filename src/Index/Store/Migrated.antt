-- ===== src/Index/Store/Migrated.antt =====
-- cmd/migrate/main.go against QueryRange: what the old bucket lists is found by the date buckets.
use record_storage.Common.{◌≡◌, true, some, List, [], ◌∷◌}
use record_storage.Index.{GopMeta}
use record_storage.Index.Bolt.{IsBolt, Entry}
use record_storage.Index.Store.{Deps, Idx}
use record_storage.Index.Store.Found.{Stored}
use record_storage.Index.Store.Put.{DifferentKeys}

module _ {E : Type 0} (d : Deps E) where
  -- No entry is of the camera and the key of `m`.
  abbrev pub NoneLike : GopMeta → List Entry → Type 0
  NoneLike m [] = Unit {0}
  NoneLike m (e ∷ es) =
      ((other : GopMeta)
        → d.decode e.1 ≡ some other
        → DifferentKeys d m.camera_id m.start_time other.camera_id other.start_time)
      × NoneLike m es

  abbrev pub AreUnlike : List Entry → Type 0
  AreUnlike [] = Unit {0}
  AreUnlike (e ∷ es) = ((m : GopMeta) → d.decode e.1 ≡ some m → NoneLike m es) × AreUnlike es

module _ {E : Type 0} (d : Deps E) (laws : IsBolt d.bolt) where
  abbrev Held : GopMeta → Idx d → Type 0
  Held m idx = Stored d m.camera_id m idx × (idx.use_v2 ≡ true)
