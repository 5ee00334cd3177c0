-- ===== src/Index/Store/Written.antt =====
-- WriteGOP and BatchWriteGOP of internal/index/bolt_index.go against QueryRange.
use record_storage.Common.{List, [], ◌∷◌, Bytes}
use record_storage.Index.{GopMeta}
use record_storage.Index.Store.{Deps, WriteItem}
use record_storage.Index.Store.Put.{DifferentKeys}

module _ {E : Type 0} (d : Deps E) where
  abbrev pub AllDiffer : Bytes → GopMeta → List WriteItem → Type 0
  AllDiffer camera m [] = Unit {0}
  AllDiffer camera m (item ∷ items) =
      DifferentKeys d camera m.start_time item.camera_id item.meta.start_time
      × AllDiffer camera m items

  abbrev pub AreDifferent : List WriteItem → Type 0
  AreDifferent [] = Unit {0}
  AreDifferent (item ∷ items) = AllDiffer item.camera_id item.meta items × AreDifferent items
