-- ===== src/Index/Bolt.antt =====
-- bbolt, as far as internal/index/bolt_index.go uses it: a bucket is an abstract type with its
-- operations, and a cursor walks its entries in the order of the keys.
use record_storage.Common.{
  ℕ, ◌≡◌, false, Option, none, some, List, [], ◌∷◌, Bytes, bytes_eq, bytes_leb, All, Result, ok,
  if◌then◌else◌,
}

abbrev pub Entry : Type 0
Entry = Bytes × Bytes

-- CreateBucketIfNotExists fails by its name alone. KeyN counts the keys of the pages on the disk.
pub record Bolt (E : Type 0) : Type 1 where
  pub Bucket : Type 0
  pub empty : Bucket
  pub put : Bytes → Bytes → Bucket → Result E Bucket
  pub delete : Bytes → Bucket → Result E Bucket
  pub entries : Bucket → List Entry
  pub key_n : Bucket → ℕ
  pub check_name : Bytes → Result E (Unit {0})

-- The value of a key.
unfoldable pub find : Bytes → List Entry → Option Bytes
find key [] = none
find key (e ∷ es) = let rest = find key es in if bytes_eq key e.0 then some e.1 else rest

-- Every key is below all later ones.
abbrev pub AreSorted : List Entry → Type 0
AreSorted [] = Unit {0}
AreSorted (e ∷ es) = All (λ (e' : Entry). bytes_leb e'.0 e.0 ≡ false) es × AreSorted es

-- What bbolt documents.
pub record IsBolt {E : Type 0} (b : Bolt E) : Type 0 where
  pub entries-empty : b.entries b.empty ≡ []
  pub sorted : (u : b.Bucket) → AreSorted (b.entries u)
  pub find-put :
      (u u' : b.Bucket) (k v j : Bytes)
      → b.put k v u ≡ ok u'
      → find j (b.entries u') ≡ (if bytes_eq j k then some v else find j (b.entries u))
  pub find-delete :
      (u u' : b.Bucket) (k j : Bytes)
      → b.delete k u ≡ ok u'
      → find j (b.entries u') ≡ (if bytes_eq j k then none else find j (b.entries u))
