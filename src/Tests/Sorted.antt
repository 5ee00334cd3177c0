-- ===== src/Tests/Sorted.antt =====
-- A bucket as a list of puts, the last one first, whose entries are sorted when they are read.
use record_storage.Common.{
  ℕ, inl, inr, subst, ◌≡◌, refl, sym, ap, ◌∙◌, true, false, not, none, some, List, [], ◌∷◌, Bytes,
  bytes_eq, bytes_eq_iff, bytes_leb, All, Result, ok, if◌then◌else◌, arith, length, Bool-cases,
}
use record_storage.Index.Bolt.{Bolt, IsBolt, Entry, find, AreSorted}
use record_storage.Index.Cursor.{keep, bytes_leb_trans, bytes_leb_refl}

insert : Entry → List Entry → List Entry
insert e [] = e ∷ []
insert e (x ∷ xs) =
    let rest = insert e xs in
    if bytes_eq e.0 x.0 then e ∷ xs else (if bytes_leb e.0 x.0 then e ∷ x ∷ xs else x ∷ rest)

entries_of : List Entry → List Entry
entries_of [] = []
entries_of (e ∷ es) = insert e (entries_of es)

unfoldable pub sorted_bolt : Bolt ℕ
unfolding entries_of insert
sorted_bolt = record {
  Bucket = List Entry;
  empty = [];
  put = λ k v u. ok ((k, v) ∷ u);
  delete = λ k u. ok (keep (λ (e : Entry). not (bytes_eq e.0 k)) u);
  entries = entries_of;
  key_n = length;
  check_name = λ name. ok tt;
}

find-insert :
    (j : Bytes) (e : Entry) (es : List Entry)
    → find j (insert e es) ≡ (if bytes_eq j e.0 then some e.1 else find j es)
unfolding find insert
find-insert j e [] = refl
find-insert j e (x ∷ xs) =
    ground (arith, find-insert j e xs, (bytes_eq_iff e.0 x.0).0, (bytes_eq_iff j e.0).0)

bytes_leb_antisym :
    (xs ys : Bytes) → bytes_leb xs ys ≡ true → bytes_leb ys xs ≡ true → bytes_eq xs ys ≡ true
unfolding bytes_leb bytes_eq
bytes_leb_antisym [] [] h k = refl
bytes_leb_antisym [] (y ∷ ys) h k = absurd (ground arith)
bytes_leb_antisym (x ∷ xs) [] h k = absurd (ground arith)
bytes_leb_antisym (x ∷ xs) (y ∷ ys) h k = ground (arith, bytes_leb_antisym xs ys)

abbrev Above : Bytes → List Entry → Type 0
Above k = All (λ (e' : Entry). bytes_leb e'.0 k ≡ false)

Above-insert :
    (k : Bytes) (e : Entry) (es : List Entry)
    → bytes_leb e.0 k ≡ false
    → Above k es
    → Above k (insert e es)
unfolding insert
Above-insert k e [] h s = (h, tt)
Above-insert k e (x ∷ xs) h s = elim (Bool-cases (bytes_eq e.0 x.0)) [
  | inl same ↦ rw same (h, s.1)
  | inr other ↦ elim (Bool-cases (bytes_leb e.0 x.0)) [
    | inl le ↦ rw (other, le) (h, s)
    | inr gt ↦ rw (other, gt) (s.0, Above-insert k e xs h s.1)
  ]
]

Above-trans : (k j : Bytes) (es : List Entry) → bytes_leb k j ≡ true → Above j es → Above k es
Above-trans k j [] h s = tt
Above-trans k j (x ∷ xs) h s =
    (ground (arith, bytes_leb_trans x.0 k j, s.0), Above-trans k j xs h s.1)

insert-AreSorted : (e : Entry) (es : List Entry) → AreSorted es → AreSorted (insert e es)
unfolding insert
insert-AreSorted e [] s = (tt, tt)
insert-AreSorted e (x ∷ xs) s = elim (Bool-cases (bytes_eq e.0 x.0)) [
  | inl same ↦ rw same (Above-trans e.0 x.0 xs (below same) s.0, s.1)
  | inr other ↦ elim (Bool-cases (bytes_leb e.0 x.0)) [
    | inl le ↦ rw (other, le) ((above other le, Above-trans e.0 x.0 xs le s.0), s)
    | inr gt ↦ rw (other, gt) (Above-insert x.0 e xs gt s.0, insert-AreSorted e xs s.1)
  ]
]
  where
    below : bytes_eq e.0 x.0 ≡ true → bytes_leb e.0 x.0 ≡ true
    below same = ap (bytes_leb e.0) (sym ((bytes_eq_iff e.0 x.0).0 same)) ∙ bytes_leb_refl e.0

    above : bytes_eq e.0 x.0 ≡ false → bytes_leb e.0 x.0 ≡ true → bytes_leb x.0 e.0 ≡ false
    above other le = ground (arith, bytes_leb_antisym e.0 x.0)

entries_of-AreSorted : (u : List Entry) → AreSorted (entries_of u)
unfolding entries_of
entries_of-AreSorted [] = tt
entries_of-AreSorted (e ∷ es) = insert-AreSorted e (entries_of es) (entries_of-AreSorted es)

find-keep :
    (u : List Entry) (k j : Bytes)
    → find j (entries_of (keep (λ (e : Entry). not (bytes_eq e.0 k)) u))
      ≡ (if bytes_eq j k then none else find j (entries_of u))
unfolding keep entries_of
find-keep [] k j = unfold find in ground arith
find-keep (e ∷ es) k j = elim (Bool-cases (bytes_eq e.0 k)) [
  | inl same ↦
      rw (same, find-insert j e (entries_of es), find-keep es k j)
        (ground (arith, (bytes_eq_iff e.0 k).0))
  | inr other ↦
      rw (other, find-insert j e (entries_of es), find-insert, find-keep es k j)
        (ground (arith, (bytes_eq_iff j e.0).0))
]

found-put :
    (u u' : List Entry) (k v j : Bytes)
    → ◌≡◌ {A = Result ℕ (List Entry)} (ok ((k, v) ∷ u)) (ok u')
    → find j (entries_of u') ≡ (if bytes_eq j k then some v else find j (entries_of u))
unfolding entries_of
found-put u u' k v j put =
    let e : (k, v) ∷ u ≡ u' = cc put in
    subst
      (λ (b : List Entry).
        find j (entries_of b) ≡ (if bytes_eq j k then some v else find j (entries_of u)))
      e (find-insert j (k, v) (entries_of u))

found-delete :
    (u u' : List Entry) (k j : Bytes)
    → ◌≡◌ {A = Result ℕ (List Entry)} (ok (keep (λ (e : Entry). not (bytes_eq e.0 k)) u)) (ok u')
    → find j (entries_of u') ≡ (if bytes_eq j k then none else find j (entries_of u))
found-delete u u' k j deleted =
    let e : keep (λ (e : Entry). not (bytes_eq e.0 k)) u ≡ u' = cc deleted in
    subst
      (λ (b : List Entry).
        find j (entries_of b) ≡ (if bytes_eq j k then none else find j (entries_of u)))
      e (find-keep u k j)

found-empty : entries_of [] ≡ []
unfolding entries_of
found-empty = refl

pub sorted_bolt-IsBolt : IsBolt sorted_bolt
unfolding sorted_bolt
sorted_bolt-IsBolt = record {
  entries-empty = found-empty;
  sorted = entries_of-AreSorted;
  find-put = found-put;
  find-delete = found-delete;
}
