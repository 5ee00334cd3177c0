-- ===== src/Index/Store/Emptied.antt =====
-- The walk that DeleteRange of internal/index/bolt_index.go deletes, walked again afterwards.
use record_storage.Common.{
  ◌≡◌, refl, sym, ap, subst, ◌∙◌, inl, inr, Bool, ◌&&◌, some, List, [], ◌∷◌, ◌++◌, Bytes,
  bytes_eq_refl, starts_with, Option-cases, ok, >>=-eq-ok, Bool-cases, if◌then◌else◌, arith,
}
use record_storage.Clock.{Time}
use record_storage.Index.Bolt.{IsBolt, Entry, find}
use record_storage.Index.Cursor.{
  In, keep, In-keep, keep-In, none-In, In-find, find-In, walk-eq-keep, in_range,
}
use record_storage.Index.Keys.{make_binary_key}
use record_storage.Index.Store.{Deps, delete_all, walk_date, walk_gops, make_gop_key}

keep-keep :
    {A : Type 0} (q r : A → Bool) (xs : List A)
    → keep q (keep r xs) ≡ keep (λ (a : A). r a && q a) xs
unfolding keep
keep-keep q r [] = refl
keep-keep q r (x ∷ xs) = elim (Bool-cases (r x)) [
  | inl t ↦ rw t (ap (λ rest. if q x then x ∷ rest else rest) (keep-keep q r xs))
  | inr t ↦ rw t (keep-keep q r xs)
]

-- What a deletion of entries leaves was there before, and is none of them.
find-delete_all :
    {E : Type 0} (d : Deps E) (laws : IsBolt d.bolt) (es : List Entry) (u u' : d.bolt.Bucket)
    (j v : Bytes)
    → delete_all d es u ≡ ok u'
    → find j (d.bolt.entries u') ≡ some v
    → (find j (d.bolt.entries u) ≡ some v) × ((w : Bytes) → In (j, w) es → ⊥)
unfolding delete_all
find-delete_all d laws [] u u' j v done found =
    (subst (λ (b : d.bolt.Bucket). find j (d.bolt.entries b) ≡ some v) (cc done) found, λ w i. i)
find-delete_all d laws (e ∷ es) u u' j v done found =
    let (u1, first, rest) = >>=-eq-ok (d.bolt.delete e.0 u) _ done in
    let (before, others) = find-delete_all d laws es u1 u' j v rest found in
    let law = laws.find-delete u u1 e.0 j first in
    (
      ground (arith, law, before),
      λ (w : Bytes) (i : In (j, w) (e ∷ es)). elim i [
        | inl p ↦ ground (arith, law, before, bytes_eq_refl j, ap (λ (x : Entry). x.0) p)
        | inr i' ↦ others w i'
      ],
    )

-- After the deletion of all entries whose keys pass a test, no key passes it.
keep-delete_all :
    {E : Type 0} (d : Deps E) (laws : IsBolt d.bolt) (p : Bytes → Bool) (u u' : d.bolt.Bucket)
    → delete_all d (keep (λ (e : Entry). p e.0) (d.bolt.entries u)) u ≡ ok u'
    → keep (λ (e : Entry). p e.0) (d.bolt.entries u') ≡ []
keep-delete_all d laws p u u' done = none-In _ λ e i.
    let (there, passes) = keep-In (λ (x : Entry). p x.0) e _ i in
    elim (Option-cases (find e.0 (d.bolt.entries u'))) [
      | inl missing ↦ In-find e.0 e.1 _ there missing
      | inr found ↦
          let (before, others) = find-delete_all d laws _ u u' e.0 found.0 done found.1 in
          others found.0
            (In-keep (λ (x : Entry). p x.0) (e.0, found.0) _ (find-In e.0 found.0 _ before) passes)
    ]

module _ {E : Type 0} (d : Deps E) (laws : IsBolt d.bolt) (camera : Bytes) (start end : Time) where
  pub walk_date-delete_all :
      (u u' : d.bolt.Bucket)
      → delete_all d (walk_date d camera start end u) u ≡ ok u'
      → walk_date d camera start end u' ≡ []
  unfolding walk_date in_range
  walk_date-delete_all u u' done =
      let from = make_binary_key d.hash camera start in
      let to = make_binary_key d.hash camera end in
      walk-eq-keep from to _ (laws.sorted u')
      ∙ keep-delete_all d laws (λ k. in_range from to (k, [])) u u'
          (sym (ap (λ es. delete_all d es u) (walk-eq-keep from to _ (laws.sorted u))) ∙ done)

  pub walk_gops-delete_all :
      (u u' : d.bolt.Bucket)
      → delete_all d (walk_gops d camera start end u) u ≡ ok u'
      → walk_gops d camera start end u' ≡ []
  unfolding walk_gops in_range
  walk_gops-delete_all u u' done =
      let p = λ (k : Bytes).
        in_range (make_gop_key camera start) (make_gop_key camera end) (k, [])
        && starts_with (camera ++ (b':' ∷ [])) k in
      selected u'
      ∙ keep-delete_all d laws p u u' (sym (ap (λ es. delete_all d es u) (selected u)) ∙ done)
    where
      selected :
          (b : d.bolt.Bucket)
          → walk_gops d camera start end b
            ≡ keep
                (λ (e : Entry).
                  in_range (make_gop_key camera start) (make_gop_key camera end) (e.0, [])
                  && starts_with (camera ++ (b':' ∷ [])) e.0)
                (d.bolt.entries b)
      selected b =
          ap (keep (λ (e : Entry). starts_with (camera ++ (b':' ∷ [])) e.0))
            (walk-eq-keep (make_gop_key camera start) (make_gop_key camera end) _ (laws.sorted b))
          ∙ keep-keep _ _ (d.bolt.entries b)
