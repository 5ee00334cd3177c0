-- ===== src/Index/Cursor.antt =====
-- `for k, v := c.Seek(from); k != nil && string(k) <= string(to); k, v = c.Next()` on a bucket's
-- entries (internal/index/bolt_index.go).
use record_storage.Common.{
  ◌≡◌, ◌∙◌, ◌⊎◌, inl, inr, refl, sym, ap, subst, Bool, true, false, ◌&&◌, none, some, List, [], ◌∷◌,
  Bytes, bytes_eq, bytes_eq_iff, bytes_eq_refl, bytes_leb, All, if◌then◌else◌, arith, Bool-cases,
}
use record_storage.Index.Bolt.{Entry, find, AreSorted}

unfoldable pub seek : Bytes → List Entry → List Entry
seek from [] = []
seek from (e ∷ es) = let rest = seek from es in if bytes_leb from e.0 then e ∷ es else rest

unfoldable pub up_to : Bytes → List Entry → List Entry
up_to to [] = []
up_to to (e ∷ es) = let rest = up_to to es in if bytes_leb e.0 to then e ∷ rest else []

unfoldable pub walk : Bytes → Bytes → List Entry → List Entry
walk from to es = up_to to (seek from es)

abbrev pub In : {A : Type 0} → A → List A → Type 0
In a [] = ⊥
In a (x ∷ xs) = (a ≡ x) ⊎ In a xs

-- The entries that pass a test.
unfoldable pub keep : {A : Type 0} → (A → Bool) → List A → List A
keep p [] = []
keep p (x ∷ xs) = let rest = keep p xs in if p x then x ∷ rest else rest

module _ {A : Type 0} (p : A → Bool) where
  pub In-keep : (a : A) (xs : List A) → In a xs → p a ≡ true → In a (keep p xs)
  unfolding keep
  In-keep a [] i h = elim i [ ]
  In-keep a (x ∷ xs) (inl e) h = rw (sym (ap p e) ∙ h) (inl e)
  In-keep a (x ∷ xs) (inr i) h = elim (Bool-cases (p x)) [
    | inl t ↦ rw t (inr (In-keep a xs i h))
    | inr t ↦ rw t (In-keep a xs i h)
  ]

  pub keep-In : (a : A) (xs : List A) → In a (keep p xs) → In a xs × (p a ≡ true)
  unfolding keep
  keep-In a [] i = elim i [ ]
  keep-In a (x ∷ xs) i = elim (Bool-cases (p x)) [
    | inl t ↦ kept a x xs t (keep-In a xs) (rw t at i)
    | inr t ↦ let r = keep-In a xs (rw t at i) in (inr r.0, r.1)
  ]
    where
      kept :
          (a x : A) (xs : List A)
          → p x ≡ true
          → (In a (keep p xs) → In a xs × (p a ≡ true))
          → In a (x ∷ keep p xs)
          → In a (x ∷ xs) × (p a ≡ true)
      kept a x xs t rest (inl e) = (inl e, ap p e ∙ t)
      kept a x xs t rest (inr i) = (inr (rest i).0, (rest i).1)

-- A list without members is empty.
pub none-In : {A : Type 0} (xs : List A) → ((a : A) → In a xs → ⊥) → xs ≡ []
none-In [] h = refl
none-In (x ∷ xs) h = absurd (h x (inl refl))

pub All-In : {A : Type 0} (P : A → Type 0) (a : A) (xs : List A) → All P xs → In a xs → P a
All-In P a [] h i = elim i [ ]
All-In P a (x ∷ xs) h (inl e) = subst P (sym e) h.0
All-In P a (x ∷ xs) h (inr i) = All-In P a xs h.1 i

pub bytes_leb_refl : (xs : Bytes) → bytes_leb xs xs ≡ true
unfolding bytes_leb
bytes_leb_refl [] = refl
bytes_leb_refl (x ∷ xs) = ground (arith, bytes_leb_refl xs)

pub bytes_leb_total : (xs ys : Bytes) → bytes_leb xs ys ≡ false → bytes_leb ys xs ≡ true
unfolding bytes_leb
bytes_leb_total [] ys h = ground arith
bytes_leb_total (x ∷ xs) [] h = refl
bytes_leb_total (x ∷ xs) (y ∷ ys) h = ground (arith, bytes_leb_total xs ys)

pub bytes_leb_trans :
    (xs ys zs : Bytes) → bytes_leb xs ys ≡ true → bytes_leb ys zs ≡ true → bytes_leb xs zs ≡ true
unfolding bytes_leb
bytes_leb_trans [] ys zs h k = refl
bytes_leb_trans (x ∷ xs) [] zs h k = absurd (ground arith)
bytes_leb_trans (x ∷ xs) (y ∷ ys) [] h k = absurd (ground arith)
bytes_leb_trans (x ∷ xs) (y ∷ ys) (z ∷ zs) h k = ground (arith, bytes_leb_trans xs ys zs)

unfoldable pub in_range : Bytes → Bytes → Entry → Bool
in_range from to e = bytes_leb from e.0 && bytes_leb e.0 to

All-above :
    (from : Bytes) (e : Entry) (es : List Entry)
    → bytes_leb from e.0 ≡ true
    → All (λ (e' : Entry). bytes_leb e'.0 e.0 ≡ false) es
    → All (λ (e' : Entry). bytes_leb from e'.0 ≡ true) es
All-above from e [] h s = tt
All-above from e (e' ∷ es) h s =
    (bytes_leb_trans from e.0 e'.0 h (bytes_leb_total e'.0 e.0 s.0), All-above from e es h s.1)

none_up_to :
    (from to : Bytes) (e : Entry) (es : List Entry)
    → bytes_leb e.0 to ≡ false
    → All (λ (e' : Entry). bytes_leb e'.0 e.0 ≡ false) es
    → [] ≡ keep (in_range from to) es
unfolding keep in_range
none_up_to from to e [] h s = refl
none_up_to from to e (e' ∷ es) h s = ground (
  arith,
  none_up_to from to e es h s.1,
  bytes_leb_trans e.0 e'.0 to,
  bytes_leb_total e'.0 e.0 s.0,
)

-- From an entry on that is not below the start of the range.
up_to-eq-keep :
    (from to : Bytes) (es : List Entry)
    → All (λ (e : Entry). bytes_leb from e.0 ≡ true) es
    → AreSorted es
    → up_to to es ≡ keep (in_range from to) es
unfolding up_to keep in_range
up_to-eq-keep from to [] h s = refl
up_to-eq-keep from to (e ∷ es) h s =
    ground (arith, up_to-eq-keep from to es h.1 s.1, none_up_to from to e es, s.0, h.0)

skip_below :
    (from to : Bytes) (e : Entry) (es : List Entry)
    → bytes_leb from e.0 ≡ false
    → walk from to es ≡ keep (in_range from to) es
    → walk from to es ≡ keep (in_range from to) (e ∷ es)
unfolding keep in_range
skip_below from to e es t h = rw t h

-- On a sorted bucket, a walk visits the entries of its range.
pub walk-eq-keep :
    (from to : Bytes) (es : List Entry)
    → AreSorted es
    → walk from to es ≡ keep (in_range from to) es
unfolding walk seek
walk-eq-keep from to [] s = unfold up_to keep in refl
walk-eq-keep from to (e ∷ es) s = elim (Bool-cases (bytes_leb from e.0)) [
  | inl t ↦ rw t (up_to-eq-keep from to (e ∷ es) (t, All-above from e es t s.0) s)
  | inr t ↦ rw t (skip_below from to e es t (walk-eq-keep from to es s.1))
]

pub In-find : (k v : Bytes) (es : List Entry) → In (k, v) es → find k es ≡ none → ⊥
unfolding find
In-find k v [] i h = elim i [ ]
In-find k v (e ∷ es) (inl p) h = absurd (ground (arith, bytes_eq_refl k, ap (λ (x : Entry). x.0) p))
In-find k v (e ∷ es) (inr i) h = elim (Bool-cases (bytes_eq k e.0)) [
  | inl t ↦ absurd (ground arith)
  | inr t ↦ In-find k v es i (rw t at h)
]

pub find-In : (k v : Bytes) (es : List Entry) → find k es ≡ some v → In (k, v) es
unfolding find
find-In k v [] h = absurd (ground arith)
find-In k v (e ∷ es) h = elim (Bool-cases (bytes_eq k e.0)) [
  | inl t ↦ inl (ground (arith, (bytes_eq_iff k e.0).0))
  | inr t ↦ inr (find-In k v es (rw t at h))
]
