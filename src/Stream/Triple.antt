-- ===== src/Stream/Triple.antt =====
-- Before-and-after conditions of the actions of a recorder: one condition after success, which may
-- name the result, and one after an error.
use record_storage.Common.{Result, ok, err}
use record_storage.Stream.Actions.{Stream, RecorderError, Act, ◌>>=◌, continue}

abbrev pub After :
    {A : Type 0}
    → (A → Stream → Type 0)
    → (Stream → Type 0)
    → Result RecorderError A × Stream
    → Type 0
After Q E (ok a, s) = Q a s
After Q E (err e, s) = E s

pub record Triple {A : Type 0} (P : Stream → Type 0) (m : Act A) (Q : A → Stream → Type 0)
    (E : Stream → Type 0) : Type 0 where
  pub at : (s : Stream) → P s → After Q E (m s)

module _ {A B : Type 0} {Q : A → Stream → Type 0} {R : B → Stream → Type 0}
    {E : Stream → Type 0} where
  After-continue :
      (f : A → Act B) (r : Result RecorderError A × Stream)
      → ((a : A) → Triple (Q a) (f a) R E)
      → After Q E r
      → After R E (continue r.0 f r.1)
  After-continue f (ok a, s) t h = (t a).at s h
  After-continue f (err e, s) t h = h

  pub bind :
      {P : Stream → Type 0} (m : Act A) (f : A → Act B)
      → Triple P m Q E
      → ((a : A) → Triple (Q a) (f a) R E)
      → Triple P (m >>= f) R E
  bind m f t k = record { at = λ s p. After-continue f (m s) k (t.at s p) }
