-- ===== src/Storage/Hybrid/Retry/Attempts.antt =====
-- How often retryValue (internal/storage/seaweed_hybrid.go) calls, and what it keeps.
use record_storage.Common.{
  ℕ, zero, suc, ◌+◌, ◌≤◌, Bool, true, false, Option, none, some, Result, ok, err, if◌then◌else◌,
  arith,
}
use record_storage.Storage.{StorageError}
use record_storage.Storage.Hybrid.Retry

-- A call that also counts how often it is made.
abbrev pub counted :
    {W A : Type 0} → (W → Result StorageError A × W) → ℕ × W → Result StorageError A × (ℕ × W)
counted fn (k, w) = let (r, w') = fn w in (r, (suc k, w'))

abbrev pub uncounted :
    {W : Type 0} → (ℕ → W → Option StorageError × W) → ℕ → ℕ × W → Option StorageError × (ℕ × W)
uncounted wait d (k, w) = let (o, w') = wait d w in (o, (k, w'))

module _ {W A : Type 0} where
  -- A property of the world that the call and the waits keep.
  module _ (P : W → Type 0) (wait : ℕ → W → Option StorageError × W)
      (fn : W → Result StorageError A × W) (wait_keeps : (d : ℕ) (w : W) → P w → P (wait d w).1)
      (fn_keeps : (w : W) → P w → P (fn w).1) where
    after_wait-keeps :
        (again : W → Result StorageError A × W) (r : Option StorageError × W)
        → ((w : W) → P w → P (again w).1)
        → P r.1
        → P (Retry.after_wait again r).1
    unfolding Retry.after_wait
    after_wait-keeps again (some e, w) k p = p
    after_wait-keeps again (none, w) k p = k w p

    keeps_if :
        (b : Bool) (r r' : Result StorageError A × W) → P r.1 → P r'.1 → P (if b then r else r').1
    keeps_if true r r' p q = p
    keeps_if false r r' p q = q

    after_try-keeps :
        (d : ℕ) (again : W → Result StorageError A × W) (r : Result StorageError A × W)
        → ((w : W) → P w → P (again w).1)
        → P r.1
        → P (Retry.after_try (wait d) again r).1
    unfolding Retry.after_try
    after_try-keeps d again (ok a, w) k p = p
    after_try-keeps d again (err e, w) k p =
        keeps_if (Retry.is_retryable_error e) (Retry.after_wait again (wait d w)) (err e, w)
          (after_wait-keeps again (wait d w) k (wait_keeps d w p)) p

    retry_from-keeps : (left n : ℕ) (w : W) → P w → P (Retry.retry_from wait fn left n w).1
    unfolding Retry.retry_from
    retry_from-keeps zero n w p = fn_keeps w p
    retry_from-keeps (suc left) n w p =
        after_try-keeps (Retry.backoff n) (Retry.retry_from wait fn left (suc n)) (fn w)
          (retry_from-keeps left (suc n)) (fn_keeps w p)

    pub retry_value-keeps : (w : W) → P w → P (Retry.retry_value wait fn w).1
    unfolding Retry.retry_value
    retry_value-keeps w p = retry_from-keeps 2 0 w p

  -- A result of retryValue comes from one of the calls.
  abbrev pub OnOk : (A → W → Type 0) → Result StorageError A × W → Type 0
  OnOk Q (ok a, w) = Q a w
  OnOk Q (err e, w) = Unit {0}

  module _ (Q : A → W → Type 0) (wait : ℕ → W → Option StorageError × W)
      (fn : W → Result StorageError A × W) (fn_gives : (w : W) → OnOk Q (fn w)) where
    after_wait-OnOk :
        (again : W → Result StorageError A × W) (r : Option StorageError × W)
        → ((w : W) → OnOk Q (again w))
        → OnOk Q (Retry.after_wait again r)
    unfolding Retry.after_wait
    after_wait-OnOk again (some e, w) k = tt
    after_wait-OnOk again (none, w) k = k w

    OnOk-if :
        (b : Bool) (r : Result StorageError A × W) (e : StorageError) (w : W)
        → OnOk Q r
        → OnOk Q (if b then r else (err e, w))
    OnOk-if true r e w q = q
    OnOk-if false r e w q = tt

    after_try-OnOk :
        (d : ℕ) (again : W → Result StorageError A × W) (r : Result StorageError A × W)
        → ((w : W) → OnOk Q (again w))
        → OnOk Q r
        → OnOk Q (Retry.after_try (wait d) again r)
    unfolding Retry.after_try
    after_try-OnOk d again (ok a, w) k q = q
    after_try-OnOk d again (err e, w) k q =
        OnOk-if (Retry.is_retryable_error e) (Retry.after_wait again (wait d w)) e w
          (after_wait-OnOk again (wait d w) k)

    retry_from-OnOk : (left n : ℕ) (w : W) → OnOk Q (Retry.retry_from wait fn left n w)
    unfolding Retry.retry_from
    retry_from-OnOk zero n w = fn_gives w
    retry_from-OnOk (suc left) n w =
        after_try-OnOk (Retry.backoff n) (Retry.retry_from wait fn left (suc n)) (fn w)
          (retry_from-OnOk left (suc n)) (fn_gives w)

    pub retry_value-OnOk : (w : W) → OnOk Q (Retry.retry_value wait fn w)
    unfolding Retry.retry_value
    retry_value-OnOk w = retry_from-OnOk 2 0 w

module _ {W A : Type 0} (wait : ℕ → W → Option StorageError × W)
    (fn : W → Result StorageError A × W) where
  abbrev calls : ℕ → ℕ → ℕ × W → ℕ
  calls left n w = (Retry.retry_from (uncounted wait) (counted fn) left n w).1.0

  abbrev Between : ℕ → ℕ → ℕ → Type 0
  Between a b n = (a ≤ n) × (n ≤ b)

  Between-if :
      (a b : ℕ) (c : Bool) (r r' : Result StorageError A × (ℕ × W))
      → Between a b r.1.0
      → Between a b r'.1.0
      → Between a b (if c then r else r').1.0
  Between-if a b true r r' h k = h
  Between-if a b false r r' h k = k

  after_wait-calls :
      (a b : ℕ) (again : ℕ × W → Result StorageError A × (ℕ × W)) (o : Option StorageError) (m : ℕ)
      (w : W)
      → Between a b m
      → ((w : W) → Between a b (again (m, w)).1.0)
      → Between a b (Retry.after_wait again (o, (m, w))).1.0
  unfolding Retry.after_wait
  after_wait-calls a b again none m w h k = k w
  after_wait-calls a b again (some e) m w h k = h

  after_try-calls :
      (d a b : ℕ) (again : ℕ × W → Result StorageError A × (ℕ × W))
      (r : Result StorageError A × (ℕ × W))
      → Between a b r.1.0
      → ((w : W) → Between a b (again (r.1.0, w)).1.0)
      → Between a b (Retry.after_try (uncounted wait d) again r).1.0
  unfolding Retry.after_try Retry.after_wait
  after_try-calls d a b again (ok x, w) h k = h
  after_try-calls d a b again (err e, (m, w)) h k =
      Between-if a b (Retry.is_retryable_error e) (Retry.after_wait again (uncounted wait d (m, w)))
        _ (after_wait-calls a b again (wait d w).0 m (wait d w).1 h k) h

  retry_from-calls : (left n k : ℕ) (w : W) → Between (k + 1) (k + left + 1) (calls left n (k, w))
  unfolding Retry.retry_from
  retry_from-calls zero n k w = (omega arith, omega arith)
  retry_from-calls (suc left) n k w =
      after_try-calls (Retry.backoff n) (k + 1) (k + suc left + 1)
        (Retry.retry_from (uncounted wait) (counted fn) left (suc n)) (counted fn (k, w))
        (omega arith, omega arith)
        (λ v.
          let h = retry_from-calls left (suc n) (suc k) v in
          (omega (arith, h.0), omega (arith, h.1)))

  -- retryValue makes its call at least once and at most three times, whatever the call and the waits
  -- between the attempts do.
  pub retry_value-calls :
      (k : ℕ) (w : W)
      → (k + 1 ≤ (Retry.retry_value (uncounted wait) (counted fn) (k, w)).1.0)
        × ((Retry.retry_value (uncounted wait) (counted fn) (k, w)).1.0 ≤ k + 3)
  unfolding Retry.retry_value
  retry_value-calls k w =
      let h = retry_from-calls 2 0 k w in (omega (arith, h.0), omega (arith, h.1))
