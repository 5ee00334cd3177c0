-- ===== src/Playback/Run/Plan.antt =====
-- What runPlayback of internal/playback/server.go is to send: a description without a player, a
-- cache or a clock.
use record_storage.Common.{ℕ, ◌≡◌, Option, List, [], ◌∷◌, ◌++◌, Result, ok, err, if◌then◌else◌}
use record_storage.Clock.{Time, before}
use record_storage.Sample.{Sample}
use record_storage.Index.{GopMeta}
use record_storage.Playback.Scale.{should_send_sample}
use record_storage.Playback.Run.{after_end}

-- Of samples in a row: those up to the first one past the end that are not before the start and that
-- the scale lets through.
unfoldable pub expected : Time → Option Time → ℕ → List Sample → List Sample
expected start end scale [] = []
expected start end scale (s ∷ ss) =
    let rest = expected start end scale ss in
    if before s.timestamp start
    then rest
    else if after_end s.timestamp end
    then []
    else if should_send_sample s scale
    then s ∷ rest
    else rest

-- Samples that were read, and those behind them.
unfoldable pub followed_by : {E : Type 0} → Result E (List Sample) → List Sample → List Sample
followed_by (err e) rest = []
followed_by (ok samples) rest = samples ++ rest

-- All samples of the GOPs that reach the start, up to the first that starts past the end or cannot
-- be read.
unfoldable pub recorded :
    {E : Type 0}
    → (GopMeta → Result E (List Sample))
    → Time
    → Option Time
    → List GopMeta
    → List Sample
recorded read start end [] = []
recorded read start end (meta ∷ metas) =
    let rest = recorded read start end metas in
    if before meta.end_time start
    then rest
    else if after_end meta.start_time end
    then []
    else followed_by (read meta) rest

-- `xs` is an initial part of `ys`.
abbrev pub IsPrefix : {A : Type 0} → List A → List A → Type 0
IsPrefix {A} xs ys = (rest : List A) × (xs ++ rest ≡ ys)
