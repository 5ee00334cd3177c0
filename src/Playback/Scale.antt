-- ===== src/Playback/Scale.antt =====
-- parseScale and shouldSendSample of internal/playback/server.go. A scale is a number of eighths,
-- which the source's floating-point constants are exactly.
use record_storage.Common.{
  ℕ, Bool, true, not, Option, none, some, List, [], ◌∷◌, Bytes, codes, bytes_eq, leb, if◌then◌else◌,
}
use record_storage.Sample.{Sample, is_b}
use record_storage.Playback.Request.Text.{trim_space}

-- 1.0
abbrev pub normal : ℕ
normal = 8

-- The switch of parseScale on the trimmed text; none is its error.
scale_of : Bytes → List (Bytes × ℕ) → Option ℕ
scale_of value [] = none
scale_of value ((text, scale) ∷ cases) =
    let rest = scale_of value cases in if bytes_eq value text then some scale else rest

abbrev scales : List (Bytes × ℕ)
scales =
    (codes "0.125", 1)
    ∷ (codes "0.25", 2)
    ∷ (codes "0.5", 4)
    ∷ (codes "1", 8)
    ∷ (codes "1.0", 8)
    ∷ ([], 8)
    ∷ (codes "2", 16)
    ∷ (codes "2.0", 16)
    ∷ (codes "4", 32)
    ∷ (codes "4.0", 32)
    ∷ (codes "8", 64)
    ∷ (codes "8.0", 64)
    ∷ (codes "16", 128)
    ∷ (codes "16.0", 128)
    ∷ []

unfoldable pub parse_scale : Bytes → Option ℕ
unfolding scale_of
parse_scale value = scale_of (trim_space value) scales

unfoldable pub should_send_sample : Sample → ℕ → Bool
should_send_sample sample scale =
    if leb 64 scale
    then sample.is_key
    else if leb 32 scale
    then not (is_b sample.frame_type)
    else true
