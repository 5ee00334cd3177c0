-- ===== src/Fmp4.antt =====
-- internal/recorder/fmp4_builder.go: the MP4 boxes around an init segment's metadata, NAL units as
-- length-prefixed sample data, sample durations, and the building and parsing of segments.
pub mod Boxes
pub mod Units
pub mod Durations
pub mod Builder
