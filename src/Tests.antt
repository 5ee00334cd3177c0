-- ===== src/Tests.antt =====
-- Runs of the theorems at concrete inputs.
mod Data
mod Recorder
mod Fragments
mod Writing
mod Control
mod Backend
mod Indexing
mod Retaining
mod Sorted
mod Encoding
mod Filing
mod Bbolt
mod Pulling
mod Playing
mod Sessions
mod Configuring
