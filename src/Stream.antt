-- ===== src/Stream.antt =====
-- internal/recorder/stream_recorder.go: the state machine that records one camera. The state holds
-- the recorder and what it shares: the writer, with the memory controller that main attaches to
-- both, and the events written to the index, whose failures are only logged.
pub mod Actions
pub mod Triple
pub mod Flush
pub mod Process
pub mod Lifecycle
pub mod Control
pub mod Invariant
pub mod Taken
pub mod Safety
pub mod Calls
pub mod Sound
pub mod Pieces
pub mod Alone
pub mod Reach
