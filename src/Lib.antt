-- ===== src/Lib.antt =====
-- A verification library for the recording server: cameras' samples are grouped into GOPs, packed
-- as fMP4 fragments, written to SeaweedFS by asynchronous workers and listed in a bbolt index; a
-- scheduler starts and stops the recorders.
--
-- How the parts interact: the puller hands samples to a StreamRecorder (Stream), which fills a
-- GOPAssembler (Gop) and, at the next key frame, has an FMP4Builder (Fmp4) build a fragment and
-- submits it as a job to the AsyncWriter (Writer). Workers take jobs in batches, put the objects into
-- the storage backend (Storage.Hybrid) and the entries into the index (Index). Recorders and writer
-- share one memory controller (Memory), whose pressure makes recorders drop frames. The
-- ScheduleController (Schedule) starts and stops recorders. The playback server (Playback) lists the
-- GOPs of a window from the index, reads their objects back through the storage and the fragment
-- parser, and sends the samples that are due over RTP, while a prefetcher reads ahead. The
-- configuration (Config) fixes what the parts are started with.
--
-- Which file models what:
--   Common           Boolean tests, lists, byte strings, results, machine words, big-endian and
--                    decimal numbers
--   Clock            Go's time.Time and time.Duration as nanoseconds since the zero time
--   Sample           internal/recorder/types.go
--   Memory           internal/memory/controller.go: NewController, Allocate, Release,
--                    GetPressureLevel, UpdateMetrics, ShouldDropFrame
--   Gop              internal/recorder/gop_assembler.go: AddSample, Flush, Reset
--   Fmp4             internal/recorder/fmp4_builder.go: writeBox, parseBoxes (Boxes),
--                    encodeSampleData, decodeSampleData (Units), computeSampleDurations (Durations),
--                    BuildInit, BuildFragment, ParseInitSegment, ParseFragment (Builder)
--   Writer           internal/recorder/async_writer.go: Submit in three steps, the workers, Close,
--                    and the measurements of cmd/server/main.go, each an atomic step of some
--                    goroutine; a send on the closed channel ends the process; processJob and
--                    processBatch (Batch)
--   Stream           internal/recorder/stream_recorder.go: Start, Stop, ProcessSample (Process),
--                    rebuildBuilder, FlushGOP (Flush) as actions that keep what they changed when
--                    they fail, and the pieces of these methods that goroutines interleave (Calls)
--   Schedule         internal/recorder/scheduler.go: scheduleMatches and its parts (Match), the
--                    windows it stands for (Window), the ScheduleController (Controller)
--   Storage          internal/storage/interface.go; BuildObjectKey (ObjectKey);
--                    internal/storage/seaweed_hybrid.go (Hybrid): retries, caches, circuit breaker,
--                    compensation, Put, Get, GetRange, Delete and List
--                    internal/storage/grpc_filer_client.go (Filer), grpc_master_client.go (Master),
--                    http_volume_client.go and seaweed_filer_http.go (Http)
--   Index            internal/index/interface.go; internal/index/bolt_index.go: buckets and the walk
--                    with a cursor (Bolt, Cursor), MakeBinaryKey (Keys), GetRecordingRanges
--                    (Ranges), WriteGOP, BatchWriteGOP, QueryRange, WriteEvent and DeleteRange with
--                    both layouts, and the loop of cmd/migrate/main.go (Store)
--   Retention        internal/recorder/retention.go: cleanupCamera
--   Playback         internal/playback: fragment_reader.go (Reader), prefetcher.go (Prefetcher),
--                    rtp_sender.go (Sender) and server.go: the request's path and headers (Request),
--                    shouldSendSample (Scale), runPlayback (Run), the handlers of a session (Session)
--   Puller           internal/puller/rtsp_puller.go: the handlers of the packets of H.264, H.265 and
--                    MPEG-4 (Packets), Start, Stop and the loops of run
--   Config           internal/config/config.go: the structs, applyDefaults (Defaults), Validate
--                    (Validate)
--   Tests            the theorems at concrete inputs
--
-- State is passed explicitly: an operation takes a record and returns the new one, and an error is
-- a value. A method that holds its mutex throughout is one step; the recorder's, which hold it in
-- pieces, are also modelled piece by piece. Integers of a machine width wrap where the source's do;
-- an int64 is kept as its bit pattern. The one quotient of float64s rounds as IEEE 754 does.
-- Instants are natural numbers from the zero time on; a time carries the offset of its location,
-- and the scheduler and retention, which cross changes of the offset, are given the location.
--
-- Fuel: parseBoxes and decodeSampleData run on as much fuel as there are bytes, and one more, and
-- every turn of their loops takes at least four bytes, so it is enough. Retries run on the number
-- of attempts that the source fixes. cleanupCamera starts thirty calendar days before its cutoff
-- and runs on thirty-two turns of 24 hours each. The days of a range query run on as many turns as
-- there are days from the start's to the end's, and three more. The reconnect loop runs over a list
-- of attempts, one for each connection that is tried.
--
-- Parameters: mp4ff, encoding/json and crypto/sha1 (MediaLibrary); the FNV-1a hash (Index.Keys);
-- the clients of the master, the filer and the volume servers, the clock and MD5 (Clients); the
-- stores behind the writer (Stores) and behind retention (RetentionOps); AddDate and the text of a
-- date; bbolt's and JSON's part of the index (Deps); gortsplib and the encoders of RTP (Rtp), what
-- connecting to a camera answers (Attempt); net/url and the parser of times (TextLibrary); the
-- object that the prefetcher's loop over a map meets first; the generated stubs of the filer and
-- the master, net/http (HttpClient) and path (PathLibrary), each call of which answers within its
-- deadline or fails.
--
-- A playback rate is kept in eighths. The prefetches of other goroutines are a list for each turn of
-- runPlayback: those that end before it. What the index and the storage answer does not change
-- while a session is played. The server of sessions is a step relation over the handlers.
--
-- Not modelled: setupHandlers and the transport of the puller's client (registrations with
-- gortsplib), the HTTP API, the metrics, the dialling of the gRPC clients, the loading
-- of a configuration file (YAML), snapshots, the timers, the server command's wiring, and the
-- generated protobuf code. Logging is left out everywhere.
pub mod Clock
pub mod Common
pub mod Config
pub mod Fmp4
pub mod Gop
pub mod Index
pub mod Memory
pub mod Playback
pub mod Puller
pub mod Retention
pub mod Sample
pub mod Schedule
pub mod Storage
pub mod Stream
pub mod Tests
pub mod Writer
