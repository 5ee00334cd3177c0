-- ===== src/Writer/Accounting.antt =====
-- The memory that internal/recorder/async_writer.go holds for its jobs.
use record_storage.Writer.{Writer}
use record_storage.Writer.Steps.{Steps}
