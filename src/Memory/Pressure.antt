-- ===== src/Memory/Pressure.antt =====
-- The pressure levels of internal/memory/controller.go and the frames that they drop.
use record_storage.Common.{false, false}
