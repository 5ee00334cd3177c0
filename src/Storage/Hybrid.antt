-- ===== src/Storage/Hybrid.antt =====
-- internal/storage/seaweed_hybrid.go: the hybrid backend, which assigns a file at the master, writes
-- it to a volume server and registers it at the filer, and falls back to the filer's HTTP interface
-- while the control plane fails. The clients and the clock act on a world of their own, which is a
-- parameter; timeouts of single calls belong to the clients, and metrics are left out.
pub mod Retry
pub mod State
pub mod Caches
pub mod Breaker
pub mod Compensation
pub mod Objects
