-- ===== src/Puller.antt =====
-- internal/puller/rtsp_puller.go: the handlers of RTP packets, the client and the loop that
-- reconnects it.
pub mod Packets
pub mod Params
pub mod Reconnect
pub mod Waits
pub mod Clients
