-- ===== src/Client.antt =====
-- pkg/synurang/synurang.go: calls from Go to Go over channels, without a copy through the network.
pub mod Stream
pub mod Drain
pub mod Pipes
mod Tests
