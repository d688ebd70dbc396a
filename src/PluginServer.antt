-- ===== src/PluginServer.antt =====
-- pkg/plugin/server.go: the plugin's side of a streaming call, behind the C interface. A channel of
-- values is a `Chan`; `cancelled` says whether the stream's context is done. An error is its text.
pub mod Streams
pub mod Bounds
pub mod Drain
pub mod Loss
pub mod Lifecycle
mod Tests
pub use Streams.*
