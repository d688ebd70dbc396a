-- ===== src/Plugin.antt =====
-- pkg/synurang/plugin.go, plugin_unix.go and plugin_conn.go: the host's side of a plugin.
pub mod Wire
pub mod Platform
pub mod Library
pub mod Unloading
pub mod Balance
pub mod Closing
pub mod Calls
pub mod Conn
mod Tests
pub mod Errors
pub use Errors.*
