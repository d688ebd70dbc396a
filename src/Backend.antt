-- ===== src/Backend.antt =====
-- cmd/server/main.go: the parts of the FFI server that are not calls of C.
pub mod Metadata
pub mod MetadataLaws
pub mod Lifecycle
pub mod Restart
pub mod Invoke
pub mod Exports
pub mod Streams
pub mod Callback
mod Tests
