-- ===== src/Cache.antt =====
-- pkg/service/cache.go: the SQLite-backed cache.
pub mod Table
pub mod Rows
pub mod Totals
pub mod Engine
pub mod Service
pub mod AsMap
pub mod Updates
pub mod Pausing
pub mod ListEngine
mod Tests
