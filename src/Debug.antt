-- ===== src/Debug.antt =====
-- pkg/debug/goroutine_tracker.go: the differences between two dumps of the goroutines.
pub mod Text
pub mod Block
pub mod Tracker
pub mod Balance
pub mod Totals
pub mod Receivers
mod Tests
