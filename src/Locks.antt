-- ===== src/Locks.antt =====
-- Byte-range locks: internal/parent/lock_ranges.go, lock.go and lock_darwin.go.
pub mod Range
pub mod Table
pub mod Manager
pub mod Request
