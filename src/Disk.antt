-- ===== src/Disk.antt =====
-- The package `disk`: a log of rotated segments (disk/log.go, disk/sealed.go).
pub mod State
pub mod Ranges
pub mod Scans
pub mod Front
pub mod Fork
pub mod Runs
