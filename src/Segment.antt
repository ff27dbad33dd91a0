-- ===== src/Segment.antt =====
-- The package `segment`: one append-only file of frames (segment/*.go).
pub mod Bytes
pub mod Crc
pub mod Codec
pub mod Binary
pub mod State
pub mod Runs
