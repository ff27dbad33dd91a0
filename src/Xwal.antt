-- ===== src/Xwal.antt =====
-- The package `xwal` (xwal/xwal.go): channels whose records refer to those of the main channel.
pub mod Frames
pub mod Channels
pub mod Lookups
pub mod Appends
pub mod Cuts
pub mod Markers
pub mod Index
pub mod Removal
pub mod Runs
