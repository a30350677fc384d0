-- ===== src/Synthesizer.antt =====
-- pkg/synthesizer: from the devices of the underlying drivers to composite devices and slices.
pub mod Devices
pub mod Combinations
pub mod Groupings
pub mod Build
pub mod Matching
pub mod Explicit
pub mod Pairer
pub mod Publisher
pub mod Watcher
pub mod Cel
pub mod Recompute
pub mod Start
