-- ===== src/Capture.antt =====
-- src/krepe/capture: the tool that Kokkos loads into the captured program.
pub mod Tracker
pub mod DataSize
pub mod Names
pub mod Copy
pub mod Policy
pub mod Hooks
pub mod Dump
