-- ===== src/Replay.antt =====
-- src/krepe/replay: the library that the replayed program links with.
pub mod Error
pub mod Attributes
pub mod Reader
pub mod Space
pub mod Ranges
pub mod Cli
pub mod Dump
pub mod Store
pub mod Compare
pub mod Load
pub mod Session
pub mod Policy
pub mod Launch
pub mod Functor
