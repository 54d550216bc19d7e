-- ===== src/Extract.antt =====
-- src/krepe/extract: the header that the captured program includes.
pub mod Bounds
pub mod Forward
pub mod Closures
pub mod Launch
pub mod Tests
