-- ===== src/Common.antt =====
-- src/krepe/common: what the tool, the extractor and the replayer share.
pub mod Bytes
pub mod Lambdas
