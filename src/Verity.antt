-- ===== src/Verity.antt =====
-- lib/verity/verity_hash.c: the hash tree of dm-verity.
pub mod File
pub mod Levels
pub mod Hash
pub mod Stack
pub mod Replay
pub mod Rerun
pub mod RoundTrip
mod Tests
