-- ===== src/Luks2/Disk.antt =====
-- lib/luks2/luks2_disk_metadata.c: reading, writing and recovering the two copies of the header.
pub mod Env
pub mod Checksum
pub mod Write
pub mod Parse
pub mod Read
pub mod RoundTrip
pub mod Crash
pub mod Sequence
pub mod Reload
mod Tests
