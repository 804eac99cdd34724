-- ===== src/Luks2.antt =====
-- lib/luks2: the LUKS2 on-disk format.
pub mod Struct
pub mod Device
pub mod Disk
pub mod Areas
pub mod Segment
pub mod Validate
pub mod Digest
pub mod Requirements
pub mod Reencrypt
