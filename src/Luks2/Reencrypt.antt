-- ===== src/Luks2/Reencrypt.antt =====
-- lib/luks2/luks2_reencrypt.c: reencryption of a device while it may be in use.
pub mod Hotzone
pub mod Length
pub mod Window
mod Tests
