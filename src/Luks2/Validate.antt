-- ===== src/Luks2/Validate.antt =====
-- lib/luks2/luks2_json_metadata.c: the checks that a header's JSON metadata has to pass, and the
-- checks of the keyslots in lib/luks2/luks2_keyslot.c. `true` stands for a return value of 0.
pub mod Fields
pub mod Segments
pub mod Keyslots
pub mod Header
pub mod Intervals
pub mod Regular
pub mod Areas
pub mod Sizes
pub mod Layout
pub mod References
pub mod Backup
pub mod Gapless
mod Tests
