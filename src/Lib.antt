-- ===== src/Lib.antt =====
-- cryptsetup: disk encryption with LUKS. This library models the parts of libcryptsetup that decide
-- what is on disk, and proves what they promise.
--
-- Parts, and the files that model them:
--
-- Base: what the models share. A C function that returns 0 or a negative errno returns a `Result`; a
-- buffer is a list of bytes; a w-bit sum is written with `% 2 ^ w`. Base/Endian is lib/bitops.h.
--
-- Af: lib/luks1/af.c, the anti-forensic splitter. `af_split`, `af_merge`, `diffuse` and `hash_buf` are
-- AF_split, AF_merge, diffuse and hash_buf. The hash and the random numbers are the record `Crypto`.
--
-- Storage: lib/crypto_backend/crypto_storage.c, sector encryption. `sector_iv_generate`,
-- `storage_encrypt`, `storage_decrypt` and `storage_init` are the crypt_ functions of those names; the
-- ciphers are the record `Backend`. Fuel: `int_log2` halves a 32-bit number, so 32 rounds are enough.
--
-- Luks1: lib/luks1/keymanage.c, the LUKS1 header: the layout of a new one (the first part of
-- LUKS_generate_phdr), LUKS_check_keyslots and the queries on keyslots. A keyslot that a caller names is
-- not negative. Layout is about the check, Ascending and Generate are about the new header.
--
-- Luks2/Struct: the structs luks2_hdr_disk and luks2_hdr of lib/luks2/luks2.h, their layout in bytes
-- and the conversions between them.
--
-- Luks2/Device: the metadata device, a list of bytes. Writing takes from a quota, so that every point
-- at which a run of writes can stop is a value of the model. It is what Luks2/Disk sees of lib/utils_io.c.
--
-- Luks2/Disk: lib/luks2/luks2_disk_metadata.c. Env holds what that file calls: json-c, the hash, locks,
-- libblkid, and the validation and repair of the JSON metadata, which
-- lib/luks2/luks2_json_metadata.c implements. Checksum has the reading of one copy of the header
-- (hdr_read_disk), Write the writing of one copy and of both (hdr_write_disk, LUKS2_disk_hdr_write),
-- Parse the JSON area, Sequence the check of the sequence id, and Read the choice between two copies
-- and recovery (LUKS2_disk_hdr_read). A header copy is read by Read through Checksum, and repaired by
-- Read through Write.
--
-- Io: lib/utils_io.c, reading and writing at any offset of a device with blocks. The kernel is a list
-- of events, of which each call takes one: a short transfer, an interruption or a failure; after the
-- last event a call transfers all it can, so the loops end. `read_loop` and `write_loop` are
-- _read_buffer and _write_buffer; Io/Place and Io/Read compare the whole with a list of bytes.
--
-- Json: json-c as an interface, the record `JsonC` with the laws `IsJsonC`; Json/Sample is a value that
-- meets it. Decimal has strtoull, atoi for numbers that fit an int, and snprintf with %u (20 digits
-- are enough for 64 bits). The helpers of lib/luks2/luks2_json_metadata.c on arrays and numbers are
-- here too.
--
-- Luks2/Segment: lib/luks2/luks2_segment.c, over that interface: `segment_get_offset` is
-- json_segment_get_offset, and so on.
--
-- Luks2/Areas: the binary areas of the keyslots, lib/luks2/luks2_json_format.c: the search for free
-- space (`find_area_gap`, `find_area_max_gap`), with what it reads of the header in the record
-- `Layout`, and validate_intervals of lib/luks2/luks2_json_metadata.c. The table is sorted in 32 rounds
-- as in C, which is enough since there are at most 32 keyslots.
--
-- Luks2/Validate: LUKS2_hdr_validate of lib/luks2/luks2_json_metadata.c and the checks it makes, with
-- those of the keyslot handlers in lib/luks2/luks2_keyslot.c, luks2_keyslot_luks2.c and
-- luks2_keyslot_reenc.c. A check is a Boolean function that is `true` where C returns 0. Layout ties the
-- metadata to the search in Luks2/Areas. A member that an earlier check has required is read as empty
-- where it is missing.
--
-- Luks2/Digest: lib/luks2/luks2_digest.c, and the queries of lib/luks2/luks2_keyslot.c that need it
-- (LUKS2_keyslot_info, LUKS2_keyslot_find_empty). json-c changes a value in place; here the header's
-- changed value is returned (`put_digest`). The loops count to LUKS2_DIGEST_MAX and LUKS2_KEYSLOTS_MAX.
--
-- Luks2/Requirements: LUKS2_config_get_requirements and LUKS2_config_set_requirements of
-- lib/luks2/luks2_json_metadata.c.
--
-- Wrapper: lib/utils_storage_wrappers.c, data of a segment on a device that is read and written through
-- a cipher of Storage, through a temporary dm-crypt device, or as it is.
--
-- Luks2/Reencrypt: lib/luks2/luks2_reencrypt.c. Hotzone has the protection of the hot zone
-- (reencrypt_hotzone_protect_final) and its recovery (reencrypt_recover_segment), over two wrappers and
-- the devices for data and metadata. Length has reencrypt_length, and Window the offsets of the hot
-- zone (reencrypt_context_init, reencrypt_context_update) and the loop of crypt_reencrypt, whose step is
-- a parameter. Fuel: every step moves the hot zone by one byte at least, so two rounds more than there
-- are bytes left are enough.
--
-- Verity: lib/verity/verity_hash.c, the hash tree of dm-verity. Levels has `hash_levels` (64 rounds
-- count the levels and the bits, since each halves a 64-bit number), File the calls fread, fwrite and
-- fseeko on a file of fixed size, and Hash the function create_or_verify on one level. The file that is
-- read and the one that is written do not share bytes. The hash is the record `Crypto`.
--
-- Not modelled: system calls, device-mapper, libraries that are copied into the repository (Argon2,
-- base64, Reed-Solomon), the command line tools, and debug messages. A failure of malloc is modelled
-- in Luks2/Disk and nowhere else. A failed read leaves the caller's struct as it was; in C it may be
-- half filled, but no caller looks at it before it is overwritten, except for the salt of a copy that
-- is not recovered.
pub mod Base
pub mod Af
pub mod Io
pub mod Json
pub mod Luks1
pub mod Luks2
pub mod Storage
pub mod Verity
pub mod Wrapper
