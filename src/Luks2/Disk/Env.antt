-- ===== src/Luks2/Disk/Env.antt =====
-- What lib/luks2/luks2_disk_metadata.c calls and does not implement: json-c, the hash library, the
-- random number generator, locks, libblkid, and the checks of the JSON metadata that stand in
-- lib/luks2/luks2_json_metadata.c.
use cryptsetup.Base.{ℕ, List, Bool, Option, Result, ◌≡◌, length, ok, ◌≤◌, ◌<◌}

pub record Env : Type 1 where
  -- A JSON value of json-c, and `json_tokener_parse_ex`: the value and the bytes that it took.
  pub Json : Type 0
  pub parse : List ℕ → Option (Json × ℕ)
  pub is_object : Json → Bool
  -- `json_object_to_json_string_ext`; empty if it fails.
  pub print : Json → List ℕ
  -- `!LUKS2_hdr_validate`, `LUKS2_hdr_repair` and `LUKS2_hdr_and_areas_size_jobj`.
  pub is_valid : Json → ℕ → Bool
  pub repair : Json → Json
  pub areas_size : Json → ℕ
  -- `crypt_hash_size` (0 for an unknown hash) and the digest of all that is written to the hash.
  pub hash_size : List ℕ → ℕ
  pub digest : List ℕ → List ℕ → Result (List ℕ)
  -- 64 bytes for a salt.
  pub random_salt : Result (List ℕ)
  pub malloc : ℕ → Bool
  -- `device_open_locked` for reading and for writing.
  pub open_read : Result (Unit {0})
  pub open_write : Result (Unit {0})
  -- `device_write_lock`; the value says whether the lock was not held before.
  pub write_lock : Result Bool
  pub locking_enabled : Bool
  pub in_reencryption : Bool
  pub size_known : Bool
  pub can_fallocate : Bool
  -- `detect_device_signatures`, which asks libblkid.
  pub detect_signatures : Result (Unit {0})

-- A hash writes as many bytes as it says, and they fit the checksum field.
pub record HasHash (env : Env) (alg : List ℕ) : Type 0 where
  pub some_size : 0 < env.hash_size alg
  pub fits : env.hash_size alg ≤ 64
  pub total : (m : List ℕ) → (d : List ℕ) × (env.digest alg m ≡ ok d)
  pub size : (m d : List ℕ) → env.digest alg m ≡ ok d → length d ≡ env.hash_size alg
