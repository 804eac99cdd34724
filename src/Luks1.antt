-- ===== src/Luks1.antt =====
-- lib/luks1/keymanage.c: the header of LUKS1, its keyslots and where their areas are.
pub mod Layout
pub mod Ascending
pub mod Generate
mod Tests
use cryptsetup.Af.{af_split_sectors}
use cryptsetup.Base.{
  ℕ, zero, suc, ◌+◌, ◌-◌, ◌*◌, ◌/◌, ◌%◌, ◌^◌, List, [], ◌∷◌, Bool, true, false, not, ◌&&◌, ◌||◌,
  ◌==◌, ltb, leb, if◌then◌else◌, get_or, set, Option, none, some, Result, ok, err, einval, eio,
}
use cryptsetup.Luks2.Areas.{size_round_up}
use cryptsetup.Luks2.Digest.{
  KeyslotInfo, slot_invalid, slot_inactive, slot_active, slot_active_last,
}

abbrev pub numkeys : ℕ
numkeys = 8

abbrev pub key_disabled : ℕ
key_disabled = 0xDEAD

abbrev pub key_enabled : ℕ
key_enabled = 0xAC71F3

abbrev pub luks_stripes : ℕ
luks_stripes = 4000

-- `LUKS_ALIGN_KEYSLOTS / SECTOR_SIZE`
abbrev pub align_sectors : ℕ
align_sectors = 8

-- `LUKS_MAX_KEYSLOT_SIZE`
abbrev pub max_keyslot_size : ℕ
max_keyslot_size = 0x1000000

-- A member of `keyblock`; `offset` is keyMaterialOffset, in sectors.
pub record Keyblock : Type 0 where
  pub active : ℕ
  pub iterations : ℕ
  pub salt : List ℕ
  pub offset : ℕ
  pub stripes : ℕ

-- What these functions read of `struct luks_phdr`; there are eight keyblocks.
pub record Phdr : Type 0 where
  pub payload_offset : ℕ
  pub key_bytes : ℕ
  pub keyblock : List Keyblock

abbrev pub no_keyblock : Keyblock
no_keyblock = record { active = 0; iterations = 0; salt = []; offset = 0; stripes = 0 }

abbrev pub slot : Phdr → ℕ → Keyblock
slot hdr i = get_or hdr.keyblock i no_keyblock

-- `LUKS_keyslot_area`: offset and length in bytes, for a keyslot that is not negative.
unfoldable pub slot_area : Phdr → ℕ → Result (ℕ × ℕ)
slot_area hdr keyslot =
    if leb numkeys keyslot
    then err einval
    else ok (
      (slot hdr keyslot).offset * 512,
      af_split_sectors hdr.key_bytes luks_stripes * 512 % 2 ^ 64,
    )

-- The inner loop of `LUKS_sort_keyslots`: the entry `x` goes down the sorted ones, which are given
-- from the last one on.
unfoldable pub sink : Phdr → ℕ → List ℕ → List ℕ
sink hdr x [] = x ∷ []
sink hdr x (p ∷ ps) =
    let rest = sink hdr x ps in
    if ltb (slot hdr x).offset (slot hdr p).offset then p ∷ rest else x ∷ p ∷ ps

unfoldable pub sink_all : Phdr → List ℕ → List ℕ → List ℕ
unfolding sink
sink_all hdr [] sorted = sorted
sink_all hdr (x ∷ xs) sorted = sink_all hdr xs (sink hdr x sorted)

-- `LUKS_sort_keyslots`, from the last entry of the array to the first.
unfoldable pub sort_keyslots : Phdr → List ℕ
unfolding sink_all
sort_keyslots hdr = sink_all hdr (1 ∷ 2 ∷ 3 ∷ 4 ∷ 5 ∷ 6 ∷ 7 ∷ []) (0 ∷ [])

-- `LUKS_device_sectors` and `LUKS_keyslots_offset`
unfoldable pub device_sectors : Phdr → ℕ
device_sectors hdr =
    ((slot hdr (get_or (sort_keyslots hdr) 0 0)).offset
      + af_split_sectors hdr.key_bytes luks_stripes)
    % 2 ^ 64

unfoldable pub keyslots_offset : Phdr → ℕ
keyslots_offset hdr = (slot hdr (get_or (sort_keyslots hdr) 7 0)).offset

-- `LUKS_check_device_size`: `size` is what device_size finds, in bytes, and `grows` says that a
-- header file may be made larger and that this succeeds.
unfoldable pub check_device_size : Phdr → Option ℕ → Bool → Result (Unit {0})
check_device_size hdr size grows = if hdr.key_bytes == 0 then err einval else elim size [
  | none ↦ err eio
  | some bytes ↦ if ltb (bytes / 512) (device_sectors hdr) && not grows then err einval else ok tt
]

-- The `uint32_t` number of sectors of a keyslot's area.
abbrev pub secs_per_stripes : Phdr → ℕ
secs_per_stripes hdr = af_split_sectors hdr.key_bytes luks_stripes % 2 ^ 32

-- The first loop of `LUKS_check_keyslots`, for one keyslot.
unfoldable pub slot_valid : Phdr → ℕ → Bool
slot_valid hdr i =
    let offset : ℕ = (slot hdr i).offset in
    (slot hdr i).stripes == luks_stripes
    && leb 1024 (offset * 512 % 2 ^ 32)
    && (hdr.payload_offset == 0
        || (ltb offset hdr.payload_offset
            && leb ((offset + secs_per_stripes hdr) % 2 ^ 32) hdr.payload_offset))

unfoldable pub slots_valid : Phdr → List ℕ → Bool
unfolding slot_valid
slots_valid hdr [] = true
slots_valid hdr (i ∷ is) = slot_valid hdr i && slots_valid hdr is

-- The second loop, on the sorted areas from the last one on.
unfoldable pub no_overlaps : Phdr → List ℕ → Bool
no_overlaps hdr [] = true
no_overlaps hdr (next ∷ []) = true
no_overlaps hdr (next ∷ prev ∷ rest) =
    leb (((slot hdr prev).offset + secs_per_stripes hdr) % 2 ^ 32) (slot hdr next).offset
    && no_overlaps hdr (prev ∷ rest)

-- `LUKS_check_keyslots`: `true` where it returns 0.
unfoldable pub check_keyslots : Phdr → Bool
unfolding slots_valid no_overlaps
check_keyslots hdr =
    slots_valid hdr (0 ∷ 1 ∷ 2 ∷ 3 ∷ 4 ∷ 5 ∷ 6 ∷ 7 ∷ []) && no_overlaps hdr (sort_keyslots hdr)

-- The loop of `LUKS_keyslot_info`: another keyslot than `keyslot` is enabled.
unfoldable pub other_enabled : ℕ → ℕ → List Keyblock → Bool
other_enabled keyslot i [] = false
other_enabled keyslot i (k ∷ ks) =
    (not (i == keyslot) && k.active == key_enabled) || other_enabled keyslot (suc i) ks

-- `LUKS_keyslot_info`, for a keyslot that is not negative.
unfoldable pub slot_info : Phdr → ℕ → KeyslotInfo
unfolding other_enabled
slot_info hdr keyslot =
    let active : ℕ = (slot hdr keyslot).active in
    if leb numkeys keyslot
    then slot_invalid
    else if active == key_disabled
    then slot_inactive
    else if not (active == key_enabled)
    then slot_invalid
    else if other_enabled keyslot 0 hdr.keyblock
    then slot_active
    else slot_active_last

-- `LUKS_keyslot_find_empty`
unfoldable pub first_disabled : ℕ → List Keyblock → Option ℕ
first_disabled i [] = none
first_disabled i (k ∷ ks) =
    let rest = first_disabled (suc i) ks in if k.active == key_disabled then some i else rest

unfoldable pub slot_find_empty : Phdr → Result ℕ
unfolding first_disabled
slot_find_empty hdr = elim (first_disabled 0 hdr.keyblock) [ none ↦ err einval | some i ↦ ok i ]

-- `LUKS_keyslot_active_count`
unfoldable pub count_enabled : List Keyblock → ℕ
count_enabled [] = 0
count_enabled (k ∷ ks) =
    let rest = count_enabled ks in if k.active == key_enabled then suc rest else rest

abbrev pub keyslot_active_count : Phdr → ℕ
keyslot_active_count hdr = count_enabled hdr.keyblock

-- `LUKS_keyslot_set`
unfoldable pub keyslot_set : Phdr → ℕ → Bool → Result Phdr
unfolding slot_info
keyslot_set hdr keyslot enable = by_info (slot_info hdr keyslot)
  where
    changed : Phdr
    changed = record hdr {
      keyblock =
          set hdr.keyblock keyslot
            (record (slot hdr keyslot) { active = if enable then key_enabled else key_disabled });
    }

    by_info : KeyslotInfo → Result Phdr
    by_info slot_invalid = err einval
    by_info info = ok changed

-- The layout that `LUKS_generate_phdr` gives the keyslots, from the sector `sectors` on, and the
-- first sector behind them.
unfoldable pub new_keyblocks : ℕ → ℕ → ℕ → List Keyblock × ℕ
new_keyblocks keyslot_sectors zero sectors = ([], sectors)
new_keyblocks keyslot_sectors (suc n) sectors =
    let block : Keyblock = record {
      active = key_disabled;
      iterations = 0;
      salt = [];
      offset = sectors % 2 ^ 32;
      stripes = luks_stripes;
    } in
    let (blocks, end) =
      new_keyblocks keyslot_sectors n
        (size_round_up ((sectors + keyslot_sectors) % 2 ^ 64) align_sectors) in
    (block ∷ blocks, end)

-- `payloadOffset` of the new header, with offsets and alignment in bytes.
abbrev pub new_payload_offset : ℕ → ℕ → ℕ → ℕ → ℕ
new_payload_offset header_sectors data_offset align_offset required_alignment =
    if not (data_offset == 0)
    then data_offset / 512 % 2 ^ 32
    else if not (required_alignment == 0)
    then (size_round_up header_sectors (required_alignment / 512) + align_offset / 512) % 2 ^ 32
    else 0

-- The first part of `LUKS_generate_phdr`, up to the check of the data offset.
unfoldable pub generate_layout : ℕ → ℕ → ℕ → ℕ → Result Phdr
unfolding new_keyblocks
generate_layout key_bytes data_offset align_offset required_alignment =
    let (blocks, header_sectors) =
      new_keyblocks (af_split_sectors key_bytes luks_stripes) numkeys align_sectors in
    let payload : ℕ =
      new_payload_offset header_sectors data_offset align_offset required_alignment in
    if not (data_offset % 512 == 0)
      || (not (align_offset % 512 == 0) || not (required_alignment % 512 == 0))
    then err einval
    else if not (payload == 0) && ltb payload header_sectors
    then err einval
    else ok (record { payload_offset = payload; key_bytes = key_bytes % 2 ^ 32; keyblock = blocks })

-- A range that `LUKS_wipe_header_areas` wipes, with zeroes or at random.
pub record Wipe : Type 0 where
  pub zeroes : Bool
  pub offset : ℕ
  pub len : ℕ

-- The loop over the keyslots in `LUKS_wipe_header_areas`, from `i` on; every wipe succeeds.
unfoldable pub wipe_keyslots : Phdr → ℕ → ℕ → List Wipe × Result (Unit {0})
unfolding slot_area
wipe_keyslots hdr zero i = ([], ok tt)
wipe_keyslots hdr (suc n) i =
    let (wipes, r) = wipe_keyslots hdr n (suc i) in
    elim (slot_area hdr i) [
      | err e ↦ ([], err e)
      | ok (offset, len) ↦
          if ltb max_keyslot_size len || ltb (max_keyslot_size - len) offset
          then (wipes, r)
          else if len == 0 || ltb offset 4096
          then ([], err einval)
          else (record { zeroes = false; offset = offset; len = len } ∷ wipes, r)
    ]

-- `LUKS_wipe_header_areas`
unfoldable pub wipe_header_areas : Phdr → List Wipe × Result (Unit {0})
unfolding wipe_keyslots
wipe_header_areas hdr =
    let len : ℕ = hdr.payload_offset * 512 in
    let len1 : ℕ = if len == 0 || ltb (max_keyslot_size * numkeys) len then 4096 else len in
    let (wipes, r) = wipe_keyslots hdr numkeys 0 in
    (record { zeroes = true; offset = 0; len = len1 } ∷ wipes, r)
