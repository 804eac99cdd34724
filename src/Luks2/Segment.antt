-- ===== src/Luks2/Segment.antt =====
-- lib/luks2/luks2_segment.c: the segments of the data device in the JSON metadata. An id is the
-- number that a member's key spells; a negative result is `none`.
pub mod Ids
pub mod Flags
mod Tests
use cryptsetup.Base.{
  ℕ, zero, suc, ◌+◌, ◌-◌, ◌/◌, ◌^◌, List, [], ◌∷◌, length, take, Bool, true, false, not, ◌&&◌, ◌||◌,
  ◌==◌, ltb, leb, if◌then◌else◌,
}
use cryptsetup.Base.{Option, none, some, Result, ok, err, einval, enoent}
use cryptsetup.Base.Strings.{same, codes}
use cryptsetup.Json.{JsonC, new_uint64, get_uint64, array_jobj, array_remove}
use cryptsetup.Json.Decimal.{decimal, atoi}

-- A byte count as sectors of 512 bytes, if `blockwise`.
abbrev pub in_units : Bool → ℕ → ℕ
in_units blockwise n = if blockwise then n / 512 else n

module _ (j : JsonC) where
  -- A number that is stored as a text, 0 if it is missing.
  abbrev pub uint64_member : Option j.Json → List ℕ → ℕ
  uint64_member none key = 0
  uint64_member (some segment) key = elim (j.get_ex segment key) [
    | none ↦ 0
    | some v ↦ get_uint64 j v
  ]

  -- `json_segment_get_offset`, `json_segment_get_size` and `json_segment_get_iv_offset`; the
  -- segment may be NULL.
  unfoldable pub segment_get_offset : Option j.Json → Bool → ℕ
  segment_get_offset segment blockwise = in_units blockwise (uint64_member segment (codes "offset"))

  unfoldable pub segment_get_size : Option j.Json → Bool → ℕ
  segment_get_size segment blockwise = in_units blockwise (uint64_member segment (codes "size"))

  unfoldable pub segment_get_iv_offset : Option j.Json → ℕ
  segment_get_iv_offset segment = uint64_member segment (codes "iv_tweak")

  -- `json_segment_type`
  unfoldable pub segment_type : Option j.Json → Option (List ℕ)
  segment_type none = none
  segment_type (some segment) = elim (j.get_ex segment (codes "type")) [
    | none ↦ none
    | some v ↦ some (j.get_string v)
  ]

  -- `json_segment_get_cipher`
  unfoldable pub segment_get_cipher : Option j.Json → List ℕ
  segment_get_cipher none = codes "null"
  segment_get_cipher (some segment) = elim (j.get_ex segment (codes "encryption")) [
    | none ↦ codes "null"
    | some v ↦ j.get_string v
  ]

  -- Whether an element starts with (`len` is its length) or is the flag (`len` is 0).
  abbrev pub matches_flag : List ℕ → ℕ → List ℕ → Bool
  matches_flag flag len text =
      if len == 0 then same text flag else same (take len text) (take len flag)

  unfoldable pub some_matches : List j.Json → List ℕ → ℕ → Bool
  unfolding same
  some_matches [] flag len = false
  some_matches (x ∷ xs) flag len =
      matches_flag flag len (j.get_string x) || some_matches xs flag len

  -- `json_segment_contains_flag`
  unfoldable pub segment_contains_flag : j.Json → List ℕ → ℕ → Bool
  unfolding some_matches
  segment_contains_flag segment flag len = elim (j.get_ex segment (codes "flags")) [
    | none ↦ false
    | some flags ↦ some_matches (j.elements flags) flag len
  ]

  -- `json_segment_is_backup`
  unfoldable pub segment_is_backup : j.Json → Bool
  unfolding segment_contains_flag
  segment_is_backup segment = segment_contains_flag segment (codes "backup-") 7

  -- `json_segments_get_segment`
  unfoldable pub segments_get_segment : j.Json → ℕ → Option j.Json
  segments_get_segment segments i = j.get_ex segments (decimal i)

  -- The loop of `json_segments_get_minimal_offset`.
  unfoldable pub least_offset : List (List ℕ × j.Json) → Bool → ℕ → ℕ
  least_offset [] blockwise least = least
  least_offset (m ∷ ms) blockwise least =
      let tmp = segment_get_offset (some (m.1)) blockwise in
      if segment_is_backup (m.1)
      then least_offset ms blockwise least
      else if tmp == 0
      then 0
      else least_offset ms blockwise (if ltb tmp least then tmp else least)

  -- `json_segments_get_minimal_offset`
  unfoldable pub segments_get_minimal_offset : Option j.Json → Bool → ℕ
  unfolding least_offset
  segments_get_minimal_offset none blockwise = 0
  segments_get_minimal_offset (some segments) blockwise =
      least_offset (j.members segments) blockwise (in_units blockwise (2 ^ 64 - 1))

  -- `json_segments_count`
  unfoldable pub regular_count : List (List ℕ × j.Json) → ℕ
  regular_count [] = 0
  regular_count (m ∷ ms) =
      if segment_is_backup (m.1) then regular_count ms else suc (regular_count ms)

  abbrev pub segments_count : Option j.Json → ℕ
  segments_count none = 0
  segments_count (some segments) = regular_count (j.members segments)

  -- The first member that has the flag: `_get_segment_or_id_by_flag`, and the loop of
  -- `json_segments_segment_in_reencrypt`.
  unfoldable pub first_with_flag : List (List ℕ × j.Json) → List ℕ → Option (List ℕ × j.Json)
  first_with_flag [] flag = none
  first_with_flag (m ∷ ms) flag = elim (j.get_ex (m.1) (codes "flags")) [
    | none ↦ first_with_flag ms flag
    | some flags ↦ elim (array_jobj j flags flag) [
      | none ↦ first_with_flag ms flag
      | some _ ↦ some m
    ]
  ]

  -- `json_segments_segment_in_reencrypt`
  unfoldable pub segment_in_reencrypt : j.Json → Option ℕ
  unfolding first_with_flag
  segment_in_reencrypt segments =
      elim (first_with_flag (j.members segments) (codes "in-reencryption")) [
        | none ↦ none
        | some m ↦ some (atoi (m.0))
      ]

  -- `LUKS2_get_segment_id_by_flag` and `LUKS2_get_segment_by_flag`, on the header's JSON value.
  unfoldable pub get_segment_id_by_flag : j.Json → List ℕ → Result ℕ
  unfolding first_with_flag
  get_segment_id_by_flag hdr flag = elim (j.get_ex hdr (codes "segments")) [
    | none ↦ err enoent
    | some segments ↦ elim (first_with_flag (j.members segments) flag) [
      | none ↦ err enoent
      | some m ↦ ok (atoi (m.0))
    ]
  ]

  unfoldable pub get_segment_by_flag : j.Json → List ℕ → Option j.Json
  unfolding first_with_flag
  get_segment_by_flag hdr flag = elim (j.get_ex hdr (codes "segments")) [
    | none ↦ none
    | some segments ↦ elim (first_with_flag (j.members segments) flag) [
      | none ↦ none
      | some m ↦ some (m.1)
    ]
  ]

  -- Whether a member is a regular segment of the type.
  abbrev pub is_of_type : List ℕ → j.Json → Bool
  is_of_type type segment =
      not (segment_is_backup segment)
      && same type (elim (segment_type (some segment)) [ none ↦ [] | some t ↦ t ])

  -- The loops of `LUKS2_last_segment_by_type`, `LUKS2_segment_by_type` and
  -- `LUKS2_segment_first_unused_id`, with the best id so far.
  unfoldable pub last_of_type : List (List ℕ × j.Json) → List ℕ → Option ℕ → Option ℕ
  last_of_type [] type found = found
  last_of_type (m ∷ ms) type found = last_of_type ms type (
      if is_of_type type (m.1)
      then elim found [
        | none ↦ some (atoi (m.0))
        | some n ↦ if ltb n (atoi (m.0)) then some (atoi (m.0)) else some n
      ]
      else found)

  unfoldable pub first_of_type : List (List ℕ × j.Json) → List ℕ → Option ℕ → Option ℕ
  first_of_type [] type found = found
  first_of_type (m ∷ ms) type found = first_of_type ms type (
      if is_of_type type (m.1)
      then elim found [
        | none ↦ some (atoi (m.0))
        | some n ↦ if ltb (atoi (m.0)) n then some (atoi (m.0)) else some n
      ]
      else found)

  -- `last_id + 1`, which is 0 before the first member. In C both are ints: this is the code for ids
  -- below INT_MAX, for which no sum overflows.
  unfoldable pub after_last : List (List ℕ × j.Json) → ℕ → ℕ
  after_last [] next = next
  after_last (m ∷ ms) next =
      after_last ms (if ltb (atoi (m.0)) next then next else suc (atoi (m.0)))

  unfoldable pub last_segment_by_type : j.Json → List ℕ → Option ℕ
  last_segment_by_type hdr type = elim (j.get_ex hdr (codes "segments")) [
    | none ↦ none
    | some segments ↦ last_of_type (j.members segments) type none
  ]

  unfoldable pub segment_by_type : j.Json → List ℕ → Result (Option ℕ)
  segment_by_type hdr type = elim (j.get_ex hdr (codes "segments")) [
    | none ↦ err einval
    | some segments ↦ ok (first_of_type (j.members segments) type none)
  ]

  unfoldable pub segment_first_unused_id : j.Json → Result ℕ
  segment_first_unused_id hdr = elim (j.get_ex hdr (codes "segments")) [
    | none ↦ err einval
    | some segments ↦ ok (after_last (j.members segments) 0)
  ]

  -- `LUKS2_segment_set_flag`: the segment with the flag. The new array does not run out of memory.
  unfoldable pub segment_set_flag : j.Json → List ℕ → j.Json
  segment_set_flag segment flag =
      let flags : j.Json = elim (j.get_ex segment (codes "flags")) [
        | none ↦ j.new_array []
        | some flags ↦ flags
      ] in
      elim (array_jobj j flags flag) [
        | none ↦ j.object_add segment (codes "flags") (j.array_add flags (j.new_string flag))
        | some _ ↦ segment
      ]

  -- `json_segment_remove_flag`
  unfoldable pub segment_remove_flag : j.Json → List ℕ → j.Json
  segment_remove_flag segment flag = elim (j.get_ex segment (codes "flags")) [
    | none ↦ segment
    | some flags ↦ elim (array_remove j flags flag) [
      | none ↦ segment
      | some flags_new ↦
          if length (j.elements flags_new) == 0
          then j.object_del segment (codes "flags")
          else j.object_add segment (codes "flags") flags_new
    ]
  ]

  -- `_segment_create_generic`; without a length the size is dynamic.
  abbrev pub segment_create_generic : List ℕ → ℕ → Option ℕ → j.Json
  segment_create_generic type offset len =
      let size : j.Json = elim len [
        | none ↦ j.new_string (codes "dynamic")
        | some n ↦ new_uint64 j n
      ] in
      j.object_add
        (j.object_add (j.object_add j.new_object (codes "type") (j.new_string type))
          (codes "offset") (new_uint64 j offset))
        (codes "size") size

  -- `json_segment_create_linear`
  unfoldable pub segment_create_linear : ℕ → Option ℕ → Bool → j.Json
  segment_create_linear offset len reencryption =
      let segment = segment_create_generic (codes "linear") offset len in
      if reencryption then segment_set_flag segment (codes "in-reencryption") else segment

  -- `json_segment_create_crypt`
  unfoldable pub segment_create_crypt : ℕ → ℕ → Option ℕ → List ℕ → ℕ → Bool → j.Json
  segment_create_crypt offset iv_offset len cipher sector_size reencryption =
      let generic = segment_create_generic (codes "crypt") offset len in
      let with_iv = j.object_add generic (codes "iv_tweak") (new_uint64 j iv_offset) in
      let with_cipher = j.object_add with_iv (codes "encryption") (j.new_string cipher) in
      let segment = j.object_add with_cipher (codes "sector_size") (j.new_int sector_size) in
      if reencryption then segment_set_flag segment (codes "in-reencryption") else segment
