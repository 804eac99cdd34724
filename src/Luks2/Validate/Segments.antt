-- ===== src/Luks2/Validate/Segments.antt =====
-- lib/luks2/luks2_json_metadata.c: the checks of the segments.
use cryptsetup.Base.{
  ℕ, zero, suc, ◌+◌, ◌-◌, ◌%◌, ◌^◌, List, [], ◌∷◌, length, Bool, true, false, not, ◌&&◌, ◌||◌, ◌==◌,
  ltb, leb, if◌then◌else◌, Option, none, some,
}
use cryptsetup.Base.Strings.{same, codes}
use cryptsetup.Json.{
  JsonC, object_type, array_type, string_type, int_type, json_contains, json_str_to_uint64,
  numbered, validate_json_uint32, find_string,
}
use cryptsetup.Json.Decimal.{atoi}
use cryptsetup.Luks2.Areas.{Area, u64}
use cryptsetup.Luks2.Segment.{
  segment_is_backup, segments_get_segment, segment_get_offset, segment_get_size,
}
use cryptsetup.Luks2.Validate.Fields.{◌>>?◌, need, optional, has, array_member, all_strings}

abbrev pub uint64_max : ℕ
uint64_max = 2 ^ 64 - 1

-- The inner loop of `validate_segment_intervals`: `a` is interval `i`, and `k` the index of the
-- head.
unfoldable pub starts_outside : Area → ℕ → List Area → ℕ → Bool
starts_outside a i [] k = true
starts_outside a i (b ∷ ix) k =
    (i == k
      || not
          (leb b.offset a.offset && (b.len == uint64_max || ltb a.offset (u64 (b.offset + b.len)))))
    && starts_outside a i ix (suc k)

-- The outer loop; `rest` are the intervals from `i` on.
unfoldable pub segments_from : List Area → List Area → ℕ → Bool
unfolding starts_outside
segments_from ix [] i = true
segments_from ix (a ∷ rest) i =
    not (a.len == uint64_max && not (length rest == 0))
    && (starts_outside a i ix 0 && segments_from ix rest (suc i))

unfoldable pub validate_segment_intervals : List Area → Bool
unfolding segments_from
validate_segment_intervals ix = segments_from ix ix 0

-- What the loop of `hdr_validate_segments` reads of a segment.
pub record SegmentFields : Type 0 where
  pub type : List ℕ
  pub offset : ℕ
  pub size : ℕ

module _ (j : JsonC) where
  -- A text that is a number and fits 64 bits.
  abbrev pub numbered_uint64 : j.Json → Option ℕ
  numbered_uint64 jobj = if numbered (j.get_string jobj) then json_str_to_uint64 j jobj else none

  -- The size, 0 for a dynamic one; `none` for an illegal one.
  abbrev pub segment_size : j.Json → Option ℕ
  segment_size jobj_size =
      if same (j.get_string jobj_size) (codes "dynamic")
      then some 0
      else (numbered_uint64 jobj_size >>? λ size. if size == 0 then none else some size)

  -- The mandatory fields; `none` if one of them is illegal.
  unfoldable pub segment_fields : j.Json → Option SegmentFields
  segment_fields val = json_contains j val (codes "type") string_type >>? λ jobj_type.
      json_contains j val (codes "offset") string_type >>? λ jobj_offset.
      json_contains j val (codes "size") string_type >>? λ jobj_size.
      numbered_uint64 jobj_offset >>? λ offset. segment_size jobj_size >>? λ size.
      if offset % 512 == 0 && size % 512 == 0
      then some (record { type = j.get_string jobj_type; offset = offset; size = size })
      else none

  -- The flags are optional.
  unfoldable pub segment_flags : j.Json → Bool
  unfolding all_strings
  segment_flags val = optional (j.get_ex val (codes "flags")) (λ _.
      need (json_contains j val (codes "flags") array_type)
        (λ jobj_flags. all_strings j (j.elements jobj_flags)))

  unfoldable pub some_digest : List ℕ → List (List ℕ × j.Json) → Bool
  unfolding find_string
  some_digest name [] = false
  some_digest name (m ∷ ms) =
      need (find_string j (array_member j (m.1) (codes "segments")) name) (λ _. true)
      || some_digest name ms

  -- `segment_has_digest`, on digests that were checked: all have an array of segments.
  abbrev pub segment_has_digest : List ℕ → j.Json → Bool
  segment_has_digest name digests = some_digest name (j.members digests)

  abbrev pub integrity_validate : j.Json → Bool
  integrity_validate jobj = optional (j.get_ex jobj (codes "integrity")) (λ integrity.
      has j jobj (codes "integrity") object_type
      && (has j integrity (codes "type") string_type
          && (has j integrity (codes "journal_encryption") string_type
              && has j integrity (codes "journal_integrity") string_type)))

  -- `hdr_validate_crypt_segment`
  unfoldable pub crypt_segment_validate : j.Json → List ℕ → j.Json → ℕ → Bool
  crypt_segment_validate jobj key digests size =
      need (json_contains j jobj (codes "iv_tweak") string_type) (λ ivoffset.
        has j jobj (codes "encryption") string_type
        && need (json_contains j jobj (codes "sector_size") int_type) (λ jobj_sector_size.
          integrity_validate jobj
          && (validate_json_uint32 j jobj_sector_size
              && need (j.get_int64 jobj_sector_size) (λ n.
                let sector_size = n % 2 ^ 32 in
                not (sector_size == 0)
                && (sector_size % 512 == 0
                    && (need (numbered_uint64 ivoffset) (λ _. true)
                        && (size % sector_size == 0 && segment_has_digest key digests)))))))

  -- The first backup segment after segment `i` was seen; `none` if a regular segment is behind it.
  unfoldable pub next_backup : j.Json → ℕ → Option ℕ → Option (Option ℕ)
  next_backup val i none = some (if segment_is_backup j val then some i else none)
  next_backup val i (some first) =
      if segment_is_backup j val
      then some (some (if ltb i first then i else first))
      else if leb first i
      then none
      else some (some first)

  -- The loop of `hdr_validate_segments`: the first backup segment, `none` if one is illegal.
  unfoldable pub each_segment : j.Json → List (List ℕ × j.Json) → Option ℕ → Option (Option ℕ)
  unfolding numbered segment_fields segment_flags
  each_segment digests [] first_backup = some first_backup
  each_segment digests (m ∷ ms) first_backup =
      if not (numbered (m.0))
      then none
      else (segment_fields (m.1) >>? λ f.
          if not (segment_flags (m.1))
          then none
          else (next_backup (m.1) (atoi (m.0)) first_backup >>? λ next.
              let rest = each_segment digests ms next in
              if same f.type (codes "crypt")
                && not (crypt_segment_validate (m.1) (m.0) digests f.size)
              then none
              else rest))

  abbrev pub segment_interval : j.Json → Area
  segment_interval jobj =
      let size = segment_get_size j (some jobj) false in
      record {
        offset = segment_get_offset j (some jobj) false;
        len = if size == 0 then uint64_max else size;
      }

  -- The intervals of the segments from `i` on, of which there are `n`; `none` at a gap.
  unfoldable pub segment_intervals : j.Json → ℕ → ℕ → Option (List Area)
  segment_intervals segments zero i = some []
  segment_intervals segments (suc n) i = segments_get_segment j segments i >>? λ jobj.
      segment_intervals segments n (suc i) >>? λ ix. some (segment_interval jobj ∷ ix)

  unfoldable pub no_gap : j.Json → ℕ → ℕ → Bool
  no_gap segments zero i = true
  no_gap segments (suc n) i =
      need (segments_get_segment j segments i) (λ _. no_gap segments n (suc i))

  -- The checks behind the loop: `count` segments, the first `regular` of which are regular.
  unfoldable pub accept_regular : j.Json → ℕ → ℕ → Bool
  unfolding segment_intervals validate_segment_intervals no_gap
  accept_regular segments count regular =
      need (segment_intervals segments regular 0)
        (λ ix. validate_segment_intervals ix && no_gap segments (count - regular) regular)

  abbrev pub accept_backup : j.Json → ℕ → Option ℕ → Bool
  accept_backup segments count none = accept_regular segments count count
  accept_backup segments count (some first) =
      not (first == 0) && (ltb first count && accept_regular segments count first)

  -- `hdr_validate_segments`; the memory for the intervals is there.
  unfoldable pub hdr_validate_segments : j.Json → Bool
  unfolding each_segment accept_regular
  hdr_validate_segments hdr = need (j.get_ex hdr (codes "segments")) (λ segments.
      leb 1 (length (j.members segments))
      && need (j.get_ex hdr (codes "digests")) (λ digests.
        need (each_segment digests (j.members segments) none)
          (λ first. accept_backup segments (length (j.members segments)) first)))
