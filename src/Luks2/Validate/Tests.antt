-- ===== src/Luks2/Validate/Tests.antt =====
-- lib/luks2/luks2_json_metadata.c: runs on a header with a keyslot, a digest and a segment, and on
-- one whose members stand in an unusual order.
use cryptsetup.Base.{
  ℕ, ◌≡◌, refl, arith, List, [], ◌∷◌, true, some, inl, inr, sym, ap, In, ◌<◌, ◌^◌,
}
use cryptsetup.Base.Strings.{same, codes}
use cryptsetup.Json.{json_contains, json_str_to_uint64, get_uint64, numbered, find_string}
use cryptsetup.Json.Decimal.{
  strtoull, skip_space, scan_sign, scan_unsigned, starts_with_digit, scan_digits, atoi, digits_of,
  decimal,
}
use cryptsetup.Json.Laws.{find_member}
use cryptsetup.Json.Sample.{
  Value, string, int, empty_object, empty_array, member, element, sample_json, sample_json-IsJsonC,
}
use cryptsetup.Luks2.Segment.{
  segments_get_segment, segments_get_minimal_offset, least_offset, segment_is_backup,
  segment_contains_flag, some_matches, segment_get_offset, segment_get_size,
}
use cryptsetup.Luks2.Segment.Ids.{find_member-In}
use mathlib.Core.Path.{subst}
use cryptsetup.Luks2.Areas.{
  Area, validate_intervals, validate_from, no_overlap, check_metadata_area_size,
  check_keyslots_area_size,
}
use cryptsetup.Luks2.Areas.Find.{IsLayout}
use cryptsetup.Luks2.Validate.Fields
use cryptsetup.Luks2.Validate.Segments
use cryptsetup.Luks2.Validate.Keyslots
use cryptsetup.Luks2.Validate.Header
use cryptsetup.Luks2.Validate.Intervals.{SegmentFits}
use cryptsetup.Luks2.Validate.Layout.{layout_of, hdr_validate-IsLayout}
use cryptsetup.Luks2.Validate.Regular.{IsSegmented, hdr_validate_segments-IsSegmented}
use cryptsetup.Luks2.Validate.References.{Refers, hdr_validate_digests-Refers}

abbrev keyslot : Value
keyslot = member (codes "type") (string (codes "luks2")) (
    member (codes "key_size") (int 64) (
      member (codes "af")
        (member (codes "type") (string (codes "luks1")) (
          member (codes "hash") (string (codes "sha256"))
            (member (codes "stripes") (int 4000) empty_object)))
        (member (codes "area")
          (member (codes "type") (string (codes "raw")) (
            member (codes "encryption") (string (codes "aes-xts-plain64")) (
              member (codes "key_size") (int 64) (
                member (codes "offset") (string (codes "32768"))
                  (member (codes "size") (string (codes "258048")) empty_object)))))
          (member (codes "kdf")
            (member (codes "type") (string (codes "pbkdf2")) (
              member (codes "hash") (string (codes "sha256")) (
                member (codes "iterations") (int 1000)
                  (member (codes "salt") (string (codes "c2FsdA==")) empty_object))))
            empty_object))))

abbrev keyslots : Value
keyslots = member (codes "0") keyslot empty_object

abbrev names_0 : Value
names_0 = element (string (codes "0")) empty_array

abbrev digest : Value
digest =
    member (codes "type") (string (codes "pbkdf2"))
      (member (codes "keyslots") names_0 (member (codes "segments") names_0 empty_object))

abbrev digests : Value
digests = member (codes "0") digest empty_object

abbrev segment : Value
segment = member (codes "type") (string (codes "crypt")) (
    member (codes "offset") (string (codes "16777216")) (
      member (codes "size") (string (codes "dynamic")) (
        member (codes "iv_tweak") (string (codes "0")) (
          member (codes "encryption") (string (codes "aes-xts-plain64"))
            (member (codes "sector_size") (int 512) empty_object)))))

abbrev segments : Value
segments = member (codes "0") segment empty_object

abbrev config : Value
config =
    member (codes "json_size") (string (codes "12288"))
      (member (codes "keyslots_size") (string (codes "16744448")) empty_object)

abbrev sample : Value
sample = member (codes "keyslots") keyslots (
    member (codes "tokens") empty_object (
      member (codes "segments") segments
        (member (codes "digests") digests (member (codes "config") config empty_object))))

sample_segments : Segments.hdr_validate_segments sample_json sample ≡ true
unfolding find_member segment_is_backup segment_contains_flag some_matches segments_get_segment
    digits_of segment_get_size segment_get_offset get_uint64 json_str_to_uint64 json_contains
    numbered find_string same atoi scan_digits scan_sign scan_unsigned skip_space starts_with_digit
    strtoull Segments.next_backup Segments.accept_regular Segments.each_segment Segments.no_gap
    Segments.segment_fields Segments.segment_flags Segments.segment_intervals Segments.segments_from
    Segments.starts_outside Segments.validate_segment_intervals Segments.hdr_validate_segments
    Segments.crypt_segment_validate Segments.some_digest Fields.all_strings
sample_segments = refl

sample_accepted : Header.hdr_validate sample_json sample 12288 ≡ true
unfolding Header.hdr_validate find_member segment_is_backup segment_contains_flag some_matches
    segments_get_segment digits_of segment_get_size segment_get_offset get_uint64 json_str_to_uint64
    json_contains numbered find_string same atoi scan_digits scan_sign scan_unsigned skip_space
    starts_with_digit strtoull Segments.next_backup Segments.accept_regular Segments.each_segment
    Segments.no_gap Segments.segment_fields Segments.segment_flags Segments.segment_intervals
    Segments.segments_from Segments.starts_outside Segments.validate_segment_intervals
    Segments.hdr_validate_segments Segments.crypt_segment_validate Segments.some_digest
    Fields.all_strings Fields.hdr_validate_tokens Fields.hdr_validate_digests
    Fields.hdr_validate_keyslots Fields.all_digests Fields.all_keyslots Fields.all_named
    Fields.all_tokens Fields.token_validate Header.hdr_validate_config Header.area_of
    Header.hdr_and_areas_size_jobj Header.hdr_validate_areas Header.hdr_validate_json_size
    Header.keyslot_intervals Header.keyslots_size_fits Header.keyslots_size_jobj
    Header.metadata_size_jobj segments_get_minimal_offset least_offset check_keyslots_area_size
    check_metadata_area_size no_overlap validate_from validate_intervals Keyslots.digests_with
    Keyslots.each_keyslot Keyslots.keyslots_validate Keyslots.luks2_keyslot_validate
    Keyslots.reenc_keyslot_validate
sample_accepted = refl

abbrev keyslot_0_area : Area
keyslot_0_area = record { offset = 32768; len = 258048 }

sample_intervals :
    Header.keyslot_intervals sample_json (sample_json.members keyslots) ≡ some (keyslot_0_area ∷ [])
unfolding Header.keyslot_intervals Header.area_of find_member same json_contains json_str_to_uint64
    numbered strtoull skip_space scan_sign scan_unsigned starts_with_digit scan_digits
sample_intervals = refl

keyslots_found : sample_json.get_ex sample (codes "keyslots") ≡ some keyslots
unfolding find_member same
keyslots_found = refl

segments_found : sample_json.get_ex sample (codes "segments") ≡ some segments
unfolding find_member same
segments_found = refl

digests_found : sample_json.get_ex sample (codes "digests") ≡ some digests
unfolding find_member same
digests_found = refl

hdr_validate-IsLayout_example : IsLayout (layout_of sample_json sample 16384)
hdr_validate-IsLayout_example =
    hdr_validate-IsLayout sample_json sample keyslots (keyslot_0_area ∷ []) 12288
      sample_json-IsJsonC keyslots_found sample_intervals (omega arith, tt) (omega arith)
      sample_accepted

sample_digests : Fields.hdr_validate_digests sample_json sample ≡ true
unfolding Fields.hdr_validate_digests Fields.all_digests Fields.all_named find_member same
    json_contains numbered
sample_digests = refl

hdr_validate_digests-Refers_example :
    Refers sample_json digest (codes "keyslots") keyslots
    × Refers sample_json digest (codes "segments") segments
hdr_validate_digests-Refers_example =
    hdr_validate_digests-Refers sample_json sample digests keyslots segments (codes "0", digest)
      digests_found keyslots_found segments_found sample_digests (inl refl)

segment_dynamic : SegmentFits (Segments.segment_interval sample_json segment)
unfolding segment_get_size get_uint64 json_str_to_uint64 find_member same strtoull skip_space
    scan_sign scan_unsigned starts_with_digit scan_digits
segment_dynamic = inl refl

segment_ids : (m : List ℕ × Value) → In m (sample_json.members segments) → atoi (m.0) < 2 ^ 31
segment_ids m (inl e) = omega (arith, ap (λ (x : List ℕ × Value). atoi (x.0)) e, id_0)
  where
    id_0 : atoi (codes "0") ≡ 0
    id_0 = unfold atoi scan_digits in refl
segment_ids m (inr others) = elim others [ ]

segment_fits :
    (i : ℕ) (a : Value)
    → segments_get_segment sample_json segments i ≡ some a
    → SegmentFits (Segments.segment_interval sample_json a)
unfolding segments_get_segment
segment_fits i a e = elim (find_member-In (sample_json.members segments) (decimal i) a e) [
  | inl only ↦
      subst (λ (m : List ℕ × Value). SegmentFits (Segments.segment_interval sample_json (m.1)))
        (sym only) segment_dynamic
  | inr others ↦ elim others [ ]
]

hdr_validate_segments-IsSegmented_example : (regular : ℕ) × IsSegmented sample_json segments regular
hdr_validate_segments-IsSegmented_example =
    hdr_validate_segments-IsSegmented sample_json sample segments sample_json-IsJsonC segments_found
      segment_ids segment_fits sample_segments

-- The backup segment 1 stands behind the regular segment 2, which overlaps segment 0.
abbrev linear : Value
linear = member (codes "type") (string (codes "linear")) (
    member (codes "offset") (string (codes "16777216"))
      (member (codes "size") (string (codes "512")) empty_object))

abbrev backup : Value
backup = member (codes "type") (string (codes "linear")) (
    member (codes "offset") (string (codes "16777216")) (
      member (codes "size") (string (codes "512")) (
        member (codes "flags") (element (string (codes "backup-final")) empty_array) empty_object)))

abbrev unordered : Value
unordered =
    member (codes "segments")
      (member (codes "0") linear
        (member (codes "2") linear (member (codes "1") backup empty_object)))
      (member (codes "digests") empty_object empty_object)

unordered_accepted : Segments.hdr_validate_segments sample_json unordered ≡ true
unfolding find_member segment_is_backup segment_contains_flag some_matches segments_get_segment
    digits_of segment_get_size segment_get_offset get_uint64 json_str_to_uint64 json_contains
    numbered find_string same atoi scan_digits scan_sign scan_unsigned skip_space starts_with_digit
    strtoull Segments.next_backup Segments.accept_regular Segments.each_segment Segments.no_gap
    Segments.segment_fields Segments.segment_flags Segments.segment_intervals Segments.segments_from
    Segments.starts_outside Segments.validate_segment_intervals Segments.hdr_validate_segments
    Segments.crypt_segment_validate Segments.some_digest Fields.all_strings
unordered_accepted = refl
