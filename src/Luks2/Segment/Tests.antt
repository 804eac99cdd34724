-- ===== src/Luks2/Segment/Tests.antt =====
-- lib/luks2/luks2_segment.c: runs on a header with two regular segments and a backup.
use cryptsetup.Base.{
  ℕ, List, [], ◌∷◌, ◌++◌, In, ap, ◌<◌, ◌≡◌, ◌≤◌, refl, arith, true, false, none, some, ok, inl, inr,
}
use cryptsetup.Base.Strings.{same, codes}
use cryptsetup.Json.{get_uint64, json_str_to_uint64, new_uint64, find_string}
use cryptsetup.Json.Decimal.{
  strtoull, skip_space, scan_sign, scan_unsigned, starts_with_digit, scan_digits, atoi,
}
use cryptsetup.Json.Laws.{find_member}
use cryptsetup.Json.Number.{json_str_to_uint64-new_uint64}
use cryptsetup.Json.Sample.{
  Value, string, empty_object, empty_array, member, element, sample_json, sample_json-IsJsonC,
}
use cryptsetup.Luks2.Segment.{
  segment_set_flag, segment_remove_flag, segments_get_segment, segment_first_unused_id, after_last,
}
use cryptsetup.Luks2.Segment.{
  segments_get_minimal_offset, least_offset, segment_is_backup, segment_contains_flag, some_matches,
  segment_get_offset, segment_by_type, first_of_type, segment_type, in_units,
}
use cryptsetup.Luks2.Segment.Ids.{
  segment_first_unused_id_free, segments_get_minimal_offset_least, Attained, int_max,
}
use cryptsetup.Luks2.Segment.Flags.{flags_of, segment_remove_flag-segment_set_flag}

abbrev segment_0 : Value
segment_0 =
    member (codes "type") (string (codes "crypt"))
      (member (codes "offset") (string (codes "16777216")) empty_object)

abbrev segment_1 : Value
segment_1 =
    member (codes "type") (string (codes "linear"))
      (member (codes "offset") (string (codes "33554432")) empty_object)

abbrev backup : Value
backup =
    member (codes "offset") (string (codes "512"))
      (member (codes "flags") (element (string (codes "backup-final")) empty_array) empty_object)

abbrev sample_segments : Value
sample_segments =
    member (codes "0") segment_0
      (member (codes "1") segment_1 (member (codes "2") backup empty_object))

abbrev sample : Value
sample = member (codes "segments") sample_segments empty_object

json_str_to_uint64-new_uint64_example :
    json_str_to_uint64 sample_json (new_uint64 sample_json 18446744073709551615)
    ≡ some 18446744073709551615
json_str_to_uint64-new_uint64_example =
    json_str_to_uint64-new_uint64 sample_json 18446744073709551615 sample_json-IsJsonC (omega arith)

segments_found : sample_json.get_ex sample (codes "segments") ≡ some sample_segments
unfolding find_member same
segments_found = refl

unused_found : segment_first_unused_id sample_json sample ≡ ok 3
unfolding segment_first_unused_id find_member same after_last atoi scan_digits
unused_found = refl

sample_ids :
    (m : List ℕ × Value) → In m (sample_json.members sample_segments) → atoi (m.0) < int_max
unfolding atoi scan_digits
sample_ids m (inl e) = omega (arith, ap (λ (x : List ℕ × Value). atoi (x.0)) e)
sample_ids m (inr (inl e)) = omega (arith, ap (λ (x : List ℕ × Value). atoi (x.0)) e)
sample_ids m (inr (inr (inl e))) = omega (arith, ap (λ (x : List ℕ × Value). atoi (x.0)) e)
sample_ids m (inr (inr (inr none_left))) = elim none_left [ ]

segment_first_unused_id_free_example :
    (3 ≤ int_max)
    × ((m : List ℕ × Value) → In m (sample_json.members sample_segments) → atoi (m.0) < 3)
    × (segments_get_segment sample_json sample_segments 3 ≡ none)
segment_first_unused_id_free_example =
    segment_first_unused_id_free sample_json sample sample_segments 3 sample_json-IsJsonC
      segments_found sample_ids unused_found

sample_minimal : segments_get_minimal_offset sample_json (some sample_segments) false ≡ 16777216
unfolding segments_get_minimal_offset least_offset segment_is_backup segment_contains_flag
    some_matches segment_get_offset find_member same get_uint64 json_str_to_uint64 strtoull
    skip_space scan_sign scan_unsigned starts_with_digit scan_digits
sample_minimal = refl

regular_1 : segment_is_backup sample_json segment_1 ≡ false
unfolding segment_is_backup segment_contains_flag some_matches find_member same
regular_1 = refl

segments_get_minimal_offset_least_example :
    (segments_get_minimal_offset sample_json (some sample_segments) true
      ≤ segment_get_offset sample_json (some segment_1) true)
    × Attained sample_json
        (sample_json.members sample_segments)
        true
        (in_units true 18446744073709551615)
        (segments_get_minimal_offset sample_json (some sample_segments) true)
segments_get_minimal_offset_least_example =
    segments_get_minimal_offset_least sample_json sample_segments segment_1 (codes "1") true
      (inr (inl refl)) regular_1

no_flag : find_string sample_json (flags_of sample_json backup) (codes "in-reencryption") ≡ none
unfolding find_string find_member same
no_flag = refl

segment_remove_flag-segment_set_flag_example :
    (flags_of sample_json (segment_set_flag sample_json backup (codes "in-reencryption"))
      ≡ flags_of sample_json backup ++ (string (codes "in-reencryption") ∷ []))
    × (flags_of sample_json (
          segment_remove_flag sample_json
            (segment_set_flag sample_json backup (codes "in-reencryption"))
            (codes "in-reencryption"))
        ≡ flags_of sample_json backup)
segment_remove_flag-segment_set_flag_example =
    segment_remove_flag-segment_set_flag sample_json backup (codes "in-reencryption")
      sample_json-IsJsonC no_flag

first_linear : segment_by_type sample_json sample (codes "linear") ≡ ok (some 1)
unfolding segment_by_type find_member same first_of_type segment_is_backup segment_contains_flag
    some_matches segment_type atoi scan_digits
first_linear = refl
