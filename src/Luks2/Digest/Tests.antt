-- ===== src/Luks2/Digest/Tests.antt =====
-- lib/luks2/luks2_digest.c, lib/luks2/luks2_keyslot.c: runs on a header with two keyslots, one of
-- which is not bound to a segment.
use cryptsetup.Base.{◌≡◌, refl, arith, [], ◌∷◌, ◌++◌, some, none, ok, true, false}
use cryptsetup.Base.Strings.{same, codes}
use cryptsetup.Json.{find_string, array_jobj}
use cryptsetup.Json.Decimal.{decimal, digits_of, atoi, scan_digits}
use cryptsetup.Json.Laws.{find_member}
use cryptsetup.Json.Sample.{
  Value, string, empty_object, empty_array, member, element, sample_json, sample_json-IsJsonC,
}
use cryptsetup.Luks2.Areas.{
  Area, Layout, find_area_gap, get_area_size, size_round_up, area_table, sort_areas, smallest,
  first_gap, keyslots_max,
}
use cryptsetup.Luks2.Digest.{
  get_digest_jobj, first_free, digest_find_free, keyslot_find_empty, assign_one, digest_naming,
  digest_by_keyslot, digest_by_segment, keyslot_unbound, keyslot_for_segment, assigned_count,
  default_active_count, get_default_segment, keyslot_info, slot_active_last, slot_unbound,
  slot_inactive, digest_unused, digests_erase_unused, erase_unused, digest_max,
}
use cryptsetup.Luks2.Digest.Free.{
  IsLeastFree, digest_find_free-IsLeastFree, keyslot_find_empty-IsLeastFree,
}
use cryptsetup.Luks2.Digest.Assign.{names_of, assign_one-assign_one}
use cryptsetup.Luks2.Segment.{
  get_segment_id_by_flag, first_with_flag, segment_is_backup, segment_contains_flag, some_matches,
  regular_count,
}
use cryptsetup.Luks2.Validate.Keyslots.{get_keyslot_jobj}

abbrev names_0 : Value
names_0 = element (string (codes "0")) empty_array

abbrev names_1 : Value
names_1 = element (string (codes "1")) empty_array

abbrev digest_0 : Value
digest_0 = member (codes "keyslots") names_0 (member (codes "segments") names_0 empty_object)

abbrev digest_1 : Value
digest_1 = member (codes "keyslots") names_1 (member (codes "segments") empty_array empty_object)

abbrev sample : Value
sample =
    member (codes "keyslots")
      (member (codes "0") empty_object (member (codes "1") empty_object empty_object))
      (member (codes "digests")
        (member (codes "0") digest_0 (member (codes "1") digest_1 empty_object))
        (member (codes "segments") (member (codes "0") empty_object empty_object) empty_object))

abbrev layout : Layout
layout = record { hdr_size = 0x4000; areas_size = 0x1000000; keyslots = [] }

free_digest : digest_find_free sample_json sample ≡ some 2
unfolding digest_find_free first_free get_digest_jobj find_member same digits_of
free_digest = refl

digest_find_free-IsLeastFree_example :
    IsLeastFree sample_json (get_digest_jobj sample_json sample) digest_max 2
digest_find_free-IsLeastFree_example = digest_find_free-IsLeastFree sample_json sample 2 free_digest

free_keyslot : keyslot_find_empty sample_json sample layout 64 ≡ ok 2
unfolding keyslot_find_empty first_free get_keyslot_jobj find_member same digits_of find_area_gap
    get_area_size size_round_up area_table sort_areas smallest first_gap
free_keyslot = refl

keyslot_find_empty-IsLeastFree_example :
    IsLeastFree sample_json (get_keyslot_jobj sample_json sample) keyslots_max 2
    × ((a : Area) × (find_area_gap layout 64 ≡ ok a))
keyslot_find_empty-IsLeastFree_example =
    keyslot_find_empty-IsLeastFree sample_json sample layout 64 2 free_keyslot (omega arith)

digest_1_found : get_digest_jobj sample_json sample 1 ≡ some digest_1
unfolding get_digest_jobj find_member same digits_of
digest_1_found = refl

names_1_found : sample_json.get_ex digest_1 (codes "keyslots") ≡ some names_1
unfolding find_member same
names_1_found = refl

not_named : find_string sample_json (sample_json.elements names_1) (decimal 7) ≡ none
unfolding find_string same digits_of
not_named = refl

assign_one-assign_one_example :
    (hdr1 : Value) × (hdr2 : Value) × (assign_one sample_json sample (codes "keyslots") 7 1 true
      ≡ ok hdr1)
    × (assign_one sample_json hdr1 (codes "keyslots") 7 1 false ≡ ok hdr2)
    × (names_of sample_json hdr1 (codes "keyslots") 1
        ≡ sample_json.elements names_1 ++ (string (decimal 7) ∷ []))
    × (names_of sample_json hdr2 (codes "keyslots") 1 ≡ sample_json.elements names_1)
assign_one-assign_one_example =
    assign_one-assign_one sample_json sample digest_1 names_1 (codes "keyslots") 7 1
      sample_json-IsJsonC digest_1_found names_1_found not_named

last_active : keyslot_info sample_json sample 0 ≡ slot_active_last
unfolding keyslot_info keyslot_unbound default_active_count assigned_count keyslot_for_segment
    digest_by_keyslot digest_by_segment digest_naming array_jobj find_string get_default_segment
    get_segment_id_by_flag first_with_flag regular_count segment_is_backup segment_contains_flag
    some_matches get_keyslot_jobj get_digest_jobj find_member same digits_of atoi scan_digits
last_active = refl

unbound : keyslot_info sample_json sample 1 ≡ slot_unbound
unfolding keyslot_info keyslot_unbound digest_by_keyslot digest_naming array_jobj find_string
    get_keyslot_jobj get_digest_jobj find_member same digits_of atoi scan_digits
unbound = refl

inactive : keyslot_info sample_json sample 2 ≡ slot_inactive
unfolding keyslot_info get_keyslot_jobj find_member same digits_of
inactive = refl

nothing_unused : digests_erase_unused sample_json sample ≡ sample
unfolding digests_erase_unused erase_unused digest_unused find_member same
nothing_unused = refl
