-- ===== src/Luks2/Areas/Tests.antt =====
-- lib/luks2/luks2_json_format.c, lib/luks2/luks2_json_metadata.c: runs on a header with three
-- keyslots, one of which has no area.
use cryptsetup.Base.{
  ℕ, zero, suc, ◌+◌, ◌<◌, ◌≤◌, ◌≡◌, sym, ◌∙◌, refl, arith, List, [], ◌∷◌, some, ok, true, get_elem?,
}
use mathlib.Core.List.{map}
use cryptsetup.Luks2.Areas.{Area, Layout, find_area_gap, find_area_max_gap, get_area_size}
use cryptsetup.Luks2.Areas.{
  validate_intervals, validate_from, no_overlap, area_table, smallest, sort_areas, first_gap,
  largest_gap, size_round_up,
}
use cryptsetup.Luks2.Areas.Table.{IsPlaced, area_at}
use cryptsetup.Luks2.Areas.Find.{IsLayout, find_area_gap-IsPlaced, find_area_gap_first}
use cryptsetup.Luks2.Areas.Validate.{validate_intervals-IsPlaced, validate_intervals_wraps}

abbrev slot_0 : Area
slot_0 = record { offset = 0x8000; len = 0x3f000 }

abbrev slot_1 : Area
slot_1 = record { offset = 0x86000; len = 0x3f000 }

abbrev sample : Layout
sample = record {
  hdr_size = 0x4000;
  areas_size = 0x1000000;
  keyslots = some slot_1 ∷ some slot_0 ∷ [];
}

abbrev free_area : Area
free_area = record { offset = 0x47000; len = 0x3f000 }

sample_gap : find_area_gap sample 64 ≡ ok free_area
unfolding find_area_gap get_area_size size_round_up area_table sort_areas smallest first_gap
sample_gap = refl

sample_max_gap : find_area_max_gap sample ≡ ok (record { offset = 0xc5000; len = 0xf3b000 })
unfolding find_area_max_gap area_table sort_areas smallest largest_gap
sample_max_gap = refl

sample_size : get_area_size 64 ≡ 0x3f000
unfolding get_area_size size_round_up
sample_size = refl

sample_accepted : validate_intervals (slot_1 ∷ slot_0 ∷ []) 0x4000 0x1000000 ≡ true
unfolding validate_intervals validate_from no_overlap
sample_accepted = refl

validate_intervals-IsPlaced_example : IsPlaced 0x8000 0x1000000 (get_elem? (slot_1 ∷ slot_0 ∷ []))
validate_intervals-IsPlaced_example =
    validate_intervals-IsPlaced (slot_1 ∷ slot_0 ∷ []) 0x4000 0x1000000 (omega arith)
      (omega arith, (omega arith, tt)) sample_accepted

-- Keyslots that all have an area.
area_at-map : (ix : List Area) (i : ℕ) → area_at (map some ix) i ≡ get_elem? ix i
unfolding area_at
area_at-map [] i = refl
area_at-map (a ∷ ix) zero = refl
area_at-map (a ∷ ix) (suc i) = area_at-map ix i

map-IsPlaced :
    {lo hi : ℕ} (ix : List Area)
    → IsPlaced lo hi (get_elem? ix)
    → IsPlaced lo hi (area_at (map some ix))
map-IsPlaced ix v = record {
  bounds = λ i a e. v.bounds i a (sym (area_at-map ix i) ∙ e);
  apart = λ i k a b e f ne.
      v.apart i k a b (sym (area_at-map ix i) ∙ e) (sym (area_at-map ix k) ∙ f) ne;
}

sample-IsLayout : IsLayout sample
sample-IsLayout = record {
  has_header = omega arith;
  has_room = omega arith;
  fits = omega arith;
  slots = omega arith;
  placed = map-IsPlaced (slot_1 ∷ slot_0 ∷ []) validate_intervals-IsPlaced_example;
}

find_area_gap-IsPlaced_example :
    (free_area.len ≡ get_area_size 64)
    × IsPlaced 0x8000 0x1000000 (area_at (some free_area ∷ sample.keyslots))
find_area_gap-IsPlaced_example =
    find_area_gap-IsPlaced sample 64 free_area sample-IsLayout (omega (arith, sample_size))
      (omega (arith, sample_size)) sample_gap

abbrev later_area : Area
later_area = record { offset = 0x200000; len = 0x3f000 }

later_accepted : validate_intervals (later_area ∷ slot_1 ∷ slot_0 ∷ []) 0x4000 0x1000000 ≡ true
unfolding validate_intervals validate_from no_overlap
later_accepted = refl

later_area-IsPlaced : IsPlaced 0x8000 0x1000000 (area_at (some later_area ∷ sample.keyslots))
later_area-IsPlaced = map-IsPlaced (later_area ∷ slot_1 ∷ slot_0 ∷ []) (
    validate_intervals-IsPlaced (later_area ∷ slot_1 ∷ slot_0 ∷ []) 0x4000 0x1000000 (omega arith)
      (omega arith, (omega arith, (omega arith, tt))) later_accepted)

later-IsPlaced :
    IsPlaced 0x8000 0x1000000
      (area_at (some (record { offset = 0x200000; len = get_area_size 64 }) ∷ sample.keyslots))
unfolding get_area_size size_round_up
later-IsPlaced = later_area-IsPlaced

find_area_gap_first_example : (g : Area) × (find_area_gap sample 64 ≡ ok g) × (g.offset ≤ 0x200000)
find_area_gap_first_example =
    find_area_gap_first sample 64 0x200000 sample-IsLayout (omega (arith, sample_size))
      (omega (arith, sample_size)) later-IsPlaced

abbrev wrapping : Area
wrapping = record { offset = 0xfffffffffffff000; len = 0x2000 }

validate_intervals_wraps_example :
    (validate_intervals (wrapping ∷ []) 0x4000 0x1000000 ≡ true)
    × (0x1000000 < wrapping.offset + wrapping.len)
validate_intervals_wraps_example =
    validate_intervals_wraps wrapping 0x4000 0x1000000 (omega arith) (omega arith) (omega arith)
      (omega arith) (omega arith) (omega arith)
