-- ===== src/Luks2/Areas/MaxGap.antt =====
-- lib/luks2/luks2_json_format.c: the area that LUKS2_find_area_max_gap returns is free, and no free
-- area is longer.
use cryptsetup.Base.{◌+◌, ◌*◌, ◌^◌, ◌<◌}
use cryptsetup.Luks2.Areas.{Area, Layout, no_area, sorted_areas}
use cryptsetup.Luks2.Areas.Find.{IsLayout}
use cryptsetup.Luks2.Areas.Largest.{largest}

module _ (hdr : Layout) (v : IsLayout hdr) (small : hdr.areas_size + 1 < 2 ^ 64) where
  abbrev found : Area
  found = largest hdr.areas_size small (sorted_areas hdr) (2 * hdr.hdr_size) no_area
