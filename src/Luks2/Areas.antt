-- ===== src/Luks2/Areas.antt =====
-- lib/luks2/luks2_json_format.c, lib/luks2/luks2_json_metadata.c: the binary areas of the keyslots,
-- their validation and the search for free space.
pub mod Table
pub mod Sort
pub mod Gap
pub mod Find
pub mod Largest
pub mod MaxGap
pub mod Validate
mod Tests
use cryptsetup.Base.{
  ℕ, zero, suc, ◌+◌, ◌-◌, ◌*◌, ◌/◌, ◌%◌, ◌^◌, List, [], ◌∷◌, ◌++◌, length, replicate,
}
use cryptsetup.Base.{Bool, true, false, not, ◌&&◌, ◌||◌, ◌==◌, ltb, leb, if◌then◌else◌}
use cryptsetup.Base.{Result, ok, err, einval, Option, none, some, get_or, set}

-- `struct area` and `struct interval`
pub record Area : Type 0 where
  pub offset : ℕ
  pub len : ℕ

abbrev pub no_area : Area
no_area = record { offset = 0; len = 0 }

abbrev pub keyslots_max : ℕ
keyslots_max = 32

abbrev pub u64 : ℕ → ℕ
u64 n = n % 2 ^ 64

-- What the search reads of the header: the size of one header copy, the end of the keyslots area,
-- and what LUKS2_keyslot_area returns for each keyslot (`none` for an error).
pub record Layout : Type 0 where
  pub hdr_size : ℕ
  pub areas_size : ℕ
  pub keyslots : List (Option Area)

-- `size_round_up` of lib/utils_device.c
unfoldable pub size_round_up : ℕ → ℕ → ℕ
size_round_up size block = u64 (u64 (size + (block - 1)) / block * block)

unfoldable pub get_area_size : ℕ → ℕ
unfolding size_round_up
get_area_size keylength = size_round_up (u64 (keylength * 4000)) 4096

abbrev pub get_min_offset : Layout → ℕ
get_min_offset hdr = u64 (2 * hdr.hdr_size)

abbrev pub get_max_offset : Layout → ℕ
get_max_offset hdr = hdr.areas_size

-- The table that both searches fill.
unfoldable pub area_table : List (Option Area) → List Area
area_table [] = []
area_table (none ∷ ks) = no_area ∷ area_table ks
area_table (some a ∷ ks) = a ∷ area_table ks

abbrev pub is_candidate : ℕ → Area → Bool
is_candidate offset a = not (a.offset == 0) && leb a.offset offset

-- The search for the smallest offset: `area_i` and `offset` are the best so far, `j` the index of
-- the head of the list.
unfoldable pub smallest : List Area → ℕ → ℕ → Option ℕ → Option ℕ
smallest [] j offset area_i = area_i
smallest (a ∷ areas) j offset area_i =
    let hit = is_candidate offset a in
    smallest areas (suc j) (if hit then a.offset else offset) (if hit then some j else area_i)

-- The sorted table, without the empty entries at its end: `n` rounds are left.
unfoldable pub sort_areas : ℕ → ℕ → List Area → List Area
sort_areas zero start areas = []
sort_areas (suc n) start areas = elim (smallest areas 0 start none) [
  | none ↦ sort_areas n start areas
  | some i ↦ get_or areas i no_area ∷ sort_areas n start (set areas i no_area)
]

abbrev pub sorted_areas : Layout → List Area
sorted_areas hdr =
    let start : ℕ = if get_max_offset hdr == 0 then 2 ^ 64 - 1 else get_max_offset hdr in
    sort_areas keyslots_max start (area_table hdr.keyslots)

abbrev pub is_empty : Area → Bool
is_empty a = a.offset == 0 || a.len == 0

-- The loop of LUKS2_find_area_gap.
unfoldable pub first_gap : List Area → ℕ → ℕ → ℕ
first_gap [] offset len = offset
first_gap (a ∷ areas) offset len =
    let rest = first_gap areas (if is_empty a then offset else u64 (a.offset + a.len)) len in
    if not (is_empty a) && (ltb offset a.offset && leb (u64 (offset + len)) a.offset)
    then offset
    else rest

-- `LUKS2_find_area_gap`: the offset and length of a free area.
unfoldable pub find_area_gap : Layout → ℕ → Result Area
unfolding sort_areas smallest first_gap area_table get_area_size
find_area_gap hdr keylength =
    let len = get_area_size keylength in
    let offset = first_gap (sorted_areas hdr) (get_min_offset hdr) len in
    if ltb (get_max_offset hdr) (u64 (offset + len))
    then err einval
    else ok (record { offset = offset; len = len })

-- The loop of LUKS2_find_area_max_gap; `best` is `valid_offset` and `length`.
unfoldable pub largest_gap : List Area → ℕ → Area → Area
largest_gap [] offset best = best
largest_gap (a ∷ areas) offset best =
    let bigger = not (is_empty a) && (ltb offset a.offset && ltb best.len (a.offset - offset)) in
    largest_gap areas (if is_empty a then offset else u64 (a.offset + a.len))
      (if bigger then record { offset = offset; len = a.offset - offset } else best)

-- `LUKS2_find_area_max_gap`, with the end of the keyslots area as a last area. Its two assertions
-- are not modelled.
unfoldable pub find_area_max_gap : Layout → Result Area
unfolding sort_areas smallest largest_gap area_table
find_area_max_gap hdr =
    let last : Area = record { offset = get_max_offset hdr; len = 1 } in
    let best = largest_gap (sorted_areas hdr ++ (last ∷ [])) (get_min_offset hdr) no_area in
    if best.len == 0 then err einval else ok best

-- The inner loop of `validate_intervals`: `a` is interval `i`, and `j` the index of the head.
unfoldable pub no_overlap : Area → ℕ → List Area → ℕ → Bool
no_overlap a i [] j = true
no_overlap a i (b ∷ ix) j =
    (i == j || not (leb b.offset a.offset && ltb a.offset (u64 (b.offset + b.len))))
    && no_overlap a i ix (suc j)

abbrev pub is_inside : ℕ → ℕ → Area → Bool
is_inside metadata_size end a =
    not (ltb a.offset (u64 (2 * metadata_size)))
    && (not (a.len == 0) && not (ltb end (u64 (a.offset + a.len))))

-- The outer loop; `rest` are the intervals from `i` on.
unfoldable pub validate_from : ℕ → ℕ → List Area → List Area → ℕ → Bool
unfolding no_overlap
validate_from metadata_size end ix [] i = true
validate_from metadata_size end ix (a ∷ rest) i =
    is_inside metadata_size end a
    && (no_overlap a i ix 0 && validate_from metadata_size end ix rest (suc i))

unfoldable pub validate_intervals : List Area → ℕ → ℕ → Bool
unfolding validate_from
validate_intervals ix metadata_size end = validate_from metadata_size end ix ix 0

-- `LUKS2_check_metadata_area_size` and `LUKS2_check_keyslots_area_size`: whether they refuse.
unfoldable pub check_metadata_area_size : ℕ → Bool
check_metadata_area_size n = not (
    n == 0x4000
    || (n == 0x8000
        || (n == 0x10000
            || (n == 0x20000
                || (n == 0x40000
                    || (n == 0x80000 || (n == 0x100000 || (n == 0x200000 || n == 0x400000))))))))

-- `MISALIGNED_4K(x)` is `x & 4095`, the remainder by 4096.
unfoldable pub check_keyslots_area_size : ℕ → Bool
check_keyslots_area_size n = not (n % 4096 == 0) || ltb 0x8000000 n
