-- ===== src/Luks2/Areas/Find.antt =====
-- lib/luks2/luks2_json_format.c: the area that LUKS2_find_area_gap returns is free, and the first
-- that is.
use cryptsetup.Base.{
  ℕ, zero, suc, ◌+◌, ◌-◌, ◌*◌, ◌^◌, ◌≤◌, ◌<◌, ◌≡◌, ◌≢◌, inl, inr, refl, sym, ap, ◌∙◌, arith, List,
  [], ◌∷◌,
}
use cryptsetup.Base.{
  length, get_elem?, In, some, none, Option, ok, err, einval, ok-injective, if◌then◌else◌, ◌==◌,
  ltb,
}
use cryptsetup.Base.{Bool-cases, false}
use mathlib.Core.Path.{subst}
use cryptsetup.Luks2.Areas.{Area, u64, first_gap, find_area_gap, Layout, area_table, get_area_size}
use cryptsetup.Luks2.Areas.{sorted_areas, keyslots_max}
use cryptsetup.Luks2.Areas.Table.{
  Apart, IsArea, IsPlaced, area_at, area_table-area_at, area_at-area_table, area_table-IsTable,
}
use cryptsetup.Luks2.Areas.Sort.{
  Chain, sort_areas-Chain, sort_areas-In, In-sort_areas, in_use-le-length,
}
use cryptsetup.Luks2.Areas.Gap.{
  Free, first_gap-low, first_gap-high, first_gap-Free, first_gap-least,
}

-- A header with room for keyslots, of which there are at most 32, whose areas lie between the two
-- copies of the header and the end of the keyslots area and do not overlap.
pub record IsLayout (hdr : Layout) : Type 0 where
  pub has_header : 0 < hdr.hdr_size
  pub has_room : 2 * hdr.hdr_size ≤ hdr.areas_size
  pub fits : hdr.areas_size < 2 ^ 64
  pub slots : length hdr.keyslots ≤ 32
  pub placed : IsPlaced (2 * hdr.hdr_size) hdr.areas_size (area_at hdr.keyslots)

length-area_table : (ks : List (Option Area)) → length (area_table ks) ≡ length ks
unfolding area_table
length-area_table [] = refl
length-area_table (none ∷ ks) = ap suc (length-area_table ks)
length-area_table (some a ∷ ks) = ap suc (length-area_table ks)

module _ (hdr : Layout) (v : IsLayout hdr) where
  pub sorted_areas-Chain : Chain (2 * hdr.hdr_size) hdr.areas_size (sorted_areas hdr)
  sorted_areas-Chain =
      sort_areas-Chain keyslots_max (if hdr.areas_size == 0 then 2 ^ 64 - 1 else hdr.areas_size)
        (2 * hdr.hdr_size) hdr.areas_size (area_table hdr.keyslots)
        (area_table-IsTable hdr.keyslots v.placed)

  pub sorted_areas-In :
      (i : ℕ) (a : Area)
      → get_elem? (area_table hdr.keyslots) i ≡ some a
      → a.offset ≢ 0
      → In a (sorted_areas hdr)
  sorted_areas-In i a e nz =
      let b = v.placed.bounds i a (area_table-area_at hdr.keyslots i a e nz) in
      let high = b.high in
      let slots = v.slots in
      let used = in_use-le-length (area_table hdr.keyslots) in
      let len = length-area_table hdr.keyslots in
      sort_areas-In keyslots_max (if hdr.areas_size == 0 then 2 ^ 64 - 1 else hdr.areas_size)
        (area_table hdr.keyslots) i a (omega arith) e nz (ground arith)

  module _ (keylength : ℕ) (small : hdr.areas_size + get_area_size keylength < 2 ^ 64) where
    abbrev gap : ℕ
    gap = first_gap (sorted_areas hdr) (2 * hdr.hdr_size) (get_area_size keylength)

    abbrev place : Area
    place = record { offset = gap; len = get_area_size keylength }

    find_area_gap-eq :
        find_area_gap hdr keylength
        ≡ (if ltb hdr.areas_size (gap + get_area_size keylength) then err einval else ok place)
    unfolding find_area_gap
    find_area_gap-eq =
        let r = v.has_room in
        let f = v.fits in
        let high =
          first_gap-high (sorted_areas hdr) (2 * hdr.hdr_size) hdr.areas_size
            (get_area_size keylength) sorted_areas-Chain (omega (arith, v.has_header)) v.has_room
            small in
        let lo : u64 (2 * hdr.hdr_size) ≡ 2 * hdr.hdr_size = omega arith in
        let end : u64 (gap + get_area_size keylength) ≡ gap + get_area_size keylength =
          omega arith in
        rw (lo, end) refl

    find_area_gap-ok :
        (g : Area)
        → find_area_gap hdr keylength ≡ ok g
        → (gap + get_area_size keylength ≤ hdr.areas_size) × (place ≡ g)
    find_area_gap-ok g h = elim (Bool-cases (ltb hdr.areas_size (gap + get_area_size keylength))) [
      | inl beyond ↦
          let failed : err einval ≡ ok g = sym (find_area_gap-eq ∙ rw beyond refl) ∙ h in absurd cc
      | inr within ↦
          let found : ok place ≡ ok g = sym (find_area_gap-eq ∙ rw within refl) ∙ h in
          (ground arith, ok-injective found)
    ]

    gap-Free :
        (i : ℕ) (a : Area) → area_at hdr.keyslots i ≡ some a → Free gap (get_area_size keylength) a
    gap-Free i a e =
        let r = v.has_header in
        let low = (v.placed.bounds i a e).low in
        first_gap-Free (sorted_areas hdr) (2 * hdr.hdr_size) hdr.areas_size
          (get_area_size keylength) a sorted_areas-Chain (omega arith) small
          (sorted_areas-In i a (area_at-area_table hdr.keyslots i a e) (λ z. absurd (omega arith)))

    gap-low : 2 * hdr.hdr_size ≤ gap
    gap-low =
        let r = v.has_header in
        first_gap-low (sorted_areas hdr) (2 * hdr.hdr_size) hdr.areas_size (get_area_size keylength)
          sorted_areas-Chain (omega arith) small

    gap-least :
        (x : ℕ)
        → 0 < get_area_size keylength
        → IsPlaced
            (2 * hdr.hdr_size)
            hdr.areas_size
            (area_at (some (record { offset = x; len = get_area_size keylength }) ∷ hdr.keyslots))
        → 2 * hdr.hdr_size ≤ x
        → gap ≤ x
    gap-least x some_len t low =
        let r = v.has_header in
        first_gap-least (sorted_areas hdr) (2 * hdr.hdr_size) hdr.areas_size
          (get_area_size keylength) x sorted_areas-Chain (omega arith) small some_len low
          (λ b m.
            let (i, e, nz) =
              In-sort_areas keyslots_max
                (if hdr.areas_size == 0 then 2 ^ 64 - 1 else hdr.areas_size)
                (area_table hdr.keyslots) b m in
            t.apart 0 (suc i) (record { offset = x; len = get_area_size keylength }) b
              (unfold area_at in refl) (unfold area_at in area_table-area_at hdr.keyslots i b e nz)
              (λ z. absurd (omega arith)))

pub cons-IsPlaced :
    (lo hi : ℕ) (g : Area) (ks : List (Option Area))
    → IsArea lo hi g
    → IsPlaced lo hi (area_at ks)
    → ((i : ℕ) (a : Area) → area_at ks i ≡ some a → Apart g a)
    → IsPlaced lo hi (area_at (some g ∷ ks))
unfolding area_at
cons-IsPlaced lo hi g ks v w h = record { bounds = bounds; apart = apart }
  where
    some_eq : {x y : Area} → some x ≡ some y → x ≡ y
    some_eq e = cc

    Apart_comm : (a b : Area) → Apart a b → Apart b a
    Apart_comm a b (inl h) = inr h
    Apart_comm a b (inr h) = inl h

    bounds : (i : ℕ) (a : Area) → area_at (some g ∷ ks) i ≡ some a → IsArea lo hi a
    bounds zero a e = subst (IsArea lo hi) (some_eq e) v
    bounds (suc i) a e = w.bounds i a e

    apart :
        (i j : ℕ) (a b : Area)
        → area_at (some g ∷ ks) i ≡ some a
        → area_at (some g ∷ ks) j ≡ some b
        → i ≢ j
        → Apart a b
    apart zero zero a b e f ne = absurd (ne refl)
    apart zero (suc j) a b e f ne = subst (λ x. Apart x b) (some_eq e) (h j b f)
    apart (suc i) zero a b e f ne = Apart_comm b a (subst (λ x. Apart x a) (some_eq f) (h i a e))
    apart (suc i) (suc j) a b e f ne = w.apart i j a b e f (λ p. ne (ap suc p))

-- The area that is found has the size for the key, lies between the header copies and the end of
-- the keyslots area and overlaps no keyslot's area: it can be that of a further keyslot. Conditions:
-- the areas of the keyslots are so already, the size for the key is not 0, and the sum of that size
-- and the end of the keyslots area is below 2^64.
pub find_area_gap-IsPlaced :
    (hdr : Layout) (keylength : ℕ) (g : Area)
    → IsLayout hdr
    → hdr.areas_size + get_area_size keylength < 2 ^ 64
    → 0 < get_area_size keylength
    → find_area_gap hdr keylength ≡ ok g
    → (g.len ≡ get_area_size keylength)
      × IsPlaced (2 * hdr.hdr_size) hdr.areas_size (area_at (some g ∷ hdr.keyslots))
find_area_gap-IsPlaced hdr keylength g v small some_len h =
    let (within, found) = find_area_gap-ok hdr v keylength small g h in
    subst
      (λ a.
        (a.len ≡ get_area_size keylength)
        × IsPlaced (2 * hdr.hdr_size) hdr.areas_size (area_at (some a ∷ hdr.keyslots)))
      found
      (
        refl,
        cons-IsPlaced (2 * hdr.hdr_size) hdr.areas_size (place hdr v keylength small) hdr.keyslots
            (record { low = gap-low hdr v keylength small; nonempty = some_len; high = within })
            v.placed (gap-Free hdr v keylength small),
      )

-- If there is a place for the area that lies between the header copies and the end of the keyslots
-- area and overlaps no keyslot's area, the search succeeds, and finds no later one. Conditions: the
-- areas of the keyslots lie there and do not overlap, the size for the key is not 0, and the sum of
-- that size and the end of the keyslots area is below 2^64.
pub find_area_gap_first :
    (hdr : Layout) (keylength x : ℕ)
    → IsLayout hdr
    → hdr.areas_size + get_area_size keylength < 2 ^ 64
    → 0 < get_area_size keylength
    → IsPlaced
        (2 * hdr.hdr_size)
        hdr.areas_size
        (area_at (some (record { offset = x; len = get_area_size keylength }) ∷ hdr.keyslots))
    → (g : Area) × (find_area_gap hdr keylength ≡ ok g) × (g.offset ≤ x)
find_area_gap_first hdr keylength x v small some_len t =
    let wanted : Area = record { offset = x; len = get_area_size keylength } in
    let inside = t.bounds 0 wanted (unfold area_at in refl) in
    let least = gap-least hdr v keylength small x some_len t inside.low in
    (
      place hdr v keylength small,
      find_area_gap-eq hdr v keylength small ∙ rw (fits least inside.high) refl,
      least,
    )
  where
    fits :
        gap hdr v keylength small ≤ x
        → x + get_area_size keylength ≤ hdr.areas_size
        → ltb hdr.areas_size (gap hdr v keylength small + get_area_size keylength) ≡ false
    fits least high = ground arith
