-- ===== src/Luks2/Digest.antt =====
-- lib/luks2/luks2_digest.c, lib/luks2/luks2_keyslot.c: digests, the keyslots and segments that they
-- are assigned to, and the states and priorities of keyslots. An operation returns the header's
-- changed JSON value; writing it to the device is Luks2/Disk. After an error the value is lost; in C
-- a loop over all digests keeps what it changed before.
pub mod Assign
pub mod Free
mod Tests
use cryptsetup.Base.{
  ℕ, zero, suc, ◌+◌, List, [], ◌∷◌, length, Bool, true, false, not, ◌&&◌, ◌||◌, ◌==◌, leb, ltb,
  if◌then◌else◌, Option, none, some, Result, ok, err, ◌>>=◌, ◌>>◌, guard, einval, enoent, enospc,
}
use cryptsetup.Base.Strings.{codes}
use cryptsetup.Json.{JsonC, object_type, array_type, array_jobj, array_remove}
use cryptsetup.Json.Decimal.{decimal, atoi}
use cryptsetup.Luks2.Areas.{Layout, keyslots_max, find_area_gap}
use cryptsetup.Luks2.Segment.{segments_count, get_segment_id_by_flag}
use cryptsetup.Luks2.Validate.Fields.{◌>>?◌, need, array_member}
use cryptsetup.Luks2.Validate.Keyslots.{value_or, get_keyslot_jobj}

abbrev pub digest_max : ℕ
digest_max = 8

-- `crypt_keyslot_info`
pub data KeyslotInfo : Type 0 where
  slot_invalid slot_inactive slot_active slot_active_last slot_unbound : KeyslotInfo

module _ (j : JsonC) where
  -- `LUKS2_get_digest_jobj`
  unfoldable pub get_digest_jobj : j.Json → ℕ → Option j.Json
  get_digest_jobj hdr digest =
      j.get_ex hdr (codes "digests") >>? λ digests. j.get_ex digests (decimal digest)

  -- The loops that look for a number without an object, of which `n` are left from `i` on.
  unfoldable pub first_free : (ℕ → Option j.Json) → ℕ → ℕ → Option ℕ
  first_free get zero i = none
  first_free get (suc n) i =
      let rest = first_free get n (suc i) in elim (get i) [ none ↦ some i | some _ ↦ rest ]

  -- `LUKS2_digest_find_free`
  unfoldable pub digest_find_free : j.Json → Option ℕ
  unfolding first_free
  digest_find_free hdr = first_free (get_digest_jobj hdr) digest_max 0

  -- `LUKS2_keyslot_find_empty`, on a header whose layout is given; without a key length the areas
  -- are not looked at.
  unfoldable pub keyslot_find_empty : j.Json → Layout → ℕ → Result ℕ
  unfolding first_free
  keyslot_find_empty hdr layout keylength =
      value_or (first_free (get_keyslot_jobj j hdr) keyslots_max 0) einval >>= λ i.
      if keylength == 0
      then ok i
      else elim (find_area_gap layout keylength) [ ok _ ↦ ok i | err _ ↦ err enospc ]

  -- The first digest that names an id in its array.
  unfoldable pub digest_naming : List (List ℕ × j.Json) → List ℕ → List ℕ → Result ℕ
  unfolding array_jobj
  digest_naming [] section name = err enoent
  digest_naming (m ∷ ms) section name =
      let rest = digest_naming ms section name in
      if need (j.get_ex (m.1) section >>? λ names. array_jobj j names name) (λ _. true)
      then ok (atoi (m.0))
      else rest

  -- `LUKS2_digest_by_keyslot`, and `LUKS2_digest_by_segment` for the number of a segment.
  unfoldable pub digest_by_keyslot : j.Json → ℕ → Result ℕ
  unfolding digest_naming
  digest_by_keyslot hdr keyslot = elim (j.get_ex hdr (codes "digests")) [
    | none ↦ err enoent
    | some digests ↦ digest_naming (j.members digests) (codes "keyslots") (decimal keyslot)
  ]

  unfoldable pub digest_by_segment : j.Json → ℕ → Result ℕ
  unfolding digest_naming
  digest_by_segment hdr segment = elim (j.get_ex hdr (codes "digests")) [
    | none ↦ err enoent
    | some digests ↦ digest_naming (j.members digests) (codes "segments") (decimal segment)
  ]

  abbrev pub put_digest : j.Json → ℕ → j.Json → j.Json
  put_digest hdr digest jobj_digest = elim (j.get_ex hdr (codes "digests")) [
    | none ↦ hdr
    | some digests ↦
        j.object_add hdr (codes "digests") (j.object_add digests (decimal digest) jobj_digest)
  ]

  abbrev pub with_name : j.Json → List ℕ → j.Json → List ℕ → j.Json
  with_name jobj_digest section names num = elim (array_jobj j names num) [
    | none ↦ j.object_add jobj_digest section (j.array_add names (j.new_string num))
    | some _ ↦ jobj_digest
  ]

  abbrev pub without_name : j.Json → List ℕ → j.Json → List ℕ → j.Json
  without_name jobj_digest section names num = elim (array_remove j names num) [
    | none ↦ jobj_digest
    | some names_new ↦ j.object_add jobj_digest section names_new
  ]

  -- `assign_one_digest` (the section is `keyslots`) and `assign_one_segment` (`segments`).
  unfoldable pub assign_one : j.Json → List ℕ → ℕ → ℕ → Bool → Result j.Json
  assign_one hdr section id digest assign =
      value_or (get_digest_jobj hdr digest) einval >>= λ jobj_digest.
      value_or (j.get_ex jobj_digest section) einval >>= λ names. ok (
        put_digest hdr digest (
          if assign
          then with_name jobj_digest section names (decimal id)
          else without_name jobj_digest section names (decimal id)))

  unfoldable pub assign_each :
      (j.Json → ℕ → Result j.Json) → List (List ℕ × j.Json) → j.Json → Result j.Json
  assign_each one [] hdr = ok hdr
  assign_each one (m ∷ ms) hdr = one hdr (atoi (m.0)) >>= λ changed. assign_each one ms changed

  -- One digest, or all of them for CRYPT_ANY_DIGEST.
  abbrev pub assign_digests : (j.Json → ℕ → Result j.Json) → j.Json → Option ℕ → Result j.Json
  assign_digests one hdr (some digest) = one hdr digest
  assign_digests one hdr none = elim (j.get_ex hdr (codes "digests")) [
    | none ↦ ok hdr
    | some digests ↦ assign_each one (j.members digests) hdr
  ]

  -- `LUKS2_digest_assign`, without writing the header.
  unfoldable pub digest_assign : j.Json → ℕ → Option ℕ → Bool → Result j.Json
  unfolding assign_one assign_each
  digest_assign hdr keyslot digest assign =
      assign_digests (λ h d. assign_one h (codes "keyslots") keyslot d assign) hdr digest

  abbrev pub add_names : List (List ℕ × j.Json) → j.Json → j.Json
  add_names [] names = names
  add_names (m ∷ ms) names = add_names ms (elim (array_jobj j names (m.0)) [
    | none ↦ j.array_add names (j.new_string (m.0))
    | some _ ↦ names
  ])

  abbrev pub segment_members : j.Json → List (List ℕ × j.Json)
  segment_members hdr = elim (j.get_ex hdr (codes "segments")) [
    | none ↦ []
    | some segments ↦ j.members segments
  ]

  -- `assign_all_segments`
  unfoldable pub assign_all_segments : j.Json → ℕ → Bool → Result j.Json
  assign_all_segments hdr digest assign =
      value_or (get_digest_jobj hdr digest) einval >>= λ jobj_digest.
      value_or (j.get_ex jobj_digest (codes "segments")) einval >>= λ names. ok (
        put_digest hdr digest (
          j.object_add jobj_digest (codes "segments")
            (if assign then add_names (segment_members hdr) names else j.new_array [])))

  -- `LUKS2_digest_segment_assign` for the number of a segment, or for all of them.
  unfoldable pub digest_segment_assign : j.Json → Option ℕ → Option ℕ → Bool → Result j.Json
  unfolding assign_one assign_each assign_all_segments
  digest_segment_assign hdr (some segment) digest assign =
      assign_digests (λ h d. assign_one h (codes "segments") segment d assign) hdr digest
  digest_segment_assign hdr none digest assign =
      assign_digests (λ h d. assign_all_segments h d assign) hdr digest

  abbrev pub empty_array : j.Json → List ℕ → Bool
  empty_array jobj key =
      need (j.get_ex jobj key) (λ a. j.is_type a array_type && length (j.elements a) == 0)

  -- `digest_unused`
  unfoldable pub digest_unused : j.Json → Bool
  digest_unused digest =
      empty_array digest (codes "segments") && empty_array digest (codes "keyslots")

  unfoldable pub erase_unused : List (List ℕ × j.Json) → j.Json → j.Json
  unfolding digest_unused
  erase_unused [] digests = digests
  erase_unused (m ∷ ms) digests =
      erase_unused ms (if digest_unused (m.1) then j.object_del digests (m.0) else digests)

  -- `LUKS2_digests_erase_unused`
  unfoldable pub digests_erase_unused : j.Json → j.Json
  unfolding erase_unused
  digests_erase_unused hdr = elim (j.get_ex hdr (codes "digests")) [
    | none ↦ hdr
    | some digests ↦
        if j.is_type digests object_type
        then j.object_add hdr (codes "digests") (erase_unused (j.members digests) digests)
        else hdr
  ]

  -- `LUKS2_keyslot_priority_set`, without writing the header. The priorities are ignore (0),
  -- normal (1) and prefer (2).
  unfoldable pub keyslot_priority_set : j.Json → ℕ → ℕ → Result j.Json
  keyslot_priority_set hdr keyslot priority =
      value_or (j.get_ex hdr (codes "keyslots")) einval >>= λ keyslots.
      value_or (j.get_ex keyslots (decimal keyslot)) einval >>= λ jobj_keyslot. ok (
        j.object_add hdr (codes "keyslots") (
          j.object_add keyslots (decimal keyslot) (
            if priority == 1
            then j.object_del jobj_keyslot (codes "priority")
            else j.object_add jobj_keyslot (codes "priority") (j.new_int priority))))

  -- `LUKS2_get_default_segment`
  unfoldable pub get_default_segment : j.Json → Result ℕ
  get_default_segment hdr = elim (get_segment_id_by_flag j hdr (codes "backup-final")) [
    | ok s ↦ ok s
    | err _ ↦ if segments_count j (j.get_ex hdr (codes "segments")) == 1 then ok 0 else err einval
  ]

  -- `LUKS2_keyslot_for_segment` for the number of a segment: whether it returns 0.
  unfoldable pub keyslot_for_segment : j.Json → ℕ → ℕ → Bool
  unfolding digest_by_keyslot digest_by_segment
  keyslot_for_segment hdr keyslot segment = elim (digest_by_keyslot hdr keyslot) [
    | err _ ↦ false
    | ok digest ↦ elim (digest_by_segment hdr segment) [ err _ ↦ false | ok d ↦ digest == d ]
  ]

  unfoldable pub assigned_count : j.Json → List (List ℕ × j.Json) → ℕ → ℕ
  unfolding keyslot_for_segment
  assigned_count hdr [] segment = 0
  assigned_count hdr (m ∷ ms) segment =
      let rest = assigned_count hdr ms segment in
      if keyslot_for_segment hdr (atoi (m.0)) segment then suc rest else rest

  -- `LUKS2_keyslot_active_count` for the default segment; no keyslot is counted if there is none.
  unfoldable pub default_active_count : j.Json → ℕ
  unfolding assigned_count get_default_segment
  default_active_count hdr = elim (get_default_segment hdr) [
    | err _ ↦ 0
    | ok segment ↦ elim (j.get_ex hdr (codes "keyslots")) [
      | none ↦ 0
      | some keyslots ↦ assigned_count hdr (j.members keyslots) segment
    ]
  ]

  -- `LUKS2_keyslot_unbound`
  unfoldable pub keyslot_unbound : j.Json → ℕ → Bool
  unfolding digest_by_keyslot
  keyslot_unbound hdr keyslot = elim (digest_by_keyslot hdr keyslot) [
    | err _ ↦ false
    | ok digest ↦ elim (get_digest_jobj hdr digest) [
      | none ↦ false
      | some jobj_digest ↦ elim (j.get_ex jobj_digest (codes "segments")) [
        | none ↦ true
        | some names ↦ not (j.is_type names array_type) || length (j.elements names) == 0
      ]
    ]
  ]

  -- `LUKS2_keyslot_info`
  unfoldable pub keyslot_info : j.Json → ℕ → KeyslotInfo
  unfolding keyslot_unbound default_active_count
  keyslot_info hdr keyslot =
      if leb keyslots_max keyslot then slot_invalid else elim (get_keyslot_jobj j hdr keyslot) [
        | none ↦ slot_inactive
        | some _ ↦ elim (digest_by_keyslot hdr keyslot) [
          | err _ ↦ slot_unbound
          | ok _ ↦
              if keyslot_unbound hdr keyslot
              then slot_unbound
              else if default_active_count hdr == 1 && elim (get_default_segment hdr) [
                | err _ ↦ false
                | ok segment ↦ keyslot_for_segment hdr keyslot segment
              ]
              then slot_active_last
              else slot_active
        ]
      ]
