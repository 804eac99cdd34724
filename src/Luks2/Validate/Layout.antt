-- ===== src/Luks2/Validate/Layout.antt =====
-- lib/luks2/luks2_json_metadata.c, lib/luks2/luks2_json_format.c: the checks of a header establish
-- what the search for a free area relies on.
use cryptsetup.Base.{
  ℕ, zero, suc, ◌+◌, ◌*◌, ◌^◌, ◌<◌, ◌≡◌, refl, sym, ap, ◌∙◌, arith, List, [], ◌∷◌, length, ◌==◌,
  ◌||◌, All, get_elem?, Option, some, none, true, false, Result, ok, err, Bool,
}
use cryptsetup.Base.Strings.{codes}
use mathlib.Core.Path.{subst}
use cryptsetup.Json.{JsonC}
use cryptsetup.Json.Laws.{IsJsonC}
use cryptsetup.Json.Number.{decimal-injective}
use cryptsetup.Luks2.Areas.{Area, Layout, keyslots_max, validate_intervals}
use cryptsetup.Luks2.Struct.{hdr_bin_len}
use cryptsetup.Luks2.Areas.Table.{IsPlaced, area_at}
use cryptsetup.Luks2.Areas.Find.{IsLayout}
use cryptsetup.Luks2.Areas.Validate.{Fits, validate_intervals-IsPlaced}
use cryptsetup.Luks2.Validate.Fields.{
  need, need-true, both_true, some-injective, hdr_validate_tokens, hdr_validate_digests,
  hdr_validate_keyslots,
}
use cryptsetup.Luks2.Validate.Segments.{hdr_validate_segments}
use cryptsetup.Luks2.Validate.Keyslots.{keyslot_area}
use cryptsetup.Luks2.Validate.Areas.{keyslot_area-get_elem?}
use cryptsetup.Luks2.Validate.Sizes.{
  config_sizes, metadata_bounds, keyslots_bound, areas_size-eq, json_size-eq,
}
use cryptsetup.Luks2.Validate.Header.{
  keyslot_intervals, hdr_validate, hdr_validate_areas, hdr_and_areas_size_jobj, metadata_size_jobj,
  keyslots_size_jobj, hdr_validate_config, hdr_validate_json_size,
}

module _ (j : JsonC) where
  unfoldable pub keyslot_areas : j.Json → ℕ → ℕ → List (Option Area)
  keyslot_areas hdr zero i = []
  keyslot_areas hdr (suc n) i =
      elim (keyslot_area j hdr i) [ ok a ↦ some a | err e ↦ none ] ∷ keyslot_areas hdr n (suc i)

  -- What LUKS2_find_area_gap reads of a header whose copies have `hdr_size` bytes.
  abbrev pub layout_of : j.Json → ℕ → Layout
  layout_of hdr hdr_size = record {
    hdr_size = hdr_size;
    areas_size = hdr_and_areas_size_jobj j hdr;
    keyslots = keyslot_areas hdr keyslots_max 0;
  }

  length-keyslot_areas : (hdr : j.Json) (n i : ℕ) → length (keyslot_areas hdr n i) ≡ n
  unfolding keyslot_areas
  length-keyslot_areas hdr zero i = refl
  length-keyslot_areas hdr (suc n) i = ap suc (length-keyslot_areas hdr n (suc i))

  -- The area of a keyslot of the layout is what LUKS2_keyslot_area returns.
  keyslot_areas-keyslot_area :
      (hdr : j.Json) (n i k : ℕ) (a : Area)
      → area_at (keyslot_areas hdr n i) k ≡ some a
      → keyslot_area j hdr (i + k) ≡ ok a
  unfolding keyslot_areas area_at
  keyslot_areas-keyslot_area hdr zero i k a e = absurd cc
  keyslot_areas-keyslot_area hdr (suc n) i zero a e =
      ap (λ m. keyslot_area j hdr m) plus_zero ∙ found (keyslot_area j hdr i) e
    where
      plus_zero : i + 0 ≡ i
      plus_zero = omega arith

      found : (r : Result Area) → (elim r [ ok b ↦ some b | err c ↦ none ]) ≡ some a → r ≡ ok a
      found (ok b) f = let same_area : b ≡ a = cc in ap ok same_area
      found (err c) f = absurd cc
  keyslot_areas-keyslot_area hdr (suc n) i (suc k) a e =
      let index : i + suc k ≡ suc i + k = omega arith in
      ap (λ m. keyslot_area j hdr m) index ∙ keyslot_areas-keyslot_area hdr n (suc i) k a e

  area_found :
      (hdr : j.Json) (i : ℕ) (a : Area)
      → area_at (keyslot_areas hdr keyslots_max 0) i ≡ some a
      → keyslot_area j hdr i ≡ ok a
  area_found hdr i a e =
      let index : i ≡ 0 + i = omega arith in
      ap (λ k. keyslot_area j hdr k) index ∙ keyslot_areas-keyslot_area hdr keyslots_max 0 i a e

  pair_key :
      {k k' : List ℕ} {v v' : j.Json}
      → ◌≡◌ {A = Option (List ℕ × j.Json)} (some (k, v)) (some (k', v'))
      → k ≡ k'
  pair_key {k} e = ap (λ o. elim o [ some m ↦ m.0 | none ↦ k ]) e

  -- The areas of the keyslots are placed as the intervals are.
  keyslot_areas-IsPlaced :
      (hdr keyslots : j.Json) (ix : List Area) (lo hi : ℕ)
      → IsJsonC j
      → j.get_ex hdr (codes "keyslots") ≡ some keyslots
      → keyslot_intervals j (j.members keyslots) ≡ some ix
      → IsPlaced lo hi (get_elem? ix)
      → IsPlaced lo hi (area_at (keyslot_areas hdr keyslots_max 0))
  keyslot_areas-IsPlaced hdr keyslots ix lo hi laws found intervals t = record {
    bounds = λ i a e.
        let (k, val, small, member, interval) =
          keyslot_area-get_elem? j hdr keyslots ix i a laws found intervals
            (area_found hdr i a e) in
        t.bounds k a interval;
    apart = λ i i' a b e f ne.
        let (k, val, small, member, interval) =
          keyslot_area-get_elem? j hdr keyslots ix i a laws found intervals
            (area_found hdr i a e) in
        let (k', val', small', member', interval') =
          keyslot_area-get_elem? j hdr keyslots ix i' b laws found intervals
            (area_found hdr i' b f) in
        t.apart k k' a b interval interval' (λ (q : k ≡ k'). ne (
          decimal-injective i i' (omega arith) (omega arith)
            (pair_key (sym member ∙ ap (λ n. get_elem? (j.members keyslots) n) q ∙ member'))));
  }

  -- The intervals that the checks of the areas accept.
  hdr_validate_areas-IsPlaced :
      (hdr keyslots : j.Json) (ix : List Area)
      → 2 * metadata_size_jobj j hdr < 2 ^ 64
      → j.get_ex hdr (codes "keyslots") ≡ some keyslots
      → keyslot_intervals j (j.members keyslots) ≡ some ix
      → All Fits ix
      → hdr_validate_areas j hdr ≡ true
      → IsPlaced (2 * metadata_size_jobj j hdr) (hdr_and_areas_size_jobj j hdr) (get_elem? ix)
  unfolding hdr_validate_areas
  hdr_validate_areas-IsPlaced hdr keyslots ix small found intervals fits h =
      let (keyslots', e1, h1) = need-true (j.get_ex hdr (codes "keyslots")) h in
      let (_, e2, h2) = need-true (j.get_ex hdr (codes "segments")) h1 in
      let same_keyslots : keyslots' ≡ keyslots = some-injective (sym e1 ∙ found) in
      accepted (j.members keyslots) intervals (
        subst
          (λ x.
            (length (j.members x) == 0
              || need (keyslot_intervals j (j.members x)) (λ l.
                validate_intervals l (metadata_size_jobj j hdr) (hdr_and_areas_size_jobj j hdr)))
            ≡ true)
          same_keyslots h2)
    where
      no_areas : {lo hi : ℕ} → IsPlaced lo hi (get_elem? [])
      no_areas = record { bounds = λ i a e. absurd cc; apart = λ i k a b e f ne. absurd cc }

      second_true : (b c : Bool) → b ≡ false → (b || c) ≡ true → c ≡ true
      second_true true c e h = absurd cc
      second_true false c e h = h

      accepted :
          (ms : List (List ℕ × j.Json))
          → keyslot_intervals j ms ≡ some ix
          → (length ms == 0
              || need (keyslot_intervals j ms) (λ l.
                validate_intervals l (metadata_size_jobj j hdr) (hdr_and_areas_size_jobj j hdr)))
            ≡ true
          → IsPlaced (2 * metadata_size_jobj j hdr) (hdr_and_areas_size_jobj j hdr) (get_elem? ix)
      accepted [] e g =
          subst
            (λ l.
              IsPlaced (2 * metadata_size_jobj j hdr) (hdr_and_areas_size_jobj j hdr) (get_elem? l))
            (some-injective (unfold keyslot_intervals in e)) no_areas
      accepted (m ∷ ms) e g =
          let some_members : (length (m ∷ ms) == 0) ≡ false = ground arith in
          let (l, f, v) =
            need-true (keyslot_intervals j (m ∷ ms))
              (second_true (length (m ∷ ms) == 0) _ some_members g) in
          let same_list : l ≡ ix = some-injective (sym f ∙ e) in
          validate_intervals-IsPlaced ix (metadata_size_jobj j hdr) (hdr_and_areas_size_jobj j hdr)
            small fits
            (subst
              (λ x.
                validate_intervals x (metadata_size_jobj j hdr) (hdr_and_areas_size_jobj j hdr)
                ≡ true)
              same_list v)

  hdr_validate-checks :
      (hdr : j.Json) (json_size : ℕ)
      → hdr_validate j hdr json_size ≡ true
      → (hdr_validate_config j hdr ≡ true)
        × (hdr_validate_areas j hdr ≡ true)
        × (hdr_validate_json_size j hdr json_size ≡ true)
  unfolding hdr_validate
  hdr_validate-checks hdr json_size h =
      let (_, h1) = both_true (hdr_validate_tokens j hdr) _ h in
      let (_, h2) = both_true (hdr_validate_digests j hdr) _ h1 in
      let (_, h3) = both_true (hdr_validate_segments j hdr) _ h2 in
      let (_, h4) = both_true (hdr_validate_keyslots j hdr) _ h3 in
      let (config, h5) = both_true (hdr_validate_config j hdr) _ h4 in
      let (areas, h6) = both_true (hdr_validate_areas j hdr) _ h5 in
      (config, areas, (both_true (hdr_validate_json_size j hdr json_size) _ h6).0)

-- A header that passes the checks has the layout that the search for a free area relies on: room
-- for the keyslots, all of whose areas lie between the two copies of the header and the end of the
-- keyslots area and do not overlap. Conditions: every area in the metadata can be read as an
-- interval, none of their ends exceeds 64 bits, and neither does the size of a header copy.
pub hdr_validate-IsLayout :
    (j : JsonC) (hdr keyslots : j.Json) (ix : List Area) (json_size : ℕ)
    → IsJsonC j
    → j.get_ex hdr (codes "keyslots") ≡ some keyslots
    → keyslot_intervals j (j.members keyslots) ≡ some ix
    → All Fits ix
    → json_size + hdr_bin_len < 2 ^ 64
    → hdr_validate j hdr json_size ≡ true
    → IsLayout (layout_of j hdr (json_size + hdr_bin_len))
hdr_validate-IsLayout j hdr keyslots ix json_size laws found intervals fits small h =
    let (config, areas, json) = hdr_validate-checks j hdr json_size h in
    let size = json_size-eq j hdr json_size json small in
    let (m, k) = config_sizes j hdr config in
    let (m_pos, m_bound) = metadata_bounds j (metadata_size_jobj j hdr) m in
    let k_bound = keyslots_bound j (keyslots_size_jobj j hdr) k in
    let end = areas_size-eq j hdr config in
    let slots = length-keyslot_areas j hdr keyslots_max 0 in
    let t =
      keyslot_areas-IsPlaced j hdr keyslots ix (2 * metadata_size_jobj j hdr)
        (hdr_and_areas_size_jobj j hdr) laws found intervals
        (hdr_validate_areas-IsPlaced j hdr keyslots ix (omega arith) found intervals fits areas) in
    record {
      has_header = omega arith;
      has_room = omega arith;
      fits = omega arith;
      slots = omega arith;
      placed =
          subst
            (λ n.
              IsPlaced (2 * n) (hdr_and_areas_size_jobj j hdr)
                (area_at (keyslot_areas j hdr keyslots_max 0)))
            size t;
    }
