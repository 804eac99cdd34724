-- ===== src/Luks2/Validate/Regular.antt =====
-- lib/luks2/luks2_json_metadata.c: what hdr_validate_segments establishes.
use cryptsetup.Base.{
  ℕ, suc, ◌+◌, ◌-◌, ◌≤◌, ◌<◌, ◌≡◌, ◌≢◌, ◌⊎◌, inl, inr, sym, ap, ◌∙◌, arith, List, length, ◌==◌, not,
  ◌&&◌, get_elem?, Option, some, none, Bool-cases, true, false, ltb, leb, ◌^◌, refl, In,
}
use mathlib.Core.Path.{subst}
use cryptsetup.Base.Strings.{codes}
use cryptsetup.Json.{JsonC}
use cryptsetup.Luks2.Areas.{Area}
use cryptsetup.Json.Decimal.{decimal, atoi}
use cryptsetup.Json.Laws.{IsJsonC}
use cryptsetup.Json.Number.{atoi-decimal}
use cryptsetup.Luks2.Segment.{segments_get_segment, segment_is_backup}
use cryptsetup.Luks2.Segment.Ids.{find_member-In}
use cryptsetup.Luks2.Validate.Backup.{First, no_backup, backup, each_segment-First}
use cryptsetup.Luks2.Validate.Fields.{need, need-true, both_true, some-injective}
use cryptsetup.Luks2.Validate.Segments.{
  uint64_max, segment_interval, segment_intervals, no_gap, accept_regular, accept_backup,
  each_segment, hdr_validate_segments, validate_segment_intervals,
}
use cryptsetup.Luks2.Validate.Intervals.{
  SegmentFits, Before, validate_segment_intervals-IsSegmentation,
}
use cryptsetup.Luks2.Validate.Gapless.{
  Intervals, segment_intervals-Intervals, no_gap-present, segment_intervals-All,
}

module _ (j : JsonC) (segments : j.Json) where
  abbrev count : ℕ
  count = length (j.members segments)

  -- All ids below the number of members are used. `regular` is the lowest id of a backup segment, or
  -- the number of members if there is no backup segment. The segments below it, of which there is
  -- one at least and none of which is a backup, do not overlap, and only the last of them may have a
  -- dynamic size.
  pub record IsSegmented (regular : ℕ) : Type 0 where
    pub some_regular : 0 < regular
    pub regular_bound : regular ≤ count
    pub no_backup :
        (i : ℕ) (a : j.Json)
        → i < regular
        → segments_get_segment j segments i ≡ some a
        → segment_is_backup j a ≡ false
    pub first_backup :
        ((regular ≡ count)
          × ((m : List ℕ × j.Json) → In m (j.members segments) → segment_is_backup j (m.1) ≡ false))
        ⊎ ((m : List ℕ × j.Json) × In m (j.members segments)
            × (segment_is_backup j (m.1) ≡ true)
            × (atoi (m.0) ≡ regular))
    pub present :
        (i : ℕ) → i < count → (jobj : j.Json) × (segments_get_segment j segments i ≡ some jobj)
    pub apart :
        (i k : ℕ) (a b : j.Json)
        → i < regular
        → k < regular
        → segments_get_segment j segments i ≡ some a
        → segments_get_segment j segments k ≡ some b
        → i ≢ k
        → Before (segment_interval j a) (segment_interval j b)
          ⊎ Before (segment_interval j b) (segment_interval j a)
    pub dynamic_last :
        (i : ℕ) (a : j.Json)
        → i < regular
        → segments_get_segment j segments i ≡ some a
        → (segment_interval j a).len ≡ uint64_max
        → suc i ≡ regular

  -- What is known of `n` before the checks behind the loop.
  abbrev NoBackup : ℕ → Type 0
  NoBackup n =
      (i : ℕ) (a : j.Json)
      → i < n
      → segments_get_segment j segments i ≡ some a
      → segment_is_backup j a ≡ false

  abbrev FirstBackup : ℕ → Type 0
  FirstBackup n =
      ((n ≡ count)
        × ((m : List ℕ × j.Json) → In m (j.members segments) → segment_is_backup j (m.1) ≡ false))
      ⊎ ((m : List ℕ × j.Json) × In m (j.members segments)
          × (segment_is_backup j (m.1) ≡ true)
          × (atoi (m.0) ≡ n))

  accept_regular-IsSegmented :
      (n : ℕ)
      → 0 < n
      → n ≤ count
      → NoBackup n
      → FirstBackup n
      → ((k : ℕ) (a : j.Json)
          → segments_get_segment j segments k ≡ some a
          → SegmentFits (segment_interval j a))
      → accept_regular j segments count n ≡ true
      → IsSegmented n
  unfolding accept_regular
  accept_regular-IsSegmented n pos le regulars first fits h =
      let (ix, e, h1) = need-true (segment_intervals j segments n 0) h in
      let (valid, full) =
        both_true (validate_segment_intervals ix) (no_gap j segments (count - n) n) h1 in
      let (len, at) = segment_intervals-Intervals j segments n 0 ix e in
      let v =
        validate_segment_intervals-IsSegmentation ix
          (segment_intervals-All j segments n 0 ix fits e) valid in
      record {
        some_regular = pos;
        regular_bound = le;
        no_backup = regulars;
        first_backup = first;
        present = λ i small. present i ix at full small;
        apart = λ i k a b hi hk f g ne.
            v.apart i k (segment_interval j a) (segment_interval j b) (interval ix at i a hi f)
              (interval ix at k b hk g) ne;
        dynamic_last =
            λ i a hi f d. v.dynamic_last i (segment_interval j a) (interval ix at i a hi f) d ∙ len;
      }
    where
      present :
          (i : ℕ) (ix : List Area)
          → Intervals j segments n 0 ix
          → no_gap j segments (count - n) n ≡ true
          → i < count
          → (jobj : j.Json) × (segments_get_segment j segments i ≡ some jobj)
      present i ix at full small = elim (Bool-cases (ltb i n)) [
        | inl below ↦
            let (jobj, e, _) = at i (ground arith) in
            let index : i ≡ 0 + i = omega arith in
            (jobj, ap (λ m. segments_get_segment j segments m) index ∙ e)
        | inr above ↦
            let (jobj, e) = no_gap-present j segments (count - n) n (i - n) full (ground arith) in
            let index : i ≡ n + (i - n) = ground arith in
            (jobj, ap (λ m. segments_get_segment j segments m) index ∙ e)
      ]

      interval :
          (ix : List Area)
          → Intervals j segments n 0 ix
          → (i : ℕ) (a : j.Json) → i < n
          → segments_get_segment j segments i ≡ some a
          → get_elem? ix i ≡ some (segment_interval j a)
      interval ix at i a small f =
          let (b, e, g) = at i small in
          let index : 0 + i ≡ i = omega arith in
          let same_segment : b ≡ a =
            some-injective (sym e ∙ ap (λ m. segments_get_segment j segments m) index ∙ f) in
          g ∙ ap (λ x. some (segment_interval j x)) same_segment

  -- A segment that is found stands among the members, under an id that is its number.
  segment-In :
      (i : ℕ) (a : j.Json)
      → IsJsonC j
      → segments_get_segment j segments i ≡ some a
      → In (decimal i, a) (j.members segments)
  unfolding segments_get_segment
  segment-In i a laws e =
      find_member-In (j.members segments) (decimal i) a
        (sym (laws.get_members segments (decimal i)) ∙ e)

  accept_backup-IsSegmented :
      (first : Option ℕ)
      → IsJsonC j
      → ((m : List ℕ × j.Json) → In m (j.members segments) → atoi (m.0) < 2 ^ 31)
      → First j (j.members segments) none first
      → 0 < count
      → ((k : ℕ) (a : j.Json)
          → segments_get_segment j segments k ≡ some a
          → SegmentFits (segment_interval j a))
      → accept_backup j segments count first ≡ true
      → (n : ℕ) × IsSegmented n
  accept_backup-IsSegmented none laws ids (no_backup _ _ all) pos fits h = (
    count,
    accept_regular-IsSegmented count pos (omega arith)
        (λ i a small e. all (decimal i, a) (segment-In i a laws e)) (inl (refl, all)) fits h,
  )
  accept_backup-IsSegmented none laws ids (backup k e _ _ _) pos fits h = absurd cc
  accept_backup-IsSegmented (some n) laws ids (no_backup _ e _) pos fits h = absurd cc
  accept_backup-IsSegmented (some n) laws ids (backup k e lower _ (inl p)) pos fits h = absurd cc
  accept_backup-IsSegmented (some n) laws ids (backup k e lower _ (inr (m, i, b, p))) pos fits h =
      let (nonzero, h1) = both_true (not (n == 0)) _ h in
      let (below, accepted) = both_true (ltb n count) _ h1 in
      let same_id : k ≡ n = sym (some-injective e) in
      let small_id = ids m i in
      (
        n,
        accept_regular-IsSegmented n (ground arith) (ground arith)
            (λ l a small f. elim (Bool-cases (segment_is_backup j a)) [
              | inl is_backup ↦
                  let id = atoi-decimal l (omega arith) in
                  let least = lower (decimal l, a) (segment-In l a laws f) is_backup in
                  absurd (omega arith)
              | inr regular ↦ regular
            ])
            (inr (m, i, b, p ∙ same_id)) fits accepted,
      )

-- Of the segments of a header that passes the check, all ids below their number are used. The
-- segments below the lowest id of a backup segment, or all of them if there is no backup segment,
-- are regular, and there is one at least; they do not overlap, and only the last of them may have a
-- dynamic size. Conditions: every id fits an int, and no end of a segment exceeds 64 bits.
pub hdr_validate_segments-IsSegmented :
    (j : JsonC) (hdr segments : j.Json)
    → IsJsonC j
    → j.get_ex hdr (codes "segments") ≡ some segments
    → ((m : List ℕ × j.Json) → In m (j.members segments) → atoi (m.0) < 2 ^ 31)
    → ((i : ℕ) (a : j.Json)
        → segments_get_segment j segments i ≡ some a
        → SegmentFits (segment_interval j a))
    → hdr_validate_segments j hdr ≡ true
    → (regular : ℕ) × IsSegmented j segments regular
unfolding hdr_validate_segments
hdr_validate_segments-IsSegmented j hdr segments laws found ids fits h =
    let (segments', e, h1) = need-true (j.get_ex hdr (codes "segments")) h in
    let same_segments : segments' ≡ segments = some-injective (sym e ∙ found) in
    checked (
      subst
        (λ s.
          (leb 1 (length (j.members s))
            && need (j.get_ex hdr (codes "digests")) (λ digests.
              need (each_segment j digests (j.members s) none)
                (λ first. accept_backup j s (length (j.members s)) first)))
          ≡ true)
        same_segments h1)
  where
    checked :
        (leb 1 (length (j.members segments))
            && need (j.get_ex hdr (codes "digests")) (λ digests.
              need
                (each_segment j digests (j.members segments) none)
                (λ first. accept_backup j segments (length (j.members segments)) first)))
          ≡ true
        → (regular : ℕ) × IsSegmented j segments regular
    checked g =
        let (some_member, g1) = both_true (leb 1 (length (j.members segments))) _ g in
        let (digests, _, g2) = need-true (j.get_ex hdr (codes "digests")) g1 in
        let (first, seen, g3) = need-true (each_segment j digests (j.members segments) none) g2 in
        let pos : 0 < length (j.members segments) = ground arith in
        accept_backup-IsSegmented j segments first laws ids
          (each_segment-First j digests (j.members segments) none first seen) pos fits g3
