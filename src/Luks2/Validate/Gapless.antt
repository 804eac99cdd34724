-- ===== src/Luks2/Validate/Gapless.antt =====
-- lib/luks2/luks2_json_metadata.c: the loops of hdr_validate_segments over the ids of the segments.
use cryptsetup.Base.{
  ℕ, zero, suc, ◌+◌, ◌<◌, ◌≡◌, sym, ap, ◌∙◌, arith, List, ◌∷◌, length, All, get_elem?, some, true,
}
use mathlib.Core.Path.{subst}
use cryptsetup.Json.{JsonC}
use cryptsetup.Luks2.Areas.{Area}
use cryptsetup.Luks2.Segment.{segments_get_segment}
use cryptsetup.Luks2.Validate.Fields.{need-true, >>?-eq-some, some-injective}
use cryptsetup.Luks2.Validate.Segments.{segment_interval, segment_intervals, no_gap}
use cryptsetup.Luks2.Validate.Intervals.{SegmentFits}

module _ (j : JsonC) (segments : j.Json) where
  -- The intervals are those of the segments from `i` on.
  abbrev pub Intervals : ℕ → ℕ → List Area → Type 0
  Intervals n i ix =
      (k : ℕ)
      → k < n
      → (jobj : j.Json) × (segments_get_segment j segments (i + k) ≡ some jobj)
        × (get_elem? ix k ≡ some (segment_interval j jobj))

  pub segment_intervals-Intervals :
      (n i : ℕ) (ix : List Area)
      → segment_intervals j segments n i ≡ some ix
      → (length ix ≡ n) × Intervals n i ix
  unfolding segment_intervals
  segment_intervals-Intervals zero i ix h =
      (ap length (sym (some-injective h)), λ k small. absurd (omega arith))
  segment_intervals-Intervals (suc n) i ix h =
      let (jobj, e, h1) = >>?-eq-some (segments_get_segment j segments i) h in
      let (rest, f, h2) = >>?-eq-some (segment_intervals j segments n (suc i)) h1 in
      let list : segment_interval j jobj ∷ rest ≡ ix = some-injective h2 in
      let (len, later) = segment_intervals-Intervals n (suc i) rest f in
      (ap length (sym list) ∙ ap suc len, at jobj rest e list later)
    where
      at :
          (jobj : j.Json) (rest : List Area)
          → segments_get_segment j segments i ≡ some jobj
          → segment_interval j jobj ∷ rest ≡ ix
          → Intervals n (suc i) rest
          → Intervals (suc n) i ix
      at jobj rest e list later zero small =
          let index : i + 0 ≡ i = omega arith in
          (
            jobj,
            ap (λ m. segments_get_segment j segments m) index ∙ e,
            ap (λ l. get_elem? l 0) (sym list),
          )
      at jobj rest e list later (suc k) small =
          let (a, f, g) = later k (omega arith) in
          let index : i + suc k ≡ suc i + k = omega arith in
          (
            a,
            ap (λ m. segments_get_segment j segments m) index ∙ f,
            ap (λ l. get_elem? l (suc k)) (sym list) ∙ g,
          )

  pub no_gap-present :
      (n i k : ℕ)
      → no_gap j segments n i ≡ true
      → k < n
      → (jobj : j.Json) × (segments_get_segment j segments (i + k) ≡ some jobj)
  unfolding no_gap
  no_gap-present zero i k h small = absurd (omega arith)
  no_gap-present (suc n) i zero h small =
      let (jobj, e, _) = need-true (segments_get_segment j segments i) h in
      let index : i + 0 ≡ i = omega arith in
      (jobj, ap (λ m. segments_get_segment j segments m) index ∙ e)
  no_gap-present (suc n) i (suc k) h small =
      let (_, _, later) = need-true (segments_get_segment j segments i) h in
      let (jobj, e) = no_gap-present n (suc i) k later (omega arith) in
      let index : i + suc k ≡ suc i + k = omega arith in
      (jobj, ap (λ m. segments_get_segment j segments m) index ∙ e)

  -- The intervals of segments that fit 64 bits.
  pub segment_intervals-All :
      (n i : ℕ) (ix : List Area)
      → ((k : ℕ) (a : j.Json)
          → segments_get_segment j segments k ≡ some a
          → SegmentFits (segment_interval j a))
      → segment_intervals j segments n i ≡ some ix
      → All SegmentFits ix
  unfolding segment_intervals
  segment_intervals-All zero i ix fits h = subst (λ l. All SegmentFits l) (some-injective h) tt
  segment_intervals-All (suc n) i ix fits h =
      let (jobj, e, h1) = >>?-eq-some (segments_get_segment j segments i) h in
      let (rest, f, h2) = >>?-eq-some (segment_intervals j segments n (suc i)) h1 in
      subst (λ l. All SegmentFits l) (some-injective h2)
        (fits i jobj e, segment_intervals-All n (suc i) rest fits f)
