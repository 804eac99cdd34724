-- ===== src/Luks2/Validate/Areas.antt =====
-- lib/luks2/luks2_json_metadata.c, lib/luks2/luks2_keyslot.c: the areas that are checked are the
-- areas of the keyslots.
use cryptsetup.Base.{
  ℕ, suc, ◌<◌, ◌≡◌, inl, inr, refl, sym, ap, ap₂, ◌∙◌, arith, List, [], ◌∷◌, get_elem?, Option,
  some, none, true, false, if◌then◌else◌, Result, ok, Errno, einval, enoent, guard, ◌>>◌, >>=-eq-ok,
  Bool-cases, ltb, Bool, ok-injective,
}
use cryptsetup.Base.Strings.{same, same-eq, codes}
use mathlib.Core.Path.{subst}
use cryptsetup.Json.{
  JsonC, JsonType, object_type, string_type, json_contains, json_str_to_uint64, get_uint64,
  numbered,
}
use cryptsetup.Json.Decimal.{decimal}
use cryptsetup.Json.Laws.{IsJsonC, find_member}
use cryptsetup.Luks2.Areas.{Area, keyslots_max}
use cryptsetup.Luks2.Validate.Fields.{if-eq-some, >>?-eq-some, some-injective}
use cryptsetup.Luks2.Validate.Segments.{numbered_uint64}
use cryptsetup.Luks2.Validate.Keyslots.{keyslot_area, get_keyslot_jobj, value_or}
use cryptsetup.Luks2.Validate.Header.{area_of, keyslot_intervals}

module _ (j : JsonC) where
  pub json_contains-some :
      (o : j.Json) (key : List ℕ) (t : JsonType) (v : j.Json)
      → json_contains j o key t ≡ some v
      → j.get_ex o key ≡ some v
  unfolding json_contains
  json_contains-some o key t v h = from (j.get_ex o key) h
    where
      from :
          (m : Option j.Json)
          → elim m [ none ↦ none | some s ↦ if j.is_type s t then some s else none ] ≡ some v
          → m ≡ some v
      from none f = cc
      from (some s) f = (if-eq-some (j.is_type s t) (some s) f).1

  pub json_str_to_uint64-get_uint64 :
      (v : j.Json) (n : ℕ) → json_str_to_uint64 j v ≡ some n → get_uint64 j v ≡ n
  unfolding get_uint64
  json_str_to_uint64-get_uint64 v n h = ap (λ o. elim o [ none ↦ 0 | some m ↦ m ]) h

  numbered_uint64-get_uint64 :
      (v : j.Json) (n : ℕ) → numbered_uint64 j v ≡ some n → get_uint64 j v ≡ n
  numbered_uint64-get_uint64 v n h =
      json_str_to_uint64-get_uint64 v n
        (if-eq-some (numbered (j.get_string v)) (json_str_to_uint64 j v) h).1

  value_or-eq-ok : (o : Option j.Json) (c : Errno) (v : j.Json) → value_or o c ≡ ok v → o ≡ some v
  value_or-eq-ok none c v h = cc
  value_or-eq-ok (some w) c v h = cc

  pair :
      {k k' : List ℕ} {v v' : j.Json} → k ≡ k' → v ≡ v' → ◌≡◌ {A = List ℕ × j.Json} (k, v) (k', v')
  pair e f = ap₂ (λ x y. (x, y)) e f

  guard_passed :
      (b : Bool) (c : Errno) (m : Result Area) (a : Area)
      → (guard b c >> m) ≡ ok a
      → (b ≡ true) × (m ≡ ok a)
  guard_passed true c m a h = (refl, h)
  guard_passed false c m a h = cc

  -- The area that LUKS2_keyslot_area returns is read from a member of the keyslots.
  abbrev Source : j.Json → ℕ → Area → Type 0
  Source hdr i a =
      (keyslots : j.Json) × (val : j.Json) × (area : j.Json) × (offset : j.Json) × (size : j.Json)
      × (j.get_ex hdr (codes "keyslots") ≡ some keyslots)
      × (j.get_ex keyslots (decimal i) ≡ some val)
      × (j.get_ex val (codes "area") ≡ some area)
      × (j.get_ex area (codes "offset") ≡ some offset)
      × (j.get_ex area (codes "size") ≡ some size)
      × (a ≡ record { offset = get_uint64 j offset; len = get_uint64 j size })

  keyslot_area-Source :
      (hdr : j.Json) (i : ℕ) (a : Area) → keyslot_area j hdr i ≡ ok a → (i < 32) × Source hdr i a
  unfolding keyslot_area get_keyslot_jobj
  keyslot_area-Source hdr i a h =
      let (small, h1) = guard_passed (ltb i keyslots_max) einval _ a h in
      let (val, e1, h2) = >>=-eq-ok (value_or (get_keyslot_jobj j hdr i) enoent) h1 in
      let (keyslots, e2, e3) =
        >>?-eq-some (j.get_ex hdr (codes "keyslots"))
          (value_or-eq-ok (get_keyslot_jobj j hdr i) enoent val e1) in
      let (area, e4, h3) = >>=-eq-ok (value_or (j.get_ex val (codes "area")) einval) h2 in
      let (offset, e5, h4) = >>=-eq-ok (value_or (j.get_ex area (codes "offset")) einval) h3 in
      let (size, e6, h5) = >>=-eq-ok (value_or (j.get_ex area (codes "size")) einval) h4 in
      (
        ground arith,
        (
          keyslots,
          val,
          area,
          offset,
          size,
          e2,
          e3,
          value_or-eq-ok (j.get_ex val (codes "area")) einval area e4,
          value_or-eq-ok (j.get_ex area (codes "offset")) einval offset e5,
          value_or-eq-ok (j.get_ex area (codes "size")) einval size e6,
          sym (ok-injective h5),
        ),
      )

  some_same : {A : Type 0} (o : Option A) (a b : A) → o ≡ some a → o ≡ some b → a ≡ b
  some_same o a b e f = some-injective (sym e ∙ f)

  -- The checks read the same area.
  area_of-Source :
      (val area offset size : j.Json) (b : Area)
      → j.get_ex val (codes "area") ≡ some area
      → j.get_ex area (codes "offset") ≡ some offset
      → j.get_ex area (codes "size") ≡ some size
      → area_of j val ≡ some b
      → b ≡ record { offset = get_uint64 j offset; len = get_uint64 j size }
  unfolding area_of
  area_of-Source val area offset size b e f g h =
      let (area', e1, h1) = >>?-eq-some (json_contains j val (codes "area") object_type) h in
      let (_, e2, h2) = >>?-eq-some (json_contains j area' (codes "type") string_type) h1 in
      let (offset', e3, h3) = >>?-eq-some (json_contains j area' (codes "offset") string_type) h2 in
      let (size', e4, h4) = >>?-eq-some (json_contains j area' (codes "size") string_type) h3 in
      let (n, e5, h5) = >>?-eq-some (numbered_uint64 j offset') h4 in
      let (len, e6, h6) = >>?-eq-some (numbered_uint64 j size') h5 in
      let same_area : area' ≡ area =
        some_same (j.get_ex val (codes "area")) area' area
          (json_contains-some val (codes "area") object_type area' e1) e in
      let same_offset : offset' ≡ offset =
        some_same (j.get_ex area (codes "offset")) offset' offset
          (subst (λ x. j.get_ex x (codes "offset") ≡ some offset') same_area
            (json_contains-some area' (codes "offset") string_type offset' e3))
          f in
      let same_size : size' ≡ size =
        some_same (j.get_ex area (codes "size")) size' size
          (subst (λ x. j.get_ex x (codes "size") ≡ some size') same_area
            (json_contains-some area' (codes "size") string_type size' e4))
          g in
      sym (some-injective h6)
      ∙ ap₂ (λ x y. record { offset = x; len = y })
          (sym (numbered_uint64-get_uint64 offset' n e5) ∙ ap (get_uint64 j) same_offset)
          (sym (numbered_uint64-get_uint64 size' len e6) ∙ ap (get_uint64 j) same_size)

  -- Where the interval of a keyslot stands.
  keyslot_intervals-find_member :
      (ms : List (List ℕ × j.Json)) (ix : List Area) (key : List ℕ) (val : j.Json)
      → keyslot_intervals j ms ≡ some ix
      → find_member ms key ≡ some val
      → (k : ℕ) × (b : Area) × (get_elem? ms k ≡ some (key, val))
        × (area_of j val ≡ some b)
        × (get_elem? ix k ≡ some b)
  unfolding keyslot_intervals find_member
  keyslot_intervals-find_member [] ix key val h e = absurd cc
  keyslot_intervals-find_member (m ∷ ms) ix key val h e =
      let (a, e1, h1) = >>?-eq-some (area_of j (m.1)) h in
      let (rest, e2, h2) = >>?-eq-some (keyslot_intervals j ms) h1 in
      let list : a ∷ rest ≡ ix = some-injective h2 in
      elim (Bool-cases (same (m.0) key)) [
        | inl here ↦
            let value : m.1 ≡ val = some-injective (sym (rw here refl) ∙ e) in
            (
              0,
              a,
              ap some (pair (same-eq (m.0) key here) value),
              subst (λ v. area_of j v ≡ some a) value e1,
              ap (λ l. get_elem? l 0) (sym list),
            )
        | inr there ↦
            let (k, b, member, source, interval) =
              keyslot_intervals-find_member ms rest key val e2 (sym (rw there refl) ∙ e) in
            (suc k, b, member, source, ap (λ l. get_elem? l (suc k)) (sym list) ∙ interval)
      ]

  -- The interval of a keyslot that has an area.
  pub keyslot_area-get_elem? :
      (hdr keyslots : j.Json) (ix : List Area) (i : ℕ) (a : Area)
      → IsJsonC j
      → j.get_ex hdr (codes "keyslots") ≡ some keyslots
      → keyslot_intervals j (j.members keyslots) ≡ some ix
      → keyslot_area j hdr i ≡ ok a
      → (k : ℕ) × (val : j.Json) × (i < 32)
        × (get_elem? (j.members keyslots) k ≡ some (decimal i, val))
        × (get_elem? ix k ≡ some a)
  keyslot_area-get_elem? hdr keyslots ix i a laws found intervals h =
      let (small, (keyslots', val, area, offset, size, e1, e2, e3, e4, e5, e6)) =
        keyslot_area-Source hdr i a h in
      let same_keyslots : keyslots' ≡ keyslots =
        some_same (j.get_ex hdr (codes "keyslots")) keyslots' keyslots e1 found in
      let member : find_member (j.members keyslots) (decimal i) ≡ some val =
        sym (laws.get_members keyslots (decimal i))
        ∙ subst (λ x. j.get_ex x (decimal i) ≡ some val) same_keyslots e2 in
      let (k, b, f1, f2, f3) =
        keyslot_intervals-find_member (j.members keyslots) ix (decimal i) val intervals member in
      let same_area : b ≡ a = area_of-Source val area offset size b e3 e4 e5 f2 ∙ sym e6 in
      (k, val, small, f1, f3 ∙ ap some same_area)
