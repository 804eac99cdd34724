-- ===== src/Luks1/Layout.antt =====
-- lib/luks1/keymanage.c: what the check of the keyslots ensures.
use cryptsetup.Base.{
  ℕ, ◌+◌, ◌*◌, ◌%◌, ◌^◌, ◌≤◌, ◌<◌, ◌≡◌, ◌≢◌, ◌⊎◌, inl, inr, sym, ap, ◌∙◌, arith, List, [], ◌∷◌,
  Bool, Bool-cases, true, ◌&&◌, ◌||◌, ◌==◌, ltb, leb, In,
}
use cryptsetup.Luks1.{
  Phdr, slot, sink, sink_all, sort_keyslots, luks_stripes, secs_per_stripes, slot_valid,
  slots_valid, no_overlaps, check_keyslots,
}
use cryptsetup.Luks2.Validate.Fields.{both_true}
use mathlib.Core.Path.{subst}

-- The area of a keyslot, in sectors.
abbrev start : Phdr → ℕ → ℕ
start hdr i = (slot hdr i).offset

abbrev end : Phdr → ℕ → ℕ
end hdr i = start hdr i + secs_per_stripes hdr

-- Sorting loses no entry.
In-sink : (hdr : Phdr) (i x : ℕ) (ps : List ℕ) → In i (x ∷ ps) → In i (sink hdr x ps)
unfolding sink
In-sink hdr i x [] h = h
In-sink hdr i x (p ∷ ps) h = elim (Bool-cases (ltb (slot hdr x).offset (slot hdr p).offset)) [
  | inl below ↦ rw below (elim h [
    | inl e ↦ inr (In-sink hdr i x ps (inl e))
    | inr (inl e) ↦ inl e
    | inr (inr m) ↦ inr (In-sink hdr i x ps (inr m))
  ])
  | inr above ↦ rw above h
]

In-sink_all :
    (hdr : Phdr) (i : ℕ) (xs sorted : List ℕ)
    → In i xs ⊎ In i sorted
    → In i (sink_all hdr xs sorted)
unfolding sink_all
In-sink_all hdr i [] sorted (inl m) = elim m [ ]
In-sink_all hdr i [] sorted (inr m) = m
In-sink_all hdr i (x ∷ xs) sorted (inl (inl e)) =
    In-sink_all hdr i xs (sink hdr x sorted) (inr (In-sink hdr i x sorted (inl e)))
In-sink_all hdr i (x ∷ xs) sorted (inl (inr m)) = In-sink_all hdr i xs (sink hdr x sorted) (inl m)
In-sink_all hdr i (x ∷ xs) sorted (inr m) =
    In-sink_all hdr i xs (sink hdr x sorted) (inr (In-sink hdr i x sorted (inr m)))

-- The numbers of the keyslots.
abbrev all_slots : List ℕ
all_slots = 0 ∷ 1 ∷ 2 ∷ 3 ∷ 4 ∷ 5 ∷ 6 ∷ 7 ∷ []

In-all_slots : (i : ℕ) → i < 8 → In i all_slots
In-all_slots i h = omega arith

In-sort_keyslots : (hdr : Phdr) (i : ℕ) → i < 8 → In i (sort_keyslots hdr)
unfolding sort_keyslots
In-sort_keyslots hdr i h =
    In-sink_all hdr i (1 ∷ 2 ∷ 3 ∷ 4 ∷ 5 ∷ 6 ∷ 7 ∷ []) (0 ∷ []) (from (In-all_slots i h))
  where
    from : In i all_slots → In i (1 ∷ 2 ∷ 3 ∷ 4 ∷ 5 ∷ 6 ∷ 7 ∷ []) ⊎ In i (0 ∷ [])
    from (inl e) = inr (inl e)
    from (inr m) = inl m

slots_valid-In :
    (hdr : Phdr) (i : ℕ) (is : List ℕ)
    → slots_valid hdr is ≡ true
    → In i is
    → slot_valid hdr i ≡ true
unfolding slots_valid
slots_valid-In hdr i [] h m = elim m [ ]
slots_valid-In hdr i (k ∷ is) h (inl e) =
    let (here, _) = both_true _ _ h in ap (slot_valid hdr) e ∙ here
slots_valid-In hdr i (k ∷ is) h (inr m) =
    let (_, rest) = both_true _ _ h in slots_valid-In hdr i is rest m

-- Every area before the last one ends before it starts.
no_overlaps-below :
    (hdr : Phdr) (next j : ℕ) (rest : List ℕ)
    → ((i : ℕ) → end hdr i < 2 ^ 32)
    → no_overlaps hdr (next ∷ rest) ≡ true
    → In j rest
    → end hdr j ≤ start hdr next
unfolding no_overlaps
no_overlaps-below hdr next j [] small h m = elim m [ ]
no_overlaps-below hdr next j (prev ∷ rest) small h m =
    let (here, others) =
      both_true (leb (end hdr prev % 2 ^ 32) (start hdr next)) (no_overlaps hdr (prev ∷ rest)) h in
    let whole : end hdr prev % 2 ^ 32 ≡ end hdr prev = omega (arith, small prev) in
    let apart : end hdr prev ≤ start hdr next = ground arith in
    elim m [
      | inl e ↦ subst (λ k. end hdr k ≤ start hdr next) (sym e) apart
      | inr deeper ↦ omega (arith, no_overlaps-below hdr prev j rest small others deeper, apart)
    ]

abbrev Apart : Phdr → ℕ → ℕ → Type 0
Apart hdr i j = (end hdr i ≤ start hdr j) ⊎ (end hdr j ≤ start hdr i)

no_overlaps-Apart :
    (hdr : Phdr) (i j : ℕ) (is : List ℕ)
    → ((i : ℕ) → end hdr i < 2 ^ 32)
    → no_overlaps hdr is ≡ true
    → In i is
    → In j is
    → i ≢ j
    → Apart hdr i j
unfolding no_overlaps
no_overlaps-Apart hdr i j [] small h mi mj ne = elim mi [ ]
no_overlaps-Apart hdr i j (k ∷ is) small h (inl ei) (inl ej) ne = absurd (ne (ei ∙ sym ej))
no_overlaps-Apart hdr i j (k ∷ is) small h (inl ei) (inr mj) ne =
    inr (subst (λ t. end hdr j ≤ start hdr t) (sym ei) (no_overlaps-below hdr k j is small h mj))
no_overlaps-Apart hdr i j (k ∷ is) small h (inr mi) (inl ej) ne =
    inl (subst (λ t. end hdr i ≤ start hdr t) (sym ej) (no_overlaps-below hdr k i is small h mi))
no_overlaps-Apart hdr i j (k ∷ is) small h (inr mi) (inr mj) ne =
    no_overlaps-Apart hdr i j is small (rest is h mi) mi mj ne
  where
    rest : (is : List ℕ) → no_overlaps hdr (k ∷ is) ≡ true → In i is → no_overlaps hdr is ≡ true
    rest [] h m = elim m [ ]
    rest (p ∷ ps) h m = let (_, others) = both_true _ _ h in others

slot_valid-inside :
    (hdr : Phdr) (i : ℕ)
    → end hdr i < 2 ^ 32
    → slot_valid hdr i ≡ true
    → (1024 ≤ start hdr i * 512) × ((hdr.payload_offset ≡ 0) ⊎ (end hdr i ≤ hdr.payload_offset))
unfolding slot_valid
slot_valid-inside hdr i small v =
    let attached : Bool =
      ltb (start hdr i) hdr.payload_offset && leb (end hdr i % 2 ^ 32) hdr.payload_offset in
    let low : Bool = leb 1024 (start hdr i * 512 % 2 ^ 32) in
    let whole_stripes : Bool = (slot hdr i).stripes == luks_stripes in
    let (more, before) = both_true (whole_stripes && low) (hdr.payload_offset == 0 || attached) v in
    let (_, behind) = both_true whole_stripes low more in
    let whole : end hdr i % 2 ^ 32 ≡ end hdr i = omega (arith, small) in
    (
      ground (arith, behind),
      elim (Bool-cases (hdr.payload_offset == 0)) [
        | inl detached ↦ inl (ground (arith, detached))
        | inr placed ↦ inr (ground (arith, before, placed, whole))
      ],
    )

-- In a header that passes LUKS_check_keyslots, the area of each keyslot lies behind the header and,
-- unless the header is detached, before the data; the areas of two keyslots do not overlap. No end
-- of an area exceeds 32 bits.
pub check_keyslots-Apart :
    (hdr : Phdr)
    → check_keyslots hdr ≡ true
    → ((i : ℕ) → (slot hdr i).offset + secs_per_stripes hdr < 2 ^ 32)
    → ((i : ℕ)
        → i < 8
        → (1024 ≤ (slot hdr i).offset * 512)
          × ((hdr.payload_offset ≡ 0)
              ⊎ ((slot hdr i).offset + secs_per_stripes hdr ≤ hdr.payload_offset)))
      × ((i j : ℕ)
          → i < 8
          → j < 8
          → i ≢ j
          → ((slot hdr i).offset + secs_per_stripes hdr ≤ (slot hdr j).offset)
            ⊎ ((slot hdr j).offset + secs_per_stripes hdr ≤ (slot hdr i).offset))
unfolding check_keyslots
check_keyslots-Apart hdr h small =
    let (valid, apart) = both_true _ _ h in
    (
      λ i less.
          slot_valid-inside hdr i (small i)
            (slots_valid-In hdr i all_slots valid (In-all_slots i less)),
      λ i j a b ne.
          no_overlaps-Apart hdr i j (sort_keyslots hdr) small apart (In-sort_keyslots hdr i a)
            (In-sort_keyslots hdr j b) ne,
    )
