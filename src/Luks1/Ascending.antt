-- ===== src/Luks1/Ascending.antt =====
-- lib/luks1/keymanage.c: keyslots whose areas follow each other pass the check.
use cryptsetup.Af.{af_split_sectors}
use cryptsetup.Base.{
  ℕ, zero, suc, ◌+◌, ◌*◌, ◌%◌, ◌^◌, ◌≤◌, ◌<◌, ◌≡◌, ◌⊎◌, inl, inr, refl, ap, ◌∙◌, arith, List, [],
  ◌∷◌, length, Bool, Bool-cases, true, false, ◌&&◌, ◌||◌, ◌==◌, ltb, leb,
}
use cryptsetup.Luks1.{
  Keyblock, Phdr, slot, sink, sink_all, sort_keyslots, secs_per_stripes, slot_valid, slots_valid,
  no_overlaps, check_keyslots, new_keyblocks, luks_stripes, align_sectors,
}
use cryptsetup.Luks2.Areas.{size_round_up}

-- Keyblocks in order from `lo` to `hi`, with room for `secs` sectors behind each start.
abbrev pub Ascending : ℕ → ℕ → ℕ → List Keyblock → Type 0
Ascending secs lo hi [] = lo ≤ hi
Ascending secs lo hi (k ∷ ks) =
    (lo ≤ k.offset) × (k.stripes ≡ luks_stripes) × Ascending secs (k.offset + secs) hi ks

pub new_keyblocks-Ascending :
    (secs n lo s : ℕ)
    → lo ≤ s
    → s + n * (secs + 8) < 2 ^ 32
    → Ascending secs lo (new_keyblocks secs n s).1 (new_keyblocks secs n s).0
      × ((new_keyblocks secs n s).1 ≤ s + n * (secs + 8))
unfolding new_keyblocks
new_keyblocks-Ascending secs zero lo s h small = (h, omega arith)
new_keyblocks-Ascending secs (suc n) lo s h small =
    let next : ℕ = size_round_up ((s + secs) % 2 ^ 64) align_sectors in
    let (above, below) = rounded (s + secs) (omega (arith, small)) in
    let whole : s % 2 ^ 32 ≡ s = omega (arith, small) in
    let (rest, fits) =
      new_keyblocks-Ascending secs n (s % 2 ^ 32 + secs) next (omega (arith, above, whole))
        (omega (arith, below, small)) in
    ((omega (arith, h, whole), refl, rest), omega (arith, fits, below))
  where
    rounded :
        (x : ℕ)
        → x < 2 ^ 32
        → (x ≤ size_round_up (x % 2 ^ 64) align_sectors)
          × (size_round_up (x % 2 ^ 64) align_sectors ≤ x + 7)
    rounded x small = unfold size_round_up in (omega arith, omega arith)

-- An entry that is not below the last one stays behind it.
sink_top :
    (hdr : Phdr) (x p : ℕ) (ps : List ℕ)
    → (slot hdr p).offset ≤ (slot hdr x).offset
    → sink hdr x (p ∷ ps) ≡ x ∷ p ∷ ps
unfolding sink
sink_top hdr x p ps h =
    let stays : ltb (slot hdr x).offset (slot hdr p).offset ≡ false = ground arith in rw stays refl

and_true : (b c : Bool) → b ≡ true → c ≡ true → (b && c) ≡ true
and_true b c e f = ap (λ t. t && c) e ∙ f

-- Where a keyslot's area ends, as far as the checks can see.
fits_below : (a b : ℕ) → a ≤ b → a < 2 ^ 32 → leb (a % 2 ^ 32) b ≡ true
fits_below a b h small = let whole : a % 2 ^ 32 ≡ a = omega (arith, small) in ground arith

slot_valid-true :
    (hdr : Phdr) (i hi : ℕ)
    → 8 ≤ (slot hdr i).offset
    → (slot hdr i).stripes ≡ luks_stripes
    → (slot hdr i).offset + secs_per_stripes hdr ≤ hi
    → hi < 2 ^ 23
    → (hdr.payload_offset ≡ 0) ⊎ ((0 < secs_per_stripes hdr) × (hi ≤ hdr.payload_offset))
    → slot_valid hdr i ≡ true
unfolding slot_valid
slot_valid-true hdr i hi low stripes fits small payload =
    let o : ℕ = (slot hdr i).offset in
    let end : ℕ = o + secs_per_stripes hdr in
    let four : ((slot hdr i).stripes == luks_stripes) ≡ true = ground (arith, stripes) in
    let behind : leb 1024 (o * 512 % 2 ^ 32) ≡ true =
      let whole : o * 512 % 2 ^ 32 ≡ o * 512 = omega (arith, fits, small) in
      ground (arith, whole, low) in
    and_true ((slot hdr i).stripes == luks_stripes && leb 1024 (o * 512 % 2 ^ 32))
      (hdr.payload_offset == 0
        || (ltb o hdr.payload_offset && leb (end % 2 ^ 32) hdr.payload_offset))
      (and_true ((slot hdr i).stripes == luks_stripes) (leb 1024 (o * 512 % 2 ^ 32)) four behind)
      (placed payload)
  where
    placed :
        (hdr.payload_offset ≡ 0) ⊎ ((0 < secs_per_stripes hdr) × (hi ≤ hdr.payload_offset))
        → (hdr.payload_offset == 0
            || (ltb (slot hdr i).offset hdr.payload_offset
                && leb (((slot hdr i).offset + secs_per_stripes hdr) % 2 ^ 32) hdr.payload_offset))
          ≡ true
    placed (inl detached) =
        let yes : (hdr.payload_offset == 0) ≡ true = ground (arith, detached) in rw yes refl
    placed (inr (pos, room)) =
        let before : ltb (slot hdr i).offset hdr.payload_offset ≡ true =
          ground (arith, fits, pos, room) in
        let below =
          fits_below ((slot hdr i).offset + secs_per_stripes hdr) hdr.payload_offset
            (omega (arith, fits, room)) (omega (arith, fits, small)) in
        elim (Bool-cases (hdr.payload_offset == 0)) [
          | inl detached ↦ rw detached refl
          | inr attached ↦ rw attached (
              and_true (ltb (slot hdr i).offset hdr.payload_offset)
                (leb (((slot hdr i).offset + secs_per_stripes hdr) % 2 ^ 32) hdr.payload_offset)
                before below)
        ]

abbrev pub area_secs : ℕ → ℕ
area_secs key_bytes = af_split_sectors key_bytes luks_stripes % 2 ^ 32

module _ (payload key_bytes : ℕ) (b0 b1 b2 b3 b4 b5 b6 b7 : Keyblock) where
  abbrev eight : Phdr
  eight = record {
    payload_offset = payload;
    key_bytes = key_bytes;
    keyblock = b0 ∷ b1 ∷ b2 ∷ b3 ∷ b4 ∷ b5 ∷ b6 ∷ b7 ∷ [];
  }

  abbrev Ascends : ℕ → Type 0
  Ascends hi = Ascending (secs_per_stripes eight) 8 hi eight.keyblock

  sort_keyslots-Ascending :
      (hi : ℕ) → Ascends hi → sort_keyslots eight ≡ 7 ∷ 6 ∷ 5 ∷ 4 ∷ 3 ∷ 2 ∷ 1 ∷ 0 ∷ []
  unfolding sort_keyslots sink_all
  sort_keyslots-Ascending hi
        (l0, s0, (l1, s1, (l2, s2, (l3, s3, (l4, s4, (l5, s5, (l6, s6, (l7, s7, l8)))))))) =
      ap (sink_all eight (2 ∷ 3 ∷ 4 ∷ 5 ∷ 6 ∷ 7 ∷ [])) (sink_top eight 1 0 [] (omega arith))
      ∙ ap (sink_all eight (3 ∷ 4 ∷ 5 ∷ 6 ∷ 7 ∷ [])) (sink_top eight 2 1 (0 ∷ []) (omega arith))
      ∙ ap (sink_all eight (4 ∷ 5 ∷ 6 ∷ 7 ∷ [])) (sink_top eight 3 2 (1 ∷ 0 ∷ []) (omega arith))
      ∙ ap (sink_all eight (5 ∷ 6 ∷ 7 ∷ [])) (sink_top eight 4 3 (2 ∷ 1 ∷ 0 ∷ []) (omega arith))
      ∙ ap (sink_all eight (6 ∷ 7 ∷ [])) (sink_top eight 5 4 (3 ∷ 2 ∷ 1 ∷ 0 ∷ []) (omega arith))
      ∙ ap (sink_all eight (7 ∷ [])) (sink_top eight 6 5 (4 ∷ 3 ∷ 2 ∷ 1 ∷ 0 ∷ []) (omega arith))
      ∙ sink_top eight 7 6 (5 ∷ 4 ∷ 3 ∷ 2 ∷ 1 ∷ 0 ∷ []) (omega arith)

  no_overlaps-Ascending :
      (hi : ℕ)
      → hi < 2 ^ 32
      → Ascends hi
      → no_overlaps eight (7 ∷ 6 ∷ 5 ∷ 4 ∷ 3 ∷ 2 ∷ 1 ∷ 0 ∷ []) ≡ true
  unfolding no_overlaps
  no_overlaps-Ascending hi small
        (l0, s0, (l1, s1, (l2, s2, (l3, s3, (l4, s4, (l5, s5, (l6, s6, (l7, s7, l8)))))))) =
      follows 6 7 (5 ∷ 4 ∷ 3 ∷ 2 ∷ 1 ∷ 0 ∷ []) l7 (omega arith) (
        follows 5 6 (4 ∷ 3 ∷ 2 ∷ 1 ∷ 0 ∷ []) l6 (omega arith) (
          follows 4 5 (3 ∷ 2 ∷ 1 ∷ 0 ∷ []) l5 (omega arith) (
            follows 3 4 (2 ∷ 1 ∷ 0 ∷ []) l4 (omega arith) (
              follows 2 3 (1 ∷ 0 ∷ []) l3 (omega arith)
                (follows 1 2 (0 ∷ []) l2 (omega arith) (follows 0 1 [] l1 (omega arith) refl))))))
    where
      follows :
          (prev next : ℕ) (rest : List ℕ)
          → (slot eight prev).offset + secs_per_stripes eight ≤ (slot eight next).offset
          → (slot eight next).offset < 2 ^ 32
          → no_overlaps eight (prev ∷ rest) ≡ true
          → no_overlaps eight (next ∷ prev ∷ rest) ≡ true
      follows prev next rest h small others =
          and_true
            (leb (((slot eight prev).offset + secs_per_stripes eight) % 2 ^ 32)
              (slot eight next).offset)
            (no_overlaps eight (prev ∷ rest))
            (fits_below ((slot eight prev).offset + secs_per_stripes eight) (slot eight next).offset
              h (omega arith))
            others

  slots_valid-Ascending :
      (hi : ℕ)
      → hi < 2 ^ 23
      → (payload ≡ 0) ⊎ ((0 < secs_per_stripes eight) × (hi ≤ payload))
      → Ascends hi
      → slots_valid eight (0 ∷ 1 ∷ 2 ∷ 3 ∷ 4 ∷ 5 ∷ 6 ∷ 7 ∷ []) ≡ true
  unfolding slots_valid
  slots_valid-Ascending hi small room
        (l0, s0, (l1, s1, (l2, s2, (l3, s3, (l4, s4, (l5, s5, (l6, s6, (l7, s7, l8)))))))) =
      valid 0 (1 ∷ 2 ∷ 3 ∷ 4 ∷ 5 ∷ 6 ∷ 7 ∷ []) l0 s0 (omega arith) (
        valid 1 (2 ∷ 3 ∷ 4 ∷ 5 ∷ 6 ∷ 7 ∷ []) (omega arith) s1 (omega arith) (
          valid 2 (3 ∷ 4 ∷ 5 ∷ 6 ∷ 7 ∷ []) (omega arith) s2 (omega arith) (
            valid 3 (4 ∷ 5 ∷ 6 ∷ 7 ∷ []) (omega arith) s3 (omega arith) (
              valid 4 (5 ∷ 6 ∷ 7 ∷ []) (omega arith) s4 (omega arith) (
                valid 5 (6 ∷ 7 ∷ []) (omega arith) s5 (omega arith) (
                  valid 6 (7 ∷ []) (omega arith) s6 (omega arith)
                    (valid 7 [] (omega arith) s7 (omega arith) refl)))))))
    where
      valid :
          (i : ℕ) (is : List ℕ)
          → 8 ≤ (slot eight i).offset
          → (slot eight i).stripes ≡ luks_stripes
          → (slot eight i).offset + secs_per_stripes eight ≤ hi
          → slots_valid eight is ≡ true
          → slots_valid eight (i ∷ is) ≡ true
      valid i is low stripes fits rest =
          and_true (slot_valid eight i) (slots_valid eight is)
            (slot_valid-true eight i hi low stripes fits small room) rest

  check_keyslots-Ascending :
      (hi : ℕ)
      → hi < 2 ^ 23
      → (payload ≡ 0) ⊎ ((0 < secs_per_stripes eight) × (hi ≤ payload))
      → Ascends hi
      → check_keyslots eight ≡ true
  unfolding check_keyslots
  check_keyslots-Ascending hi small room up =
      and_true (slots_valid eight (0 ∷ 1 ∷ 2 ∷ 3 ∷ 4 ∷ 5 ∷ 6 ∷ 7 ∷ []))
        (no_overlaps eight (sort_keyslots eight)) (slots_valid-Ascending hi small room up)
        (ap (no_overlaps eight) (sort_keyslots-Ascending hi up)
          ∙ no_overlaps-Ascending hi (omega (arith, small)) up)

-- Eight keyblocks in order pass the check.
pub check_keyslots-new :
    (payload key_bytes hi : ℕ) (blocks : List Keyblock)
    → length blocks ≡ 8
    → hi < 2 ^ 23
    → (payload ≡ 0) ⊎ ((0 < area_secs key_bytes) × (hi ≤ payload))
    → Ascending (area_secs key_bytes) 8 hi blocks
    → check_keyslots (record { payload_offset = payload; key_bytes = key_bytes; keyblock = blocks })
      ≡ true
check_keyslots-new payload key_bytes hi [] e small room up = absurd (omega arith)
check_keyslots-new payload key_bytes hi (b0 ∷ []) e small room up = absurd (omega arith)
check_keyslots-new payload key_bytes hi (b0 ∷ b1 ∷ []) e small room up = absurd (omega arith)
check_keyslots-new payload key_bytes hi (b0 ∷ b1 ∷ b2 ∷ []) e small room up = absurd (omega arith)
check_keyslots-new payload key_bytes hi (b0 ∷ b1 ∷ b2 ∷ b3 ∷ []) e small room up =
    absurd (omega arith)
check_keyslots-new payload key_bytes hi (b0 ∷ b1 ∷ b2 ∷ b3 ∷ b4 ∷ []) e small room up =
    absurd (omega arith)
check_keyslots-new payload key_bytes hi (b0 ∷ b1 ∷ b2 ∷ b3 ∷ b4 ∷ b5 ∷ []) e small room up =
    absurd (omega arith)
check_keyslots-new payload key_bytes hi (b0 ∷ b1 ∷ b2 ∷ b3 ∷ b4 ∷ b5 ∷ b6 ∷ []) e small room up =
    absurd (omega arith)
check_keyslots-new payload key_bytes hi (b0 ∷ b1 ∷ b2 ∷ b3 ∷ b4 ∷ b5 ∷ b6 ∷ b7 ∷ []) e small room
      up =
    check_keyslots-Ascending payload key_bytes b0 b1 b2 b3 b4 b5 b6 b7 hi small room up
check_keyslots-new payload key_bytes hi (b0 ∷ b1 ∷ b2 ∷ b3 ∷ b4 ∷ b5 ∷ b6 ∷ b7 ∷ b8 ∷ bs) e small
      room up =
    absurd (omega arith)
