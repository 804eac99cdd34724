-- ===== src/Luks1/Generate.antt =====
-- lib/luks1/keymanage.c: a new header passes the check of the keyslots.
use cryptsetup.Af.{af_split_sectors}
use cryptsetup.Base.{
  ℕ, ◌%◌, ◌≤◌, ◌<◌, ◌≡◌, ◌⊎◌, inl, inr, refl, ap, ◌∙◌, ◌^◌, arith, Bool-cases, true, false, ◌&&◌,
  ◌||◌, ◌==◌, not, ltb, Result, ok, err, einval, ok-injective,
}
use cryptsetup.Luks1.{
  Phdr, check_keyslots, new_keyblocks, new_payload_offset, generate_layout, luks_stripes,
}
use mathlib.Core.Path.{subst}
use cryptsetup.Luks1.Ascending.{Ascending, area_secs, new_keyblocks-Ascending, check_keyslots-new}

-- The header that LUKS_generate_phdr lays out passes LUKS_check_keyslots, for a key whose length fits
-- the 32-bit field of the header and whose area has at least one sector and at most the largest size
-- of a keyslot.
pub check_keyslots-generate_layout :
    (key_bytes data_offset align_offset required_alignment : ℕ) (hdr : Phdr)
    → key_bytes < 2 ^ 32
    → 0 < af_split_sectors key_bytes luks_stripes
    → af_split_sectors key_bytes luks_stripes ≤ 32768
    → generate_layout key_bytes data_offset align_offset required_alignment ≡ ok hdr
    → check_keyslots hdr ≡ true
unfolding generate_layout new_keyblocks
check_keyslots-generate_layout key_bytes data_offset align_offset required_alignment hdr small pos
      large e =
    let secs : ℕ = af_split_sectors key_bytes luks_stripes in
    let end : ℕ = (new_keyblocks secs 8 8).1 in
    let payload : ℕ = new_payload_offset end data_offset align_offset required_alignment in
    elim (Bool-cases (
      not (data_offset % 512 == 0)
      || (not (align_offset % 512 == 0) || not (required_alignment % 512 == 0)))) [
        | inl bad ↦ absurd (refused (rw bad at e))
        | inr good ↦ elim (Bool-cases (not (payload == 0) && ltb payload end)) [
          | inl bad ↦ absurd (refused (rw bad at (rw good at e)))
          | inr room ↦
              let (up, below) =
                new_keyblocks-Ascending secs 8 8 8 (omega arith) (omega (arith, large)) in
              let same : secs ≡ area_secs key_bytes = omega (arith, large) in
              let field : key_bytes ≡ key_bytes % 2 ^ 32 = omega arith in
              subst (λ h. check_keyslots h ≡ true)
                (ap
                    (λ k. record {
                      payload_offset = payload;
                      key_bytes = k;
                      keyblock = (new_keyblocks secs 8 8).0;
                    })
                    field
                  ∙ ok-injective (rw room at (rw good at e)))
                (check_keyslots-new payload key_bytes end (new_keyblocks secs 8 8).0 refl
                  (omega (arith, below, large)) (placed secs end payload same room)
                  (subst (λ n. Ascending n 8 end (new_keyblocks secs 8 8).0) same up))
        ]
      ]
  where
    placed :
        (secs end payload : ℕ)
        → af_split_sectors key_bytes luks_stripes ≡ area_secs key_bytes
        → (not (payload == 0) && ltb payload end) ≡ false
        → (payload ≡ 0) ⊎ ((0 < area_secs key_bytes) × (end ≤ payload))
    placed secs end payload same room = elim (Bool-cases (payload == 0)) [
      | inl detached ↦ inl (ground (arith, detached))
      | inr attached ↦ inr (omega (arith, same, pos), ground (arith, attached, room))
    ]

    refused : ◌≡◌ {A = Result Phdr} (err einval) (ok hdr) → ⊥
    refused e = cc
