-- ===== src/Luks2/Reencrypt/Window/Start.antt =====
-- lib/luks2/luks2_reencrypt.c: from the start of a reencryption to its end.
use cryptsetup.Base.{
  ℕ, ◌+◌, ◌-◌, ◌^◌, ◌≤◌, ◌<◌, ◌≡◌, ◌⊎◌, inl, inr, sym, ap, ◌∙◌, arith, Bool, Bool-cases, true,
  false, not, ◌&&◌, ◌||◌, ltb, ◌==◌, if◌then◌else◌, Option, none, some, min,
}
use cryptsetup.Luks2.Reencrypt.Window.{
  Context, forward, backward, Done, shifts, offset_backward_moved, start_progress, context_init,
  reencrypt_loop,
}
use cryptsetup.Luks2.Reencrypt.Window.Update.{IsForward, IsBackward}
use cryptsetup.Luks2.Reencrypt.Window.Cover.{
  TilesUp, TilesDown, reencrypt_loop-forward, reencrypt_loop-backward,
}
use cryptsetup.Luks2.Validate.Fields.{some-injective}
use mathlib.Core.Path.{subst}

abbrev started : Context → ℕ → ℕ → Context
started c offset len = record c {
  offset = offset;
  len = len;
  progress = start_progress c.direction c.device_size offset len;
}

context_init-some :
    (c0 c : Context) (offset len : ℕ)
    → context_init c0 (some (offset, len)) ≡ some c
    → (offset ≤ c0.device_size)
      × (512 ≤ min len (c0.device_size - offset))
      × (started c0 offset (min len (c0.device_size - offset)) ≡ c)
unfolding context_init
context_init-some c0 c offset len e =
    let len1 : ℕ = min len (c0.device_size - offset) in
    elim (Bool-cases (ltb c0.device_size offset || ltb len1 512)) [
      | inl bad ↦ absurd (refused (rw bad at e))
      | inr good ↦ (ground arith, ground arith, some-injective (rw good at e))
    ]
  where
    refused : ◌≡◌ {A = Option Context} none (some c) → ⊥
    refused e = cc

context_init-IsForward :
    (c0 c : Context) (offset len : ℕ)
    → c0.direction ≡ forward
    → c0.device_size < 2 ^ 64
    → context_init c0 (some (offset, len)) ≡ some c
    → IsForward c
context_init-IsForward c0 c offset len d small e =
    let (inside, long, same) = context_init-some c0 c offset len e in
    subst IsForward same (record {
      forwards = d;
      done = ap (λ k. start_progress k c0.device_size offset (min len (c0.device_size - offset))) d;
      fits = omega arith;
      left = λ _. omega arith;
      small = small;
    })

-- Where a reencryption with a shift of the data starts.
moved-IsShifted :
    (c0 : Context) (segments linear_length offset len : ℕ)
    → 0 < c0.data_shift
    → offset_backward_moved segments linear_length c0.data_shift c0.data_shift ≡ some (offset, len)
    → (offset ≡ 0) ⊎ ((c0.data_shift ≤ offset) × ((len ≡ c0.data_shift) ⊎ (offset ≡ c0.data_shift)))
unfolding offset_backward_moved
moved-IsShifted c0 segments linear_length offset len pos e =
    elim (Bool-cases (not (linear_length == 0))) [
      | inr none_left ↦ single (rw none_left at e)
      | inl linear ↦ moved (rw linear at e)
    ]
  where
    Goal : Type 0
    Goal =
        (offset ≡ 0)
        ⊎ ((c0.data_shift ≤ offset) × ((len ≡ c0.data_shift) ⊎ (offset ≡ c0.data_shift)))

    tmp : ℕ
    tmp = linear_length - c0.data_shift

    at_pair :
        {a b : ℕ}
        → ◌≡◌ {A = Option (ℕ × ℕ)} (some (a, b)) (some (offset, len))
        → (a ≡ offset) × (b ≡ len)
    at_pair e =
        let same = some-injective e in (ap (λ (p : ℕ × ℕ). p.0) same, ap (λ (p : ℕ × ℕ). p.1) same)

    single :
        ◌≡◌ {A = Option (ℕ × ℕ)}
          (if segments == 1 then some (0, c0.data_shift) else none)
          (some (offset, len))
        → Goal
    single e = elim (Bool-cases (segments == 1)) [
      | inl one_left ↦ let (start, _) = at_pair (rw one_left at e) in inl (sym start)
      | inr more ↦ absurd (refused (rw more at e))
    ]
      where
        refused : ◌≡◌ {A = Option (ℕ × ℕ)} none (some (offset, len)) → ⊥
        refused e = cc

    moved :
        ◌≡◌ {A = Option (ℕ × ℕ)}
          (if ltb linear_length c0.data_shift
            then none
            else if not (tmp == 0) && ltb tmp c0.data_shift
            then some (c0.data_shift, tmp)
            else some (tmp, c0.data_shift))
          (some (offset, len))
        → Goal
    moved e = elim (Bool-cases (ltb linear_length c0.data_shift)) [
      | inl less ↦ absurd (refused (rw less at e))
      | inr enough ↦ placed (rw enough at e)
    ]
      where
        refused : ◌≡◌ {A = Option (ℕ × ℕ)} none (some (offset, len)) → ⊥
        refused e = cc

        placed :
            ◌≡◌ {A = Option (ℕ × ℕ)}
              (if not (tmp == 0) && ltb tmp c0.data_shift
                then some (c0.data_shift, tmp)
                else some (tmp, c0.data_shift))
              (some (offset, len))
            → Goal
        placed e = elim (Bool-cases (not (tmp == 0) && ltb tmp c0.data_shift)) [
          | inl near ↦
              let (start, _) = at_pair (rw near at e) in inr (omega (arith, start), inr (sym start))
          | inr far ↦
              let (start, whole) = at_pair (rw far at e) in
              elim (Bool-cases (tmp == 0)) [
                | inl first ↦ let zero_tmp : tmp ≡ 0 = ground arith in inl (sym start ∙ zero_tmp)
                | inr later ↦
                    let room : c0.data_shift ≤ tmp = ground arith in
                    inr (omega (arith, start, room), inl (sym whole))
              ]
        ]

-- The first hot zone of a reencryption with a shift of the data lies on the device.
abbrev StartsShifted : Context → ℕ → ℕ → Type 0
StartsShifted c0 offset len =
    (offset + len ≤ c0.device_size)
    × ((offset ≡ 0)
        ⊎ ((c0.data_shift ≤ offset) × ((len ≡ c0.data_shift) ⊎ (offset ≡ c0.data_shift))))

context_init-IsBackward :
    (c0 c : Context) (offset len : ℕ)
    → c0.direction ≡ backward
    → c0.device_size < 2 ^ 64
    → (shifts c0 ≡ false) ⊎ ((shifts c0 ≡ true) × StartsShifted c0 offset len)
    → context_init c0 (some (offset, len)) ≡ some c
    → IsBackward c
context_init-IsBackward c0 c offset len d small kind e =
    let (inside, long, same) = context_init-some c0 c offset len e in
    let len1 : ℕ = min len (c0.device_size - offset) in
    let from : start_progress c0.direction c0.device_size offset len1
        ≡ c0.device_size - offset - len1 =
      ap (λ k. start_progress k c0.device_size offset len1) d in
    subst IsBackward same (record {
      backwards = d;
      left = omega (arith, from, inside);
      pos = omega arith;
      small = small;
      shifted = elim kind [
        | inl off ↦ inl off
        | inr (on, (fits, inl start)) ↦ inr (on, inl start)
        | inr (on, (fits, inr (shift, inl whole))) ↦ inr (on, inr (shift, inl (omega arith)))
        | inr (on, (fits, inr (shift, inr start))) ↦ inr (on, inr (shift, inr start))
      ];
    })

module _ {S : Type 0} (step : Context → S → S × Option ℕ) (quits : Context → Bool) where
  -- A forward reencryption, whose steps read the whole hot zone and are not interrupted, ends with
  -- enough fuel and without an error. Its hot zones follow each other, from the offset that
  -- `context_init` starts with up to the end of the device, and the progress is the device's size.
  pub reencrypt_loop-forward_start :
      (fuel : ℕ) (c0 c : Context) (offset len : ℕ) (s : S)
      → c0.direction ≡ forward
      → c0.device_size < 2 ^ 64
      → context_init c0 (some (offset, len)) ≡ some c
      → ((c1 : Context) (s1 : S) → (step c1 s1).1 ≡ some c1.len)
      → ((c1 : Context) → quits c1 ≡ false)
      → c.device_size < c.offset + fuel
      → (d : Done S) × (reencrypt_loop step quits fuel c s ≡ some d)
        × (d.is_ok ≡ true)
        × (d.context.progress ≡ c.device_size)
        × TilesUp c.offset c.device_size d.windows
  reencrypt_loop-forward_start fuel c0 c offset len s d small e whole goes_on enough =
      reencrypt_loop-forward step quits fuel c s (context_init-IsForward c0 c offset len d small e)
        whole goes_on enough

  -- A backward reencryption, whose steps read the whole hot zone and are not interrupted, ends with
  -- enough fuel and without an error. Its hot zones follow each other from the end of the first one
  -- down to the start of the device. This holds without a shift of the data, and with one when the
  -- first hot zone is that of `offset_backward_moved` for the length of the shift and lies on the
  -- device.
  pub reencrypt_loop-backward_start :
      (fuel segments linear_length : ℕ) (c0 c : Context) (offset len : ℕ) (s : S)
      → c0.direction ≡ backward
      → c0.device_size < 2 ^ 64
      → (shifts c0 ≡ false)
        ⊎ ((shifts c0 ≡ true)
            × (offset_backward_moved segments linear_length c0.data_shift c0.data_shift
                ≡ some (offset, len))
            × (offset + len ≤ c0.device_size))
      → context_init c0 (some (offset, len)) ≡ some c
      → ((c1 : Context) (s1 : S) → (step c1 s1).1 ≡ some c1.len)
      → ((c1 : Context) → quits c1 ≡ false)
      → c.offset + 1 < fuel
      → (d : Done S) × (reencrypt_loop step quits fuel c s ≡ some d)
        × (d.is_ok ≡ true)
        × (d.context.progress ≡ c.device_size)
        × TilesDown (c.offset + c.len) d.windows
  reencrypt_loop-backward_start fuel segments linear_length c0 c offset len s d small kind e whole
        goes_on enough =
      let shift : (shifts c0 ≡ false) ⊎ ((shifts c0 ≡ true) × StartsShifted c0 offset len) =
        elim kind [
          | inl off ↦ inl off
          | inr (on, found, fits) ↦
              let pos : 0 < c0.data_shift = ground arith in
              inr (on, (fits, moved-IsShifted c0 segments linear_length offset len pos found))
        ] in
      reencrypt_loop-backward step quits fuel c s
        (context_init-IsBackward c0 c offset len d small shift e) whole goes_on enough
