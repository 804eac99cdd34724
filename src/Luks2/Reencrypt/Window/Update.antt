-- ===== src/Luks2/Reencrypt/Window/Update.antt =====
-- lib/luks2/luks2_reencrypt.c: what an update of the context keeps.
use cryptsetup.Base.{
  ℕ, ◌+◌, ◌-◌, ◌^◌, ◌≤◌, ◌<◌, ◌≡◌, ◌⊎◌, inl, inr, refl, sym, ap, ◌∙◌, arith, Bool, Bool-cases, true,
  false, ltb, ◌==◌, if◌then◌else◌, Option, none, some,
}
use mathlib.Core.Path.{subst}
use cryptsetup.Luks2.Reencrypt.Window.{
  Context, Direction, forward, backward, shifts, advance, advance_backward, advance_near,
  advance_start, advance_to, context_update, sub64,
}
use cryptsetup.Wrapper.{u64}

-- The context of a forward reencryption between two steps, with data left to do.
pub record IsForward (c : Context) : Type 0 where
  pub forwards : c.direction ≡ forward
  pub done : c.progress ≡ c.offset
  pub fits : c.offset + c.len ≤ c.device_size
  pub left : c.offset < c.device_size → 0 < c.len
  pub small : c.device_size < 2 ^ 64

-- The update for a direction, when the hot zone stays on the device.
context_update-some :
    (c : Context) (read : ℕ) (d : Direction)
    → c.direction ≡ d
    → (advance d c read).offset ≤ c.device_size
    → context_update c (some read)
      ≡ some (record (advance d c read) { progress = u64 (c.progress + read) })
unfolding context_update
context_update-some c read d e fits =
    let after : Context → Option Context = λ next.
      if ltb c.device_size next.offset
      then none
      else some (record next { progress = u64 (c.progress + read) }) in
    let inside : ltb c.device_size (advance d c read).offset ≡ false = ground arith in
    ap (λ k. after (advance k c read)) e
    ∙ ap
        (λ (t : Bool).
          if t
          then none
          else some (record (advance d c read) { progress = u64 (c.progress + read) }))
        inside

pub context_update-IsForward :
    (c : Context)
    → IsForward c
    → c.offset < c.device_size
    → (next : Context) × (context_update c (some c.len) ≡ some next)
      × IsForward next
      × (next.offset ≡ c.offset + c.len)
      × (next.device_size ≡ c.device_size)
context_update-IsForward c h more =
    let here : u64 (c.offset + c.len) ≡ c.offset + c.len = omega (arith, h.fits, h.small) in
    let fits : u64 (c.offset + c.len) ≤ c.device_size = omega (arith, here, h.fits) in
    let left : sub64 c.device_size (u64 (c.offset + c.len)) ≡ c.device_size - (c.offset + c.len) =
      omega (arith, fits, here, h.small) in
    (
      record (advance forward c c.len) { progress = u64 (c.progress + c.len) },
      context_update-some c c.len forward h.forwards fits,
      record {
        forwards = h.forwards;
        done = ap (λ k. u64 (k + c.len)) h.done;
        fits = ground arith;
        left = λ more. ground arith;
        small = h.small;
      },
      here,
      refl,
    )

-- With a shift of data, the hot zone has the length of the shift, but for the one before the last.
abbrev pub IsShifted : Context → Type 0
IsShifted c =
    (c.offset ≡ 0)
    ⊎ ((c.data_shift ≤ c.offset) × ((c.len ≡ c.data_shift) ⊎ (c.offset ≡ c.data_shift)))

-- The context of a backward reencryption between two steps, with data left to do.
pub record IsBackward (c : Context) : Type 0 where
  pub backwards : c.direction ≡ backward
  pub left : c.progress + (c.offset + c.len) ≡ c.device_size
  pub pos : 0 < c.len
  pub small : c.device_size < 2 ^ 64
  pub shifted : (shifts c ≡ false) ⊎ ((shifts c ≡ true) × IsShifted c)

-- The next hot zone ends where this one begins.
abbrev Follows : Context → Context → Type 0
Follows c next =
    (next.offset + next.len ≡ c.offset)
    × (0 < next.len)
    × ((shifts next ≡ false) ⊎ ((shifts next ≡ true) × IsShifted next))

advance_to-Follows :
    (c : Context) (back : ℕ)
    → shifts c ≡ true
    → 0 < c.data_shift
    → back + c.data_shift ≡ c.offset
    → (c.len ≡ c.data_shift) ⊎ (c.offset ≡ c.data_shift)
    → Follows c (advance_to c back)
advance_to-Follows c back on pos at sizes = elim (Bool-cases (back == 0)) [
  | inl first ↦
      let start : back ≡ 0 = ground arith in
      subst (λ t. Follows c (advance_start c back t)) (sym first)
        (omega (arith, at, start), pos, inr (on, inl refl))
  | inr later ↦
      let behind : 0 < back = ground arith in
      subst (λ t. Follows c (advance_start c back t)) (sym later) (near behind)
]
  where
    near : 0 < back → Follows c (advance_near c back (ltb back c.data_shift))
    near behind = elim (Bool-cases (ltb back c.data_shift)) [
      | inl nearer ↦
          subst (λ t. Follows c (advance_near c back t)) (sym nearer)
            (omega (arith, at), behind, inr (on, inr (omega arith, inr refl)))
      | inr far ↦
          let room : c.data_shift ≤ back = ground arith in
          let whole : c.len ≡ c.data_shift = elim sizes [
            | inl whole ↦ whole
            | inr start ↦ absurd (omega (arith, at, start, behind))
          ] in
          subst (λ t. Follows c (advance_near c back t)) (sym far)
            (omega (arith, at, whole), omega (arith, pos, whole), inr (on, inr (room, inl whole)))
    ]

-- Before the start of the device is reached, the next hot zone follows.
advance-Follows : (c : Context) → IsBackward c → 0 < c.offset → Follows c (advance backward c c.len)
advance-Follows c h more = elim (h.shifted) [
  | inl off ↦
      subst (λ t. Follows c (advance_backward c t)) (sym off)
        (omega arith, omega (arith, more, h.pos), inl off)
  | inr (on, inl start) ↦ absurd (omega (arith, start, more))
  | inr (on, inr (long, sizes)) ↦
      let pos : 0 < c.data_shift = ground arith in
      let back : ℕ = if c.offset == 0 then 0 else sub64 c.offset c.data_shift in
      let apart : (c.offset == 0) ≡ false = ground arith in
      let at : back + c.data_shift ≡ c.offset =
        ap (λ (t : Bool). (if t then 0 else sub64 c.offset c.data_shift) + c.data_shift) apart
        ∙ omega (arith, h.small, h.left, long) in
      subst (λ t. Follows c (advance_backward c t)) (sym on)
        (advance_to-Follows c back on pos at sizes)
]

keeps_size :
    (d : Direction) (c : Context) (n : ℕ)
    → ((advance d c n).device_size ≡ c.device_size) × ((advance d c n).direction ≡ c.direction)
keeps_size forward c n = (refl, refl)
keeps_size backward c n = by_shift (shifts c)
  where
    by_near :
        (back : ℕ) (t : Bool)
        → ((advance_near c back t).device_size ≡ c.device_size)
          × ((advance_near c back t).direction ≡ c.direction)
    by_near back true = (refl, refl)
    by_near back false = (refl, refl)

    by_start :
        (back : ℕ) (t : Bool)
        → ((advance_start c back t).device_size ≡ c.device_size)
          × ((advance_start c back t).direction ≡ c.direction)
    by_start back true = (refl, refl)
    by_start back false = by_near back (ltb back c.data_shift)

    by_shift :
        (t : Bool)
        → ((advance_backward c t).device_size ≡ c.device_size)
          × ((advance_backward c t).direction ≡ c.direction)
    by_shift true =
        let back : ℕ = if c.offset == 0 then 0 else sub64 c.offset c.data_shift in
        by_start back (back == 0)
    by_shift false = (refl, refl)

pub context_update-IsBackward :
    (c : Context)
    → IsBackward c
    → 0 < c.offset
    → (next : Context) × (context_update c (some c.len) ≡ some next)
      × IsBackward next
      × (next.offset + next.len ≡ c.offset)
      × (next.device_size ≡ c.device_size)
context_update-IsBackward c h more =
    let step : Context = advance backward c c.len in
    let (ends, pos, shifted) = advance-Follows c h more in
    let (size, direction) = keeps_size backward c c.len in
    let next : Context = record step { progress = u64 (c.progress + c.len) } in
    (
      next,
      context_update-some c c.len backward h.backwards (omega (arith, ends, h.left)),
      record {
        backwards = direction ∙ h.backwards;
        left = omega (arith, ends, h.left, h.small, size);
        pos = pos;
        small = omega (arith, size, h.small);
        shifted = shifted;
      },
      ends,
      size,
    )

-- The update after the last hot zone.
pub context_update_last :
    (c : Context)
    → IsBackward c
    → c.offset ≡ 0
    → (next : Context) × (context_update c (some c.len) ≡ some next)
      × (next.progress ≡ c.device_size)
      × (next.device_size ≡ c.device_size)
context_update_last c h start =
    let step : Context = advance backward c c.len in
    let (size, direction) = keeps_size backward c c.len in
    (
      record step { progress = u64 (c.progress + c.len) },
      context_update-some c c.len backward h.backwards (omega (arith, at_start (shifts c))),
      omega (arith, h.left, h.small, start),
      size,
    )
  where
    at_start : (t : Bool) → (advance_backward c t).offset ≡ 0
    at_start true =
        let first : (c.offset == 0) ≡ true = ground arith in
        ap (λ (t : Bool). (advance_to c (if t then 0 else sub64 c.offset c.data_shift)).offset)
          first
    at_start false = omega arith
