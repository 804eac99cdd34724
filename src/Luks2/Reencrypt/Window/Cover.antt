-- ===== src/Luks2/Reencrypt/Window/Cover.antt =====
-- lib/luks2/luks2_reencrypt.c: the hot zones of `crypt_reencrypt` cover the device.
use cryptsetup.Base.{
  ℕ, zero, suc, ◌+◌, ◌≤◌, ◌<◌, ◌≡◌, inl, inr, refl, sym, ap, ◌∙◌, arith, List, [], ◌∷◌, Bool,
  Bool-cases, true, false, ltb, ◌==◌, Option, some,
}
use mathlib.Core.Path.{subst}
use cryptsetup.Luks2.Reencrypt.Window.{
  Context, Done, context_update, reencrypt_loop, after_step, after_update, add_window,
}
use cryptsetup.Luks2.Reencrypt.Window.Update.{
  IsForward, IsBackward, context_update-IsForward, context_update-IsBackward, context_update_last,
}

-- The windows follow each other from `lo` up to `hi`.
pub data TilesUp : ℕ → ℕ → List (ℕ × ℕ) → Type 0 where
  up_end : {lo hi : ℕ} → lo ≡ hi → TilesUp lo hi []
  up_next :
      {lo next hi : ℕ} {len : ℕ} {windows : List (ℕ × ℕ)}
      → lo + len ≡ next
      → TilesUp next hi windows
      → TilesUp lo hi ((lo, len) ∷ windows)

-- The windows follow each other from `hi` down to 0.
pub data TilesDown : ℕ → List (ℕ × ℕ) → Type 0 where
  down_end : {hi : ℕ} → hi ≡ 0 → TilesDown hi []
  down_next :
      {hi offset len : ℕ} {windows : List (ℕ × ℕ)}
      → offset + len ≡ hi
      → TilesDown offset windows
      → TilesDown hi ((offset, len) ∷ windows)

module _ {S : Type 0} (step : Context → S → S × Option ℕ) (quits : Context → Bool) where
  loop_end :
      (fuel : ℕ) (c : Context) (s : S)
      → c.device_size ≤ c.progress
      → reencrypt_loop step quits (suc fuel) c s
        ≡ some (record { context = c; state = s; is_ok = true; windows = [] })
  unfolding reencrypt_loop
  loop_end fuel c s done =
      let no_more : ltb c.progress c.device_size ≡ false = ground arith in
      ap
        (λ t. elim t [
          | false ↦ some (record { context = c; state = s; is_ok = true; windows = [] })
          | true ↦
              after_step step quits c (λ next s1. reencrypt_loop step quits fuel next s1) (step c s)
        ])
        no_more

  loop_next :
      (fuel : ℕ) (c next : Context) (s : S)
      → c.progress < c.device_size
      → (step c s).1 ≡ some c.len
      → quits c ≡ false
      → context_update c (some c.len) ≡ some next
      → reencrypt_loop step quits (suc fuel) c s
        ≡ add_window step quits c (reencrypt_loop step quits fuel next (step c s).0)
  unfolding reencrypt_loop
  loop_next fuel c next s more whole goes_on update =
      let more1 : ltb c.progress c.device_size ≡ true = ground arith in
      let rest : Context → S → Option (Done S) = λ c1 s1. reencrypt_loop step quits fuel c1 s1 in
      let s1 : S = (step c s).0 in
      ap
        (λ t. elim t [
          | false ↦ some (record { context = c; state = s; is_ok = true; windows = [] })
          | true ↦ after_step step quits c rest (step c s)
        ])
        more1
      ∙ ap (λ o. after_step step quits c rest (s1, o)) whole
      ∙ ap (λ q. after_update step quits c rest s1 q (context_update c (some c.len))) goes_on
      ∙ ap (after_update step quits c rest s1 false) update

  -- Forward
  pub reencrypt_loop-forward :
      (fuel : ℕ) (c : Context) (s : S)
      → IsForward c
      → ((c1 : Context) (s1 : S) → (step c1 s1).1 ≡ some c1.len)
      → ((c1 : Context) → quits c1 ≡ false)
      → c.device_size < c.offset + fuel
      → (d : Done S) × (reencrypt_loop step quits fuel c s ≡ some d)
        × (d.is_ok ≡ true)
        × (d.context.progress ≡ c.device_size)
        × TilesUp c.offset c.device_size d.windows
  reencrypt_loop-forward zero c s h whole goes_on enough = absurd (omega (arith, h.fits))
  reencrypt_loop-forward (suc fuel) c s h whole goes_on enough =
      elim (Bool-cases (ltb c.offset c.device_size)) [
        | inl more ↦
            let less : c.offset < c.device_size = ground arith in
            let (next, update, h1, at, size) = context_update-IsForward c h less in
            let pos = h.left less in
            let (d, run, good, all, tiles) =
              reencrypt_loop-forward fuel next (step c s).0 h1 whole goes_on
                (omega (arith, at, size, enough, pos)) in
            (
              record d { windows = (c.offset, c.len) ∷ d.windows },
              loop_next fuel c next s (omega (arith, h.done, less)) (whole c s) (goes_on c) update
                  ∙ ap (add_window step quits c) run,
              good,
              all ∙ size,
              up_next (sym at) (subst (λ k. TilesUp next.offset k d.windows) size tiles),
            )
        | inr no_more ↦
            let ended : c.device_size ≤ c.offset = ground arith in
            let here : c.offset ≡ c.device_size = omega (arith, ended, h.fits) in
            (
              record { context = c; state = s; is_ok = true; windows = [] },
              loop_end fuel c s (omega (arith, h.done, ended)),
              refl,
              h.done ∙ here,
              up_end here,
            )
      ]

  pub reencrypt_loop-backward :
      (fuel : ℕ) (c : Context) (s : S)
      → IsBackward c
      → ((c1 : Context) (s1 : S) → (step c1 s1).1 ≡ some c1.len)
      → ((c1 : Context) → quits c1 ≡ false)
      → c.offset + 1 < fuel
      → (d : Done S) × (reencrypt_loop step quits fuel c s ≡ some d)
        × (d.is_ok ≡ true)
        × (d.context.progress ≡ c.device_size)
        × TilesDown (c.offset + c.len) d.windows
  reencrypt_loop-backward zero c s h whole goes_on enough = absurd (omega arith)
  reencrypt_loop-backward (suc zero) c s h whole goes_on enough = absurd (omega arith)
  reencrypt_loop-backward (suc (suc fuel)) c s h whole goes_on enough =
      let more : c.progress < c.device_size = omega (arith, h.left, h.pos) in
      elim (Bool-cases (c.offset == 0)) [
        | inl first ↦
            let start : c.offset ≡ 0 = ground arith in
            let (next, update, all, size) = context_update_last c h start in
            let s1 : S = (step c s).0 in
            (
              record { context = next; state = s1; is_ok = true; windows = (c.offset, c.len) ∷ [] },
              loop_next (suc fuel) c next s more (whole c s) (goes_on c) update
                  ∙ ap (add_window step quits c) (loop_end fuel next s1 (omega (arith, all, size))),
              refl,
              all,
              down_next refl (down_end start),
            )
        | inr later ↦
            let behind : 0 < c.offset = ground arith in
            let (next, update, h1, ends, size) = context_update-IsBackward c h behind in
            let (d, run, good, all, tiles) =
              reencrypt_loop-backward (suc fuel) next (step c s).0 h1 whole goes_on
                (omega (arith, enough, ends, h1.pos)) in
            (
              record d { windows = (c.offset, c.len) ∷ d.windows },
              loop_next (suc fuel) c next s more (whole c s) (goes_on c) update
                  ∙ ap (add_window step quits c) run,
              good,
              all ∙ size,
              down_next refl (subst (λ k. TilesDown k d.windows) ends tiles),
            )
      ]
