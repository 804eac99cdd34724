-- ===== src/Luks2/Reencrypt/Window.antt =====
-- lib/luks2/luks2_reencrypt.c: the hot zones that `crypt_reencrypt` goes through, one after the
-- other, as offsets and lengths of the context `struct luks2_reencrypt`.
pub mod Update
pub mod Cover
pub mod Start
use cryptsetup.Base.{
  ℕ, zero, suc, ◌+◌, ◌-◌, ◌^◌, List, [], ◌∷◌, Bool, true, false, not, ◌&&◌, ◌||◌, ◌==◌, ltb,
  if◌then◌else◌, Option, none, some, min,
}
use cryptsetup.Wrapper.{u64}

-- `a - b` on 64 bits.
abbrev pub sub64 : ℕ → ℕ → ℕ
sub64 a b = u64 (a + (2 ^ 64 - b))

pub data Direction : Type 0 where
  forward backward : Direction

-- The part of `struct luks2_reencrypt` that says where the hot zone is; `encrypts` stands for the
-- mode CRYPT_REENCRYPT_ENCRYPT.
pub record Context : Type 0 where
  pub direction : Direction
  pub encrypts : Bool
  pub data_shift : ℕ
  pub device_size : ℕ
  pub offset : ℕ
  pub len : ℕ
  pub progress : ℕ

-- `_offset_forward`, from the sizes of the segments. `none` stands for -EINVAL.
unfoldable pub offset_forward : List ℕ → Option ℕ
offset_forward (size ∷ []) = some 0
offset_forward (size ∷ next ∷ []) = if size == 0 then none else some size
offset_forward segments = none

-- `_offset_backward`: the offset and the length.
unfoldable pub offset_backward : List ℕ → ℕ → ℕ → Option (ℕ × ℕ)
offset_backward (size ∷ []) device_size len =
    let len1 : ℕ = min device_size len in some (device_size - len1, len1)
offset_backward (size ∷ next ∷ []) device_size len =
    let len1 : ℕ = min size len in some (size - len1, len1)
offset_backward segments device_size len = none

-- `reencrypt_offset_backward_moved`, from the number of segments and the sum of the linear ones.
unfoldable pub offset_backward_moved : ℕ → ℕ → ℕ → ℕ → Option (ℕ × ℕ)
offset_backward_moved segments linear_length data_shift len =
    if not (linear_length == 0)
    then (let tmp : ℕ = linear_length - data_shift in
        if ltb linear_length data_shift
        then none
        else if not (tmp == 0) && ltb tmp data_shift
        then some (data_shift, tmp)
        else some (tmp, len))
    else if segments == 1
    then some (0, len)
    else none

-- The end of `reencrypt_context_init`, from the offset and the length that are found.
abbrev pub start_progress : Direction → ℕ → ℕ → ℕ → ℕ
start_progress forward device_size offset len = offset
start_progress backward device_size offset len = device_size - offset - len

unfoldable pub context_init : Context → Option (ℕ × ℕ) → Option Context
context_init c none = none
context_init c (some (offset, len)) =
    let len1 : ℕ = min len (c.device_size - offset) in
    if ltb c.device_size offset || ltb len1 512
    then none
    else some (record c {
      offset = offset;
      len = len1;
      progress = start_progress c.direction c.device_size offset len1;
    })

-- The hot zone after a shift to `back`: whether that is the start of the device, and whether it is
-- nearer to it than the shift.
abbrev pub advance_near : Context → ℕ → Bool → Context
advance_near c back true = record c { offset = c.data_shift; len = back }
advance_near c back false = record c { offset = back }

abbrev pub advance_start : Context → ℕ → Bool → Context
advance_start c back true = record c { offset = 0; len = c.data_shift }
advance_start c back false = advance_near c back (ltb back c.data_shift)

abbrev pub advance_to : Context → ℕ → Context
advance_to c back = advance_start c back (back == 0)

abbrev pub advance_moved : Context → Context
advance_moved c = advance_to c (if c.offset == 0 then 0 else sub64 c.offset c.data_shift)

-- Whether the data is shifted at the same time.
abbrev pub shifts : Context → Bool
shifts c = not (c.data_shift == 0) && c.encrypts

abbrev pub advance_backward : Context → Bool → Context
advance_backward c true = advance_moved c
advance_backward c false =
    let len : ℕ = min c.offset c.len in record c { offset = c.offset - len; len = len }

abbrev pub advance : Direction → Context → ℕ → Context
advance forward c read =
    let offset : ℕ = u64 (c.offset + read) in
    let left : ℕ = sub64 c.device_size offset in
    record c { offset = offset; len = if ltb left c.len then left else c.len }
advance backward c read = advance_backward c (shifts c)

-- `reencrypt_context_update`; `read` is `none` for a negative number.
unfoldable pub context_update : Context → Option ℕ → Option Context
context_update c none = none
context_update c (some read) =
    let next : Context = advance c.direction c read in
    if ltb c.device_size next.offset
    then none
    else some (record next { progress = u64 (c.progress + read) })

-- How the loop ends, with the hot zones that were reencrypted, the first one first.
pub record Done (S : Type 0) : Type 0 where
  pub context : Context
  pub state : S
  pub is_ok : Bool
  pub windows : List (ℕ × ℕ)

-- `step` is `reencrypt_step`: it returns the number of bytes of `rh->read`, or `none` when it does
-- not return REENC_OK; `quits` is the callback for the progress.
module _ {S : Type 0} (step : Context → S → S × Option ℕ) (quits : Context → Bool) where
  abbrev pub add_window : Context → Option (Done S) → Option (Done S)
  add_window c none = none
  add_window c (some d) = some (record d { windows = (c.offset, c.len) ∷ d.windows })

  abbrev pub after_update :
      Context → (Context → S → Option (Done S)) → S → Bool → Option Context → Option (Done S)
  after_update c rest s quit none =
      some (record { context = c; state = s; is_ok = false; windows = (c.offset, c.len) ∷ [] })
  after_update c rest s true (some next) =
      some (record { context = next; state = s; is_ok = true; windows = (c.offset, c.len) ∷ [] })
  after_update c rest s false (some next) = add_window c (rest next s)

  abbrev pub after_step : Context → (Context → S → Option (Done S)) → S × Option ℕ → Option (Done S)
  after_step c rest (s, none) =
      some (record { context = c; state = s; is_ok = false; windows = [] })
  after_step c rest (s, some read) = after_update c rest s (quits c) (context_update c (some read))

  -- The loop of `crypt_reencrypt`; `none` is the end of the fuel.
  unfoldable pub reencrypt_loop : ℕ → Context → S → Option (Done S)
  reencrypt_loop zero c s = none
  reencrypt_loop (suc fuel) c s = elim (ltb c.progress c.device_size) [
    | false ↦ some (record { context = c; state = s; is_ok = true; windows = [] })
    | true ↦ after_step c (λ next s1. reencrypt_loop fuel next s1) (step c s)
  ]
