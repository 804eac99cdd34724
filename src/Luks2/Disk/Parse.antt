-- ===== src/Luks2/Disk/Parse.antt =====
-- lib/luks2/luks2_disk_metadata.c: the JSON area of a header copy.
use cryptsetup.Base.{ℕ, ◌-◌, ◌^◌, List, [], ◌∷◌, take, drop}
use cryptsetup.Base.{Bool, true, false, not, ◌&&◌, ◌==◌, ltb, leb, if◌then◌else◌}
use cryptsetup.Base.{Option, none, some}
use cryptsetup.Luks2.Disk.Env.{Env}

-- The loop of `validate_json_area` over the bytes behind the text.
unfoldable pub all_zero : List ℕ → Bool
all_zero [] = true
all_zero (b ∷ bs) = b == 0 && all_zero bs

abbrev pub starts_with_brace : List ℕ → Bool
starts_with_brace [] = false
starts_with_brace (b ∷ bs) = b == b'{'

-- `validate_json_area`: whether it returns 0.
unfoldable pub validate_json_area : List ℕ → ℕ → ℕ → Bool
unfolding all_zero
validate_json_area area json_len max_length =
    if not (starts_with_brace area)
    then false
    else if leb max_length json_len
    then false
    else all_zero (take (max_length - json_len) (drop json_len area))

module _ (env : Env) where
  -- `parse_json_len`
  unfoldable pub parse_json_len : List ℕ → ℕ → Option (env.Json × ℕ)
  parse_json_len area max_length = if ltb (2 ^ 31 - 1) max_length then none else env.parse area

  -- `validate_luks2_json_object`: the value, repaired if it had to be, if it returns 0.
  unfoldable pub validate_luks2_json_object : env.Json → ℕ → Option env.Json
  validate_luks2_json_object jobj len =
      if not (env.is_object jobj)
      then none
      else if env.is_valid jobj len
      then some jobj
      else if env.is_valid (env.repair jobj) len
      then some (env.repair jobj)
      else none

  -- `parse_and_validate_json`
  unfoldable pub parse_and_validate_json : List ℕ → ℕ → Option env.Json
  parse_and_validate_json area max_length = elim (parse_json_len area max_length) [
    | none ↦ none
    | some (jobj, json_len) ↦
        if validate_json_area area json_len max_length
        then validate_luks2_json_object jobj max_length
        else none
  ]
