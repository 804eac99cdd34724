-- ===== src/Luks2/Requirements.antt =====
-- lib/luks2/luks2_json_metadata.c: the requirements in the configuration. A flag is a power of two,
-- so `reqs & flag` is a digit of `reqs`.
pub mod RoundTrip
mod Tests
use cryptsetup.Base.{
  ℕ, ◌+◌, ◌-◌, ◌/◌, ◌%◌, ◌^◌, List, [], ◌∷◌, length, Bool, true, false, not, ◌==◌, if◌then◌else◌,
  Option, none, some, Result, ok, err, ◌>>=◌, einval,
}
use cryptsetup.Base.Strings.{same, codes}
use cryptsetup.Json.{JsonC}
use cryptsetup.Luks2.Validate.Fields.{◌>>?◌}
use cryptsetup.Luks2.Validate.Keyslots.{value_or}

abbrev pub requirements_flags : List (ℕ × List ℕ)
requirements_flags = (1, codes "offline-reencrypt") ∷ ((2, codes "online-reencrypt") ∷ [])

abbrev pub requirement_unknown : ℕ
requirement_unknown = 2 ^ 31

abbrev pub has_flag : ℕ → ℕ → Bool
has_flag reqs flag = reqs / flag % 2 == 1

unfoldable pub name_flag : List (ℕ × List ℕ) → List ℕ → ℕ
unfolding same
name_flag [] requirement = requirement_unknown
name_flag (f ∷ fs) requirement = if same requirement (f.1) then f.0 else name_flag fs requirement

-- `get_requirement_by_name`
abbrev pub get_requirement_by_name : List ℕ → ℕ
get_requirement_by_name requirement = name_flag requirements_flags requirement

module _ (j : JsonC) where
  -- The loop of `LUKS2_config_get_requirements`.
  unfoldable pub read_mandatory : List j.Json → ℕ → ℕ
  unfolding name_flag
  read_mandatory [] reqs = reqs
  read_mandatory (x ∷ xs) reqs =
      let req = get_requirement_by_name (j.get_string x) in
      read_mandatory xs (if has_flag reqs req then reqs else reqs + req)

  -- `LUKS2_config_get_requirements`, which always succeeds.
  unfoldable pub config_get_requirements : j.Json → ℕ
  unfolding read_mandatory
  config_get_requirements hdr =
      elim (j.get_ex hdr (codes "config") >>? λ config.
      j.get_ex config (codes "requirements") >>? λ requirements.
      j.get_ex requirements (codes "mandatory")) [
        | none ↦ 0
        | some mandatory ↦ read_mandatory (j.elements mandatory) 0
      ]

  -- The loop of `LUKS2_config_set_requirements`: the array of names, and the flags that are left.
  unfoldable pub take_flags : List (ℕ × List ℕ) → j.Json → ℕ → j.Json × ℕ
  take_flags [] mandatory reqs = (mandatory, reqs)
  take_flags (f ∷ fs) mandatory reqs =
      let hit = has_flag reqs (f.0) in
      take_flags fs (if hit then j.array_add mandatory (j.new_string (f.1)) else mandatory)
        (if hit then reqs - f.0 else reqs)

  abbrev pub put_mandatory : j.Json → j.Json → j.Json
  put_mandatory requirements mandatory =
      if length (j.elements mandatory) == 0
      then j.object_del requirements (codes "mandatory")
      else j.object_add requirements (codes "mandatory") mandatory

  -- An empty object of requirements is removed.
  abbrev pub put_requirements : j.Json → j.Json → j.Json
  put_requirements config requirements =
      if length (j.members requirements) == 0
      then j.object_del config (codes "requirements")
      else j.object_add config (codes "requirements") requirements

  -- `LUKS2_config_set_requirements`, without writing the header; memory does not run out.
  unfoldable pub config_set_requirements : j.Json → ℕ → Result j.Json
  unfolding take_flags
  config_set_requirements hdr reqs =
      let (mandatory, left) = take_flags requirements_flags (j.new_array []) reqs in
      if not (left == 0)
      then err einval
      else (value_or (j.get_ex hdr (codes "config")) einval >>= λ config.
          let requirements : j.Json = elim (j.get_ex config (codes "requirements")) [
            | none ↦ j.new_object
            | some o ↦ o
          ] in
          ok (
            j.object_add hdr (codes "config")
              (put_requirements config (put_mandatory requirements mandatory))))
