-- ===== src/Json.antt =====
-- json-c as lib/luks2 uses it: an interface, since the library is not part of the repository; and
-- the helpers of lib/luks2/luks2_json_metadata.c that stand directly on it.
pub mod Decimal
pub mod Laws
pub mod Number
pub mod Sample
use cryptsetup.Base.{
  ℕ, zero, suc, ◌+◌, ◌-◌, ◌*◌, ◌^◌, List, [], ◌∷◌, ◌++◌, Bool, true, false, not, ◌&&◌, ◌||◌, ◌==◌,
  leb, ltb, if◌then◌else◌,
}
use cryptsetup.Base.{Option, none, some}
use cryptsetup.Base.Strings.{same, codes}
use cryptsetup.Json.Decimal.{decimal, strtoull, is_digit, Scan}

-- The values of `json_type` that the code asks for.
pub data JsonType : Type 0 where
  object_type array_type string_type int_type : JsonType

-- A text is a list of bytes without the final zero. Where json-c changes a value in place, the
-- operation returns the changed value.
pub record JsonC : Type 1 where
  pub Json : Type 0
  pub is_type : Json → JsonType → Bool
  -- `json_object_object_foreach`: the members of an object in order, none of another value.
  pub members : Json → List (List ℕ × Json)
  -- `json_object_object_get_ex`
  pub get_ex : Json → List ℕ → Option Json
  -- `json_object_array_length` and `json_object_array_get_idx`
  pub elements : Json → List Json
  -- `json_object_get_string`
  pub get_string : Json → List ℕ
  -- `json_object_get_int64`; `none` is a negative number, or errno set.
  pub get_int64 : Json → Option ℕ
  -- `json_object_to_json_string_ext`, plain and without escaped slashes.
  pub print : Json → List ℕ
  pub new_string : List ℕ → Json
  pub new_int : ℕ → Json
  pub new_object : Json
  pub new_array : List Json → Json
  -- `json_object_object_add`, `json_object_object_del` and `json_object_array_add`
  pub object_add : Json → List ℕ → Json → Json
  pub object_del : Json → List ℕ → Json
  pub array_add : Json → Json → Json

-- `numbered`
unfoldable pub numbered : List ℕ → Bool
numbered [] = true
numbered (c ∷ key) = is_digit c && numbered key

module _ (j : JsonC) where
  -- `json_contains`
  unfoldable pub json_contains : j.Json → List ℕ → JsonType → Option j.Json
  json_contains jobj key type = elim (j.get_ex jobj key) [
    | none ↦ none
    | some sobj ↦ if j.is_type sobj type then some sobj else none
  ]

  -- `json_str_to_uint64`; `none` where it returns 0, and stores 0.
  unfoldable pub json_str_to_uint64 : j.Json → Option ℕ
  unfolding strtoull
  json_str_to_uint64 jobj =
      let r = strtoull (j.get_string jobj) in
      elim (r.rest) [ [] ↦ if r.range_error then none else some (r.value) | _ ∷ _ ↦ none ]

  -- `crypt_jobj_get_uint64`
  unfoldable pub get_uint64 : j.Json → ℕ
  unfolding json_str_to_uint64
  get_uint64 jobj = elim (json_str_to_uint64 jobj) [ none ↦ 0 | some n ↦ n ]

  -- `crypt_jobj_new_uint64`
  abbrev pub new_uint64 : ℕ → j.Json
  new_uint64 value = j.new_string (decimal value)

  -- `validate_json_uint32`
  abbrev pub validate_json_uint32 : j.Json → Bool
  validate_json_uint32 jobj = elim (j.get_int64 jobj) [ none ↦ false | some n ↦ ltb n (2 ^ 32) ]

  -- The loops of `LUKS2_array_jobj` and `LUKS2_array_remove` over the elements of the array.
  unfoldable pub find_string : List j.Json → List ℕ → Option j.Json
  unfolding same
  find_string [] num = none
  find_string (jobj ∷ jobjs) num =
      if same num (j.get_string jobj) then some jobj else find_string jobjs num

  -- `LUKS2_array_jobj`
  unfoldable pub array_jobj : j.Json → List ℕ → Option j.Json
  unfolding find_string
  array_jobj array num = find_string (j.elements array) num

  unfoldable pub drop_string : List j.Json → List ℕ → List j.Json
  unfolding same
  drop_string [] num = []
  drop_string (jobj ∷ jobjs) num =
      if same num (j.get_string jobj) then jobjs else jobj ∷ drop_string jobjs num

  -- `LUKS2_array_remove`; `none` if there is nothing to remove. C leaves out the object that
  -- `LUKS2_array_jobj` returns, the first with the text; objects in an array are distinct.
  unfoldable pub array_remove : j.Json → List ℕ → Option j.Json
  unfolding array_jobj drop_string
  array_remove array num = elim (array_jobj array num) [
    | none ↦ none
    | some _ ↦ some (j.new_array (drop_string (j.elements array) num))
  ]
