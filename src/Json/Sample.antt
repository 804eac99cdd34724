-- ===== src/Json/Sample.antt =====
-- A small JSON library that meets the interface, on which the tests run.
use cryptsetup.Base.{
  ℕ, List, [], ◌∷◌, ◌++◌, Bool, true, false, if◌then◌else◌, Option, none, some, ◌≡◌, refl, ap,
  Bool-cases, inl, inr,
}
use cryptsetup.Base.Strings.{same, same_refl}
use cryptsetup.Json.{JsonC, JsonType, object_type, array_type, string_type, int_type}
use cryptsetup.Json.Laws.{IsJsonC, find_member}

-- An object or array is a chain of members or elements.
pub data Value : Type 0 where
  string : List ℕ → Value
  int : ℕ → Value
  empty_object empty_array : Value
  member : List ℕ → Value → Value → Value
  element : Value → Value → Value

abbrev is_value : Value → JsonType → Bool
is_value (string s) string_type = true
is_value (int n) int_type = true
is_value empty_object object_type = true
is_value empty_array array_type = true
is_value (member k v rest) object_type = true
is_value (element x rest) array_type = true
is_value v t = false

abbrev members_of : Value → List (List ℕ × Value)
members_of (member k v rest) = (k, v) ∷ members_of rest
members_of v = []

abbrev elements_of : Value → List Value
elements_of (element x rest) = x ∷ elements_of rest
elements_of v = []

abbrev text_of : Value → List ℕ
text_of (string s) = s
text_of v = []

abbrev array_of : List Value → Value
array_of [] = empty_array
array_of (x ∷ xs) = element x (array_of xs)

abbrev pub append_element : Value → Value → Value
append_element (element x rest) v = element x (append_element rest v)
append_element a v = element v empty_array

abbrev pub add_member : Value → List ℕ → Value → Value
add_member (member k v rest) key x =
    if same k key then member k x rest else member k v (add_member rest key x)
add_member o key x = member key x empty_object

abbrev del_member : Value → List ℕ → Value
del_member (member k v rest) key =
    if same k key then del_member rest key else member k v (del_member rest key)
del_member o key = o

abbrev number_of : Value → Option ℕ
number_of (int n) = some n
number_of v = none

abbrev pub sample_json : JsonC
sample_json = record {
  Json = Value;
  is_type = is_value;
  members = members_of;
  get_ex = λ o key. find_member (members_of o) key;
  elements = elements_of;
  get_string = text_of;
  get_int64 = number_of;
  print = text_of;
  new_string = string;
  new_int = int;
  new_object = empty_object;
  new_array = array_of;
  object_add = add_member;
  object_del = del_member;
  array_add = append_element;
}

elements_of-array_of : (xs : List Value) → elements_of (array_of xs) ≡ xs
elements_of-array_of [] = refl
elements_of-array_of (x ∷ xs) = ap (λ t. x ∷ t) (elements_of-array_of xs)

elements_of-append_element :
    (a x : Value) → elements_of (append_element a x) ≡ elements_of a ++ (x ∷ [])
elements_of-append_element (element y rest) x = ap (λ t. y ∷ t) (elements_of-append_element rest x)
elements_of-append_element (string s) x = refl
elements_of-append_element (int n) x = refl
elements_of-append_element empty_object x = refl
elements_of-append_element empty_array x = refl
elements_of-append_element (member k v rest) x = refl

find_member-add_member :
    (o x : Value) (key : List ℕ) → find_member (members_of (add_member o key x)) key ≡ some x
unfolding find_member
find_member-add_member (member k v rest) x key = elim (Bool-cases (same k key)) [
  | inl here ↦ rw (here, here) refl
  | inr there ↦ rw (there, there) (find_member-add_member rest x key)
]
find_member-add_member (string s) x key = rw (same_refl key) refl
find_member-add_member (int n) x key = rw (same_refl key) refl
find_member-add_member empty_object x key = rw (same_refl key) refl
find_member-add_member empty_array x key = rw (same_refl key) refl
find_member-add_member (element y rest) x key = rw (same_refl key) refl

find_member-del_member :
    (o : Value) (key : List ℕ) → find_member (members_of (del_member o key)) key ≡ none
unfolding find_member
find_member-del_member (member k v rest) key = elim (Bool-cases (same k key)) [
  | inl here ↦ rw here (find_member-del_member rest key)
  | inr there ↦ rw (there, there) (find_member-del_member rest key)
]
find_member-del_member (string s) key = refl
find_member-del_member (int n) key = refl
find_member-del_member empty_object key = refl
find_member-del_member empty_array key = refl
find_member-del_member (element y rest) key = refl

pub sample_json-IsJsonC : IsJsonC sample_json
sample_json-IsJsonC = record {
  string_new = λ s. refl;
  elements_new = elements_of-array_of;
  elements_add = elements_of-append_element;
  get_members = λ o key. refl;
  get_add = find_member-add_member;
  get_del = find_member-del_member;
}
