-- ===== src/Json/Laws.antt =====
-- What the code relies on of json-c.
use cryptsetup.Base.{ℕ, List, [], ◌∷◌, ◌++◌, Option, none, some, ◌≡◌, if◌then◌else◌}
use cryptsetup.Base.Strings.{same}
use cryptsetup.Json.{JsonC}

-- The member with a key.
unfoldable pub find_member : {A : Type 0} → List (List ℕ × A) → List ℕ → Option A
find_member [] key = none
find_member (m ∷ ms) key = if same (m.0) key then some (m.1) else find_member ms key

-- New values hold what they are made of, and looking up a key finds the member with that key.
pub record IsJsonC (j : JsonC) : Type 0 where
  pub string_new : (s : List ℕ) → j.get_string (j.new_string s) ≡ s
  pub elements_new : (xs : List j.Json) → j.elements (j.new_array xs) ≡ xs
  pub elements_add : (a x : j.Json) → j.elements (j.array_add a x) ≡ j.elements a ++ (x ∷ [])
  pub get_members : (o : j.Json) (key : List ℕ) → j.get_ex o key ≡ find_member (j.members o) key
  pub get_add : (o x : j.Json) (key : List ℕ) → j.get_ex (j.object_add o key x) key ≡ some x
  pub get_del : (o : j.Json) (key : List ℕ) → j.get_ex (j.object_del o key) key ≡ none
