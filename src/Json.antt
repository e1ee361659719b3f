-- ===== src/Json.antt =====
-- The values that `json.loads` returns and that the Python code passes around as `Any`.
-- The texts that `str` and `json.dumps` give for numbers with a fraction and for containers, and
-- digests, are parameters where they are used.
use sourceos_syncd.Prelude.{
  ℕ, String, Bool, true, false, not, Option, none, some, List, [], ◌∷◌, ◌==◌, string_eq, contains,
  nat_beq, ◌≡◌, refl, arith, ◌⊎◌, ap,
}
use sourceos_syncd.Prelude.Dict
use sourceos_syncd.Prelude.Dict.{Dict}
use sourceos_syncd.Prelude.Signed.{ℤ, pos, negsuc}

-- `float m e` is the number m / 10 ^ e.
mutual
  pub data Json : Type 0 where
    null : Json
    bool : Bool → Json
    int : ℤ → Json
    float : ℤ → ℕ → Json
    str : String → Json
    arr : Items → Json
    obj : Fields → Json

  pub data Items : Type 0 where
    nil : Items
    cons : Json → Items → Items

  pub data Fields : Type 0 where
    end : Fields
    field : String → Json → Fields → Fields

-- A `dict[str, Any]`.
abbrev pub Object : Type 0
Object = Dict Json

unfoldable pub items : Items → List Json
items nil = []
items (cons x xs) = x ∷ items xs

unfoldable pub entries : Fields → Object
entries end = []
entries (field k v fs) = (k, v) ∷ entries fs

unfoldable pub fields : Object → Fields
fields [] = end
fields ((k, v) ∷ d) = field k v (fields d)

unfoldable pub is_zero : ℤ → Bool
is_zero (pos n) = nat_beq n 0
is_zero (negsuc n) = false

-- Python's truth value.
unfoldable pub truthy : Json → Bool
unfolding is_zero
truthy null = false
truthy (bool b) = b
truthy (int z) = not (is_zero z)
truthy (float m e) = not (is_zero m)
truthy (str s) = not (s == "")
truthy (arr nil) = false
truthy (arr (cons _ _)) = true
truthy (obj end) = false
truthy (obj (field _ _ _)) = true

-- `d.get(k)`: a missing key reads as `None`.
unfoldable pub get_json : String → Object → Json
unfolding Dict.get
get_json k d = elim (Dict.get k d) [ none ↦ null | some v ↦ v ]

-- `isinstance(j, dict)`, with the dict.
unfoldable pub as_object : Json → Option Object
unfolding entries
as_object (obj fs) = some (entries fs)
as_object _ = none

-- `isinstance(j, list)`, with the elements.
unfoldable pub as_list : Json → Option (List Json)
unfolding items
as_list (arr xs) = some (items xs)
as_list _ = none

-- `isinstance(j, str)`, with the text.
unfoldable pub as_text : Json → Option String
as_text (str s) = some s
as_text _ = none

-- `j == s` for a text `s`.
unfoldable pub is_text : String → Json → Bool
is_text s (str t) = t == s
is_text s _ = false

-- `j is True`
unfoldable pub is_true : Json → Bool
is_true (bool b) = b
is_true _ = false

-- `j is False`
unfoldable pub is_false : Json → Bool
is_false (bool b) = not b
is_false _ = false

-- `x.get(k) if isinstance(x.get(k), dict) else {}`
unfoldable pub sub_object : String → Object → Object
unfolding get_json as_object
sub_object k d = elim (as_object (get_json k d)) [ none ↦ [] | some o ↦ o ]

-- `j in s` for a set of texts; `none` is the error.
unfoldable pub in_set : List String → Json → Option Bool
in_set set (str s) = some (contains set s)
in_set set (arr _) = none
in_set set (obj _) = none
in_set set _ = some false

pub get_json-nil : (k : String) → get_json k [] ≡ null
unfolding get_json Dict.get
get_json-nil k = refl

-- The first member is the one that is read, or another is.
pub get_json-cons :
    (k i : String) (j : Json) (d : Object)
    → ((k ≡ i) × (get_json k ((i, j) ∷ d) ≡ j)) ⊎ (get_json k ((i, j) ∷ d) ≡ get_json k d)
unfolding get_json Dict.get
get_json-cons k i j d = ground arith

pub entries-fields : (d : Object) → entries (fields d) ≡ d
unfolding entries fields
entries-fields [] = refl
entries-fields ((k, j) ∷ d) = ap (λ e. (k, j) ∷ e) (entries-fields d)
