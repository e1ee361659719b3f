-- ===== src/Reports/Checks.antt =====
-- What the checks of reports.py share: complaints, chains that may raise, and the tests on values.
use Prim.Native.String.{compare}
use Prim.Native.Nat.{Ordering, ◌+◌, ◌/◌, ◌^◌}
use sourceos_syncd.Prelude.{
  ℕ, zero, suc, String, ◌<>◌, Bool, true, false, not, ◌||◌, Option, none, some, List, [], ◌∷◌, ◌++◌,
  ◌==◌, string_eq, if◌then◌else◌, ◌≡◌, refl, ap, ◌∙◌,
}
use sourceos_syncd.Prelude.Dict
use sourceos_syncd.Prelude.Signed.{ℤ, pos, negsuc, nonneg}
use sourceos_syncd.Json.{
  Json, bool, int, float, str, arr, obj, Object, items, entries, as_object, truthy,
}
use sourceos_syncd.Text.{ends_with}

-- `parses` says whether `datetime.fromisoformat` takes a text; `elapsed_ms g l` is
-- `max(0, int((g - l).total_seconds() * 1000))` of two such texts, with the present time if `g` is
-- `none`, and `none` is the `TypeError` of a naive and an aware time; `parse_int` is `int` on texts;
-- `sort_names` is `sorted(set(...))` on JSON values, `none` being its `TypeError`;
-- `text_of` is `str` of numbers and containers; `digest` is the hexadecimal SHA-256 of the canonical text.
pub record Library : Type 0 where
  pub parses : String → Bool
  pub elapsed_ms : Option String → String → Option ℕ
  pub parse_int : String → Option ℤ
  pub sort_names : List Json → Option (List Json)
  pub text_of : Json → String
  pub digest : Object → String

infixl 5 ◌>>=◌
unfoldable pub ◌>>=◌ {ℓ κ} : {A : Type ℓ} {B : Type κ} → Option A → (A → Option B) → Option B
none >>= f = none
some a >>= f = f a

-- What follows from the step of a chain and the rest of it, follows from the chain's result.
pub bind_elim {ℓ κ ι} :
    {A : Type ℓ} {B : Type κ} {P : Type ι} {o : Option A} {f : A → Option B} {b : B}
    → (o >>= f) ≡ some b
    → ((a : A) → o ≡ some a → f a ≡ some b → P)
    → P
unfolding ◌>>=◌
bind_elim {o = none} h k = cc
bind_elim {o = some a} h k = k a refl h

pub bind_some {ℓ κ} :
    {A : Type ℓ} {B : Type κ} {o : Option A} {a : A} {b : Option B} (f : A → Option B)
    → o ≡ some a
    → f a ≡ b
    → (o >>= f) ≡ b
unfolding ◌>>=◌
bind_some f h e = ap (λ x. x >>= f) h ∙ e

-- The part of the report, the place in it, and what is wrong.
pub data Complaint : Type 0 where
  about : String → String → Complaint
  at : String → ℕ → String → Complaint

abbrev pub Found : Type 0
Found = Option (List Complaint)

-- One check after the other.
infixr 20 ◌also◌
unfoldable pub ◌also◌ : Found → Found → Found
none also b = none
some xs also none = none
some xs also some ys = some (xs ++ ys)

-- Two checks find nothing exactly if neither does.
pub also-clean : {a b : Found} → a ≡ some [] → b ≡ some [] → (a also b) ≡ some []
unfolding ◌also◌
also-clean ha hb = rw (ha, hb) refl

pub also_split : {a b : Found} → (a also b) ≡ some [] → (a ≡ some []) × (b ≡ some [])
unfolding ◌also◌
also_split {a = none} h = cc
also_split {a = some xs} {b = none} h = cc
also_split {a = some []} {b = some ys} h = (refl, h)
also_split {a = some (x ∷ xs)} {b = some ys} h = cc

abbrev pub complain : Bool → Complaint → List Complaint
complain true c = c ∷ []
complain false c = []

-- `if b: errors.append(c)`
unfoldable pub flag : Bool → Complaint → Found
flag b c = some (complain b c)

-- `if x not in s: errors.append(c)`
unfoldable pub outside : Option Bool → Complaint → Found
outside none c = none
outside (some b) c = some (complain (not b) c)

-- The values that `isinstance(j, int)` accepts: Python's booleans are numbers.
unfoldable pub as_int : Json → Option ℤ
as_int (int z) = some z
as_int (bool true) = some (pos 1)
as_int (bool false) = some (pos 0)
as_int _ = none

abbrev pub nonneg_of : Option ℤ → Bool
nonneg_of none = false
nonneg_of (some z) = nonneg z

unfoldable pub is_nonnegative_int : Json → Bool
unfolding as_int
is_nonnegative_int j = nonneg_of (as_int j)

unfoldable pub is_arr : Json → Bool
is_arr (arr _) = true
is_arr _ = false

unfoldable pub is_obj : Json → Bool
is_obj (obj _) = true
is_obj _ = false

unfoldable pub is_bool : Json → Bool
is_bool (bool _) = true
is_bool _ = false

-- `[f"{prefix}.{key} is required" for key in required - set(value)]`, in the order of the literal.
unfoldable pub absent : (String → Complaint) → Object → List String → List Complaint
absent complaint r [] = []
absent complaint r (k ∷ ks) = complain (not (Dict.has k r)) (complaint k) ++ absent complaint r ks

-- Whether `required - set(value)` is not empty: its keys stand in one error.
unfoldable pub lacks : Object → List String → Bool
lacks r [] = false
lacks r (k ∷ ks) = not (Dict.has k r) || lacks r ks

-- `d.get(k, {})` where a method of a dict is called on the result.
abbrev pub object_or_empty : Option Json → Option Object
object_or_empty none = some []
object_or_empty (some j) = as_object j

unfoldable pub sub_dict : String → Object → Option Object
unfolding as_object Dict.get
sub_dict k r = object_or_empty (Dict.get k r)

-- What a loop over `r.get(k, [])` goes through: the elements of a list. A dict and a text give texts,
-- which the loops of this module pass over.
unfoldable pub looped : Option Json → Option (List Json)
unfolding items
looped none = some []
looped (some (arr xs)) = some (items xs)
looped (some (obj _)) = some []
looped (some (str _)) = some []
looped (some _) = none

abbrev pub dicts : List Json → List Object
dicts [] = []
dicts (obj fs ∷ js) = entries fs ∷ dicts js
dicts (_ ∷ js) = dicts js

-- `[x for x in r.get(k, []) if isinstance(x, dict)]`
unfoldable pub dicts_of : String → Object → Option (List Object)
unfolding looped Dict.get
dicts_of k r = looped (Dict.get k r) >>= λ js. some (dicts js)

abbrev pub drop_last : String → String
drop_last String.[] = ""
drop_last (String.◌∷◌ c String.[]) = ""
drop_last (String.◌∷◌ c (String.◌∷◌ d s)) = String.◌∷◌ c (drop_last (String.◌∷◌ d s))

-- The text that `fromisoformat` is given.
unfoldable pub iso_text : String → String
unfolding ends_with
iso_text s = if ends_with b'Z' s then drop_last s <> "+00:00" else s

-- `-n`
abbrev pub negated : ℕ → ℤ
negated zero = pos 0
negated (suc n) = negsuc n

module _ (lib : Library) where
  -- The parsed text, unless the function returns `None`.
  unfoldable pub parse_text : String → Option String
  unfolding iso_text
  parse_text s =
      if s == "" then none else if lib.parses (iso_text s) then some (iso_text s) else none

  unfoldable pub parse_instant : Json → Option (Option String)
  unfolding parse_text truthy
  parse_instant (str s) = some (parse_text s)
  parse_instant j = if truthy j then none else some none

  -- `int(j or 0)`
  unfoldable pub int_or_zero : Json → Option ℤ
  unfolding truthy
  int_or_zero (int z) = some z
  int_or_zero (bool true) = some (pos 1)
  int_or_zero (float (pos m) e) = some (pos (m / 10 ^ e))
  int_or_zero (float (negsuc m) e) = some (negated ((m + 1) / 10 ^ e))
  int_or_zero (str s) = if s == "" then some (pos 0) else lib.parse_int s
  int_or_zero j = if truthy j then none else some (pos 0)

-- `sorted(set(names))` for texts.
unfoldable pub insert_text : String → List String → List String
insert_text s [] = s ∷ []
insert_text s (t ∷ ts) = elim (compare s t) [
  | Ordering.lt ↦ s ∷ t ∷ ts
  | Ordering.eq ↦ t ∷ ts
  | Ordering.gt ↦ t ∷ insert_text s ts
]

unfoldable pub sorted_set : List String → List String
unfolding insert_text
sorted_set [] = []
sorted_set (s ∷ ss) = insert_text s (sorted_set ss)
