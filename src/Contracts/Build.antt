-- ===== src/Contracts/Build.antt =====
-- `from_dict` and `to_dict`. An instance is the dictionary of its fields; the order of the keys that
-- `to_dict` gives is not the source's.
use mathlib.Core.Path.{subst}
use sourceos_syncd.Prelude.{
  String, ◌≡◌, refl, sym, ◌∙◌, ap, Bool, true, false, ◌&&◌, ◌||◌, ◌⊎◌, Option, none, some, List, [],
  ◌∷◌, ◌++◌, ◌==◌, string_eq, contains, all_of, All, Option-cases, inl, inr, arith, if◌then◌else◌,
}
use sourceos_syncd.Prelude.Dict
use sourceos_syncd.Json.{Json, str, Object}
use sourceos_syncd.Contracts.{Contract, Refusal, validate_dict, contract_types, contract_in}
use sourceos_syncd.Contracts.Sound.{validate_dict-none_iff}

-- The key of a record that feeds a field.
unfoldable pub record_key : Contract → String → String
record_key c f = if c.renames && f == "required_field_names" then "required_fields" else f

-- The instance that the class makes of the keys; `none` is the `TypeError` of a missing argument.
unfoldable pub take_fields : Contract → List String → Object → Option Object
unfolding record_key Dict.get
take_fields c [] r = some []
take_fields c (f ∷ fs) r = elim (Dict.get (record_key c f) r) [
  | none ↦ none
  | some j ↦ elim (take_fields c fs r) [ none ↦ none | some rest ↦ some ((f, j) ∷ rest) ]
]

unfoldable pub take_optional : Object → Object → Object
unfolding Dict.get
take_optional [] r = []
take_optional ((f, default) ∷ fs) r =
    (f, elim (Dict.get f r) [ none ↦ default | some j ↦ j ]) ∷ take_optional fs r

unfoldable pub instance_of : Contract → Object → Option Object
unfolding take_fields take_optional
instance_of c r = elim (take_fields c c.fields r) [
  | none ↦ none
  | some inst ↦ some (inst ++ take_optional c.optional_fields r)
]

pub data Built : Type 0 where
  built : Object → Built
  refused : Refusal → Built
  type_error : Built

unfoldable pub from_dict : (Json → String) → Contract → Object → Built
unfolding validate_dict instance_of
from_dict text_of c r = elim (validate_dict text_of c r) [
  | some e ↦ refused e
  | none ↦ elim (instance_of c r) [ none ↦ type_error | some inst ↦ built inst ]
]

unfoldable pub rename_keys : Contract → Object → Object
unfolding record_key
rename_keys c [] = []
rename_keys c ((f, j) ∷ inst) = (record_key c f, j) ∷ rename_keys c inst

-- `data.setdefault("schema", ...)`: no class has a field of that name.
unfoldable pub to_dict : Contract → Object → Object
unfolding rename_keys
to_dict c inst = rename_keys c inst ++ (("schema", str c.schema) ∷ [])

-- Each field without a default is fed by a required key.
abbrev pub is_covered : Contract → Bool
is_covered c = all_of (λ f. contains c.required_fields (record_key c f)) c.fields

contract_types-covered : All (λ c. is_covered c ≡ true) contract_types
unfolding record_key string_eq
contract_types-covered = (
  refl,
  (refl, (refl, (refl, (refl, (refl, (refl, (refl, (refl, (refl, (refl, (refl, tt))))))))))),
)

and_split : (a b : Bool) → (a && b) ≡ true → (a ≡ true) × (b ≡ true)
and_split true b h = (refl, h)
and_split false b h = cc

or_split : (a b : Bool) → (a || b) ≡ true → (a ≡ true) ⊎ (b ≡ true)
or_split true b h = inl refl
or_split false b h = inr h

test_eq : (s t : String) → (s == t) ≡ true → s ≡ t
test_eq s t h = ground arith

pick :
    (b : Bool) (d c : Contract) (o : Option Contract)
    → (if b then some d else o) ≡ some c
    → ((b ≡ true) × (d ≡ c)) ⊎ (o ≡ some c)
pick true d c o h = inl (refl, cc)
pick false d c o h = inr h

contract_in-All :
    (P : Contract → Type 0) (cs : List Contract) (schema : String) (c : Contract)
    → All P cs
    → contract_in cs schema ≡ some c
    → P c × (schema ≡ c.schema)
unfolding contract_in
contract_in-All P [] schema c h e = cc
contract_in-All P (d ∷ cs) schema c (h, hs) e =
    elim (pick (schema == d.schema) d c (contract_in cs schema) e) [
      | inl (same, found) ↦
          (subst P found h, test_eq schema d.schema same ∙ ap (λ x. x.schema) found)
      | inr later ↦ contract_in-All P cs schema c hs later
    ]

pub contains-All :
    (P : String → Type 0) (xs : List String) (x : String) → All P xs → contains xs x ≡ true → P x
contains-All P [] x h e = cc
contains-All P (y ∷ ys) x (h, hs) e = elim (or_split (x == y) (contains ys x) e) [
  | inl same ↦ subst P (sym (test_eq x y same)) h
  | inr later ↦ contains-All P ys x hs later
]

module _ (c : Contract) (r : Object) where
  has-get : (k : String) → Dict.has k r ≡ true → (j : Json) × (Dict.get k r ≡ some j)
  unfolding Dict.has
  has-get k h = elim (Option-cases (Dict.get k r)) [
    | inl e ↦ let missing : Dict.has k r ≡ false = rw (Dict.has, e) refl in cc
    | inr found ↦ found
  ]

  take_fields-some :
      (fs : List String)
      → all_of (λ f. contains c.required_fields (record_key c f)) fs ≡ true
      → All (λ f. Dict.has f r ≡ true) c.required_fields
      → (inst : Object) × (take_fields c fs r ≡ some inst)
  unfolding take_fields
  take_fields-some [] covered present = ([], refl)
  take_fields-some (f ∷ fs) covered present =
      let (a, b) =
        and_split (contains c.required_fields (record_key c f))
          (all_of (λ g. contains c.required_fields (record_key c g)) fs) covered in
      let (j, found) =
        has-get (record_key c f)
          (contains-All (λ k. Dict.has k r ≡ true) c.required_fields (record_key c f) present a) in
      let (rest, e) = take_fields-some fs b present in
      ((f, j) ∷ rest, rw (take_fields, found) (rw e refl))

  instance_of-some :
      is_covered c ≡ true
      → All (λ f. Dict.has f r ≡ true) c.required_fields
      → (inst : Object) × (instance_of c r ≡ some inst)
  unfolding instance_of
  instance_of-some covered present =
      let (inst, e) = take_fields-some c.fields covered present in
      (inst ++ take_optional c.optional_fields r, rw (instance_of, e) refl)

-- A record that its class accepts is made into an instance: no field is ever without a value, in
-- every class of the table.
pub from_dict-built :
    (text_of : Json → String) (schema : String) (c : Contract) (r : Object)
    → contract_in contract_types schema ≡ some c
    → validate_dict text_of c r ≡ none
    → (inst : Object) × (from_dict text_of c r ≡ built inst)
unfolding from_dict
from_dict-built text_of schema c r known accepted =
    let covered =
      (contract_in-All (λ d. is_covered d ≡ true) contract_types schema c contract_types-covered
        known).0 in
    let (sound, _) = (validate_dict-none_iff r text_of c).0 accepted in
    let (inst, e) = instance_of-some c r covered sound.present in
    (inst, rw (from_dict, accepted) (rw e refl))
