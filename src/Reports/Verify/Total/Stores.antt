-- ===== src/Reports/Verify/Total/Stores.antt =====
-- What the checks of the stores and of the disk establish.
use mathlib.Core.Option
use sourceos_syncd.Prelude.{
  ℕ, String, string_eq, contains, Bool, true, false, not, Option, none, some, List, [], ◌∷◌, ◌≡◌,
  refl, ap, ◌∙◌, sym, arith, All, if◌then◌else◌,
}
use sourceos_syncd.Prelude.Dict
use sourceos_syncd.Json.{
  Json, null, bool, int, float, str, arr, obj, Object, entries, get_json, get_json-nil, in_set,
  as_object,
}
use sourceos_syncd.NoiseBudget.{field_or}
use sourceos_syncd.Reports.Checks.{◌>>=◌, also_split, bind_some, object_or_empty, dicts}
use sourceos_syncd.Reports.Shape.{checksum_states, pressure_states}
use sourceos_syncd.Reports.Sections.{check_store, check_stores}
use sourceos_syncd.Reports.Resources.{check_disk_fields, check_disk, check_resources}
use sourceos_syncd.Reports.Verify.{is_unverified, shadow_failures, disk_values}
use sourceos_syncd.Reports.Verify.Total.Lanes.{in_set-text}

pub in_set-of :
    (set : List String) {j : Json} {t : String} → j ≡ str t → in_set set j ≡ some (contains set t)
unfolding in_set
in_set-of set e = ap (in_set set) e

maybe_tested :
    (c : Bool) (o : Option Bool) {b : Bool}
    → o ≡ some b
    → (a : Bool) × ((if c then o >>= (λ x. some (not x)) else some false) ≡ some a)
maybe_tested true o {b = b} h = (not b, bind_some _ h refl)
maybe_tested false o h = (false, refl)

abbrev pub StoreReads : Object → Type 0
StoreReads store = (b : Bool) × (is_unverified store ≡ some b)

store-Reads :
    (index : ℕ) (seen : List String) (store : Object)
    → check_store index seen store ≡ some []
    → StoreReads store
unfolding check_store is_unverified
store-Reads index seen store h =
    let (_, h1) = also_split h in
    let (_, h2) = also_split h1 in
    let (_, h3) = also_split h2 in
    let (_, h4) = also_split h3 in
    let (checksum, _) = also_split h4 in
    let (t, e) = in_set-text checksum_states (get_json "checksum_state" store) _ checksum in
    maybe_tested _ _ (in_set-of ("verified" ∷ "unsupported" ∷ []) e)

pub stores-Read :
    (js : List Json) (index : ℕ) (seen : List String)
    → check_stores index seen js ≡ some []
    → All StoreReads (dicts js)
unfolding check_stores
stores-Read [] index seen h = tt
stores-Read (obj fs ∷ js) index seen h =
    let (first, rest) = also_split h in
    (store-Reads index seen (entries fs) first, stores-Read js _ _ rest)
stores-Read (null ∷ js) index seen h = stores-Read js _ _ (also_split h).1
stores-Read (bool b ∷ js) index seen h = stores-Read js _ _ (also_split h).1
stores-Read (int z ∷ js) index seen h = stores-Read js _ _ (also_split h).1
stores-Read (float m e ∷ js) index seen h = stores-Read js _ _ (also_split h).1
stores-Read (str s ∷ js) index seen h = stores-Read js _ _ (also_split h).1
stores-Read (arr xs ∷ js) index seen h = stores-Read js _ _ (also_split h).1

pub shadow_failures-total :
    (stores : List Object)
    → All StoreReads stores
    → (names : List Json) × (shadow_failures stores ≡ some names)
unfolding shadow_failures
shadow_failures-total [] _ = ([], refl)
shadow_failures-total (store ∷ stores) ((b, is_b), hs) =
    let (names, is_names) = shadow_failures-total stores hs in
    (_, bind_some _ is_b (bind_some _ is_names refl))

-- The disk is a dict whose pressure is a text.
abbrev pub DiskReads : Option Json → Type 0
DiskReads o =
    (d : Object) × (object_or_empty o ≡ some d) × ((t : String) × (get_json "pressure" d ≡ str t))

disk_fields-pressure :
    (d : Object) → check_disk_fields d ≡ some [] → (t : String) × (get_json "pressure" d ≡ str t)
unfolding check_disk_fields
disk_fields-pressure d h =
    let (_, h1) = also_split h in
    let (_, h2) = also_split h1 in
    let (_, h3) = also_split h2 in
    let (_, pressure) = also_split h3 in
    in_set-text pressure_states (get_json "pressure" d) _ pressure

disk-Reads : (o : Option Json) → check_disk o ≡ some [] → DiskReads o
unfolding as_object
disk-Reads none h = ([], refl, disk_fields-pressure [] h)
disk-Reads (some (obj fs)) h = (entries fs, refl, disk_fields-pressure (entries fs) h)
disk-Reads (some null) h = cc
disk-Reads (some (bool b)) h = cc
disk-Reads (some (int z)) h = cc
disk-Reads (some (float m e)) h = cc
disk-Reads (some (str s)) h = cc
disk-Reads (some (arr xs)) h = cc

no_fields : {P : Type 0} → check_disk_fields [] ≡ some [] → P
no_fields h = let (t, e) = disk_fields-pressure [] h in cc (sym (get_json-nil "pressure") ∙ e)

pub resources-Read :
    (o : Option Json)
    → check_resources (elim o [ none ↦ null | some v ↦ v ]) ≡ some []
    → (resources : Object) × (object_or_empty o ≡ some resources)
      × DiskReads (Dict.get "disk" resources)
unfolding check_resources as_object
resources-Read none h = no_fields h
resources-Read (some (obj fs)) h = (entries fs, refl, disk-Reads (Dict.get "disk" (entries fs)) h)
resources-Read (some null) h = no_fields h
resources-Read (some (bool b)) h = no_fields h
resources-Read (some (int z)) h = no_fields h
resources-Read (some (float m e)) h = no_fields h
resources-Read (some (str s)) h = no_fields h
resources-Read (some (arr xs)) h = no_fields h

field_or-text :
    (k : String) (default : Json) (d : Object) (t : String)
    → get_json k d ≡ str t
    → field_or k default d ≡ str t
unfolding field_or get_json
field_or-text k default d t h = ground arith

-- The pressure that the invariant reads is a text too.
pub disk_values-text : (o : Option Json) → DiskReads o → (t : String) × ((disk_values o).0 ≡ str t)
unfolding as_object
disk_values-text none _ = ("unknown", refl)
disk_values-text (some (obj fs)) (d, is_d, (t, e)) = (
  t,
  field_or-text "pressure" (str "unknown") (entries fs) t (rw (Option.some-injective _ _ is_d) e),
)
disk_values-text (some null) _ = ("unknown", refl)
disk_values-text (some (bool b)) _ = ("unknown", refl)
disk_values-text (some (int z)) _ = ("unknown", refl)
disk_values-text (some (float m e)) _ = ("unknown", refl)
disk_values-text (some (str s)) _ = ("unknown", refl)
disk_values-text (some (arr xs)) _ = ("unknown", refl)
