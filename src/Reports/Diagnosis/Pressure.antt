-- ===== src/Reports/Diagnosis/Pressure.antt =====
-- The disk's pressure, as a report has it and as `disk_invariant` tests it.
use mathlib.Core.Option
use sourceos_syncd.Prelude.{
  String, Bool, true, false, not, ◌||◌, Option, none, some, [], ◌∷◌, ◌≡◌, refl, ap, ◌∙◌, sym, arith,
  string_eq,
}
use sourceos_syncd.Prelude.Dict
use sourceos_syncd.Json.{
  Json, null, bool, int, float, str, arr, obj, Object, get_json, is_text, as_object, sub_object,
  in_set,
}
use sourceos_syncd.NoiseBudget.{field_or}
use sourceos_syncd.Reports.Checks.{bind_elim, object_or_empty, sub_dict}
use sourceos_syncd.Reports.Verify.{
  fail, Severity, Evidence, Invariant, judged, disk_values, disk_invariant,
}
use sourceos_syncd.Reports.Diagnosis.{is_fail}

-- The disk's pressure in a report: a missing one reads as "unknown".
abbrev pub reported_pressure : Object → Json
reported_pressure r = elim (Dict.get "pressure" (sub_object "disk" (sub_object "resources" r))) [
  | none ↦ str "unknown"
  | some j ↦ j
]

abbrev pub is_grave_pressure : Json → Bool
is_grave_pressure p = is_text "critical" p || is_text "unknown" p

abbrev or_null : Option Json → Json
or_null none = null
or_null (some j) = j

abbrev or_nil : Option Object → Object
or_nil none = []
or_nil (some o) = o

sub_object-or_nil :
    (k : String) (r : Object) → sub_object k r ≡ or_nil (as_object (or_null (Dict.get k r)))
unfolding sub_object get_json
sub_object-or_nil k r = refl

read_object :
    (m : Option Json) (o : Object) → object_or_empty m ≡ some o → or_nil (as_object (or_null m)) ≡ o
unfolding as_object
read_object none o h = cc
read_object (some (obj fs)) o h = cc
read_object (some _) o h = cc

sub_dict-sub_object : (k : String) (r o : Object) → sub_dict k r ≡ some o → sub_object k r ≡ o
unfolding sub_dict
sub_dict-sub_object k r o h = sub_object-or_nil k r ∙ read_object (Dict.get k r) o h

abbrev pressure_read : Object → Json
pressure_read disk = elim (Dict.get "pressure" disk) [ none ↦ str "unknown" | some j ↦ j ]

disk_values-pressure :
    (m : Option Json) → (disk_values m).0 ≡ pressure_read (or_nil (as_object (or_null m)))
unfolding field_or as_object Dict.get
disk_values-pressure none = refl
disk_values-pressure (some (obj fs)) = refl
disk_values-pressure (some null) = refl
disk_values-pressure (some (bool _)) = refl
disk_values-pressure (some (int _)) = refl
disk_values-pressure (some (float _ _)) = refl
disk_values-pressure (some (str _)) = refl
disk_values-pressure (some (arr _)) = refl

in_set-grave :
    (p : Json) (bad : Bool)
    → in_set ("critical" ∷ "unknown" ∷ []) p ≡ some bad
    → bad ≡ is_grave_pressure p
unfolding in_set is_text
in_set-grave (str s) bad h = ground arith
in_set-grave (arr _) bad h = cc
in_set-grave (obj _) bad h = cc
in_set-grave _ bad h = cc

judged-fails :
    (id : String) (bad : Bool) (severity : Severity) (evidence : Evidence) (remediation : String)
    {i : Invariant}
    → some (judged id (not bad) fail severity evidence remediation) ≡ some i
    → is_fail i.status ≡ bad
unfolding judged
judged-fails id true severity evidence remediation h =
    ap (λ x. is_fail x.status) (sym (Option.some-injective _ _ h))
judged-fails id false severity evidence remediation h =
    ap (λ x. is_fail x.status) (sym (Option.some-injective _ _ h))

pub disk-failed :
    (r : Object) (i : Invariant)
    → disk_invariant r ≡ some i
    → is_fail i.status ≡ is_grave_pressure (reported_pressure r)
unfolding disk_invariant
disk-failed r i h = bind_elim h λ resources e h1. bind_elim h1 λ bad is_bad h2.
    judged-fails _ bad _ _ _ h2
    ∙ in_set-grave _ bad is_bad
    ∙ ap is_grave_pressure (
        disk_values-pressure (Dict.get "disk" resources)
        ∙ ap pressure_read (sym (sub_object-or_nil "disk" resources))
        ∙ ap (λ o. pressure_read (sub_object "disk" o)) (sym (sub_dict-sub_object _ _ _ e)))
