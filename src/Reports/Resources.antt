-- ===== src/Reports/Resources.antt =====
-- The checks of the resources, of the policy and of the invariants of a report.
use Prim.Native.Nat.{◌^◌}
use sourceos_syncd.Prelude.{
  ℕ, ◌+◌, Bool, true, false, not, ◌&&◌, Option, none, some, List, [], ◌∷◌, string_eq, leb,
}
use sourceos_syncd.Prelude.Dict
use sourceos_syncd.Prelude.Signed.{ℤ, pos, leb_ℤ}
use sourceos_syncd.Json.{Json, bool, int, float, obj, Object, entries, get_json, in_set}
use sourceos_syncd.Reports.Checks.{
  Found, about, at, ◌also◌, flag, outside, as_int, is_nonnegative_int, is_obj, absent,
}
use sourceos_syncd.Reports.Shape.{
  required_invariant_keys, pressure_states, invariant_statuses, severities,
}
use sourceos_syncd.Reports.Sections.{check_numbers}

-- `isinstance(free, int) and isinstance(total, int) and total > 0 and free > total`
abbrev pub exceeds : Option ℤ → Option ℤ → Bool
exceeds (some free) (some total) = not (leb_ℤ total (pos 0)) && not (leb_ℤ free total)
exceeds _ _ = false

abbrev pub positive_of : Option ℤ → Bool
positive_of none = false
positive_of (some z) = not (leb_ℤ z (pos 0))

-- A number from 0 to 1.
unfoldable pub is_ratio : Json → Bool
is_ratio (int (pos n)) = leb n 1
is_ratio (bool b) = true
is_ratio (float (pos m) e) = leb m (10 ^ e)
is_ratio _ = false

unfoldable pub check_disk_fields : Object → Found
unfolding flag outside in_set is_nonnegative_int as_int is_ratio get_json
check_disk_fields disk =
    flag (not (is_nonnegative_int (get_json "free_bytes" disk)))
      (about "resources.disk" "free_bytes")
    also flag (not (positive_of (as_int (get_json "total_bytes" disk))))
        (about "resources.disk" "total_bytes")
    also flag (exceeds (as_int (get_json "free_bytes" disk)) (as_int (get_json "total_bytes" disk)))
        (about "resources.disk" "free_bytes cannot exceed total_bytes")
    also flag (not (is_ratio (get_json "free_ratio" disk))) (about "resources.disk" "free_ratio")
    also outside (in_set pressure_states (get_json "pressure" disk))
        (about "resources.disk" "pressure")

abbrev pub check_disk : Option Json → Found
check_disk none = check_disk_fields []
check_disk (some (obj fs)) = check_disk_fields (entries fs)
check_disk (some _) = some (about "resources.disk" "must be an object" ∷ [])

-- `resources.get("disk", {}) if isinstance(resources, dict) else {}`
unfoldable pub check_resources : Json → Found
unfolding check_disk_fields Dict.get
check_resources (obj fs) = check_disk (Dict.get "disk" (entries fs))
check_resources _ = check_disk_fields []

abbrev pub check_decisions : Json → Found
check_decisions (obj fs) = some (check_numbers (about "policy.policy_decisions") (entries fs))
check_decisions _ = some (about "policy.policy_decisions" "must be an object" ∷ [])

unfoldable pub check_policy : Json → Found
unfolding check_numbers get_json
check_policy (obj fs) = check_decisions (get_json "policy_decisions" (entries fs))
check_policy _ = some (about "policy" "must be an object" ∷ [])

unfoldable pub check_invariant : ℕ → Json → Found
unfolding flag outside absent in_set is_obj get_json
check_invariant index (obj fs) =
    let invariant = entries fs in
    some (absent (at "invariants" index) invariant required_invariant_keys)
    also outside (in_set invariant_statuses (get_json "status" invariant))
        (at "invariants" index "status")
    also outside (in_set severities (get_json "severity" invariant))
        (at "invariants" index "severity")
    also flag (not (is_obj (get_json "evidence" invariant))) (at "invariants" index "evidence")
check_invariant index _ = some (at "invariants" index "must be an object" ∷ [])

unfoldable pub check_invariants_from : ℕ → List Json → Found
unfolding check_invariant
check_invariants_from index [] = some []
check_invariants_from index (j ∷ js) =
    check_invariant index j also check_invariants_from (index + 1) js
