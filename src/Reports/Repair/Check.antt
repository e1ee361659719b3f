-- ===== src/Reports/Repair/Check.antt =====
-- `validate_repair_plan`.
use sourceos_syncd.Prelude.{
  ℕ, ◌+◌, String, Bool, true, false, not, ◌&&◌, ◌||◌, Option, none, some, List, [], ◌∷◌, string_eq,
  nat_beq,
}
use Prim.Native.Nat.{◌*◌, ◌^◌}
use sourceos_syncd.Prelude.Dict
use sourceos_syncd.Prelude.Signed.{pos}
use sourceos_syncd.Json.{
  Json, bool, int, float, arr, obj, cons, Object, items, entries, get_json, in_set, is_text, truthy,
}
use sourceos_syncd.Reports.Checks.{
  Library, Found, about, at, ◌also◌, flag, outside, absent, lacks, is_bool, parse_instant,
}
use sourceos_syncd.Reports.Shape.{repair_schema, required_repair_keys, repair_statuses, severities}
use sourceos_syncd.Reports.Sections.{no_instant}

-- `j == n` for a number `n`.
abbrev pub is_number : ℕ → Json → Bool
is_number n (int (pos m)) = nat_beq m n
is_number n (bool true) = nat_beq 1 n
is_number n (bool false) = nat_beq 0 n
is_number n (float (pos m) e) = nat_beq m (n * 10 ^ e)
is_number n _ = false

abbrev pub step_keys : List String
step_keys = "order" ∷ "id" ∷ "kind" ∷ "destructive" ∷ "description" ∷ "expected_result" ∷ []

-- A step that is no dict leaves the expected order as it is.
unfoldable pub check_steps : ℕ → ℕ → List Json → Found
unfolding flag absent get_json is_bool
check_steps index order [] = some []
check_steps index order (obj fs ∷ js) =
    let step = entries fs in
    some (absent (at "steps" index) step step_keys)
    also flag (not (is_number order (get_json "order" step))) (at "steps" index "order")
    also flag (not (is_bool (get_json "destructive" step))) (at "steps" index "destructive")
    also check_steps (index + 1) (order + 1) js
check_steps index order (_ ∷ js) =
    some (at "steps" index "must be an object" ∷ []) also check_steps (index + 1) order js

abbrev pub any_destructive : List Json → Bool
any_destructive [] = false
any_destructive (obj fs ∷ js) = truthy (get_json "destructive" (entries fs)) || any_destructive js
any_destructive (_ ∷ js) = any_destructive js

abbrev pub check_step_list : Json → Bool → Found
check_step_list (arr (cons j js)) preview =
    check_steps 0 1 (items (cons j js))
    also flag (preview && any_destructive (items (cons j js))) (about "steps" "mutate in a preview")
check_step_list _ preview = some (about "steps" "must be a non-empty list" ∷ [])

-- `plan.get("policy", {})`
abbrev pub check_plan_policy : Option Json → Found
check_plan_policy none = flag true (about "policy.destructive_actions_present" "must be boolean")
check_plan_policy (some (obj fs)) =
    flag (not (is_bool (get_json "destructive_actions_present" (entries fs))))
      (about "policy.destructive_actions_present" "must be boolean")
check_plan_policy (some _) = some (about "policy" "must be an object" ∷ [])

unfoldable pub validate_repair_plan : Library → Object → Found
unfolding flag outside lacks in_set parse_instant get_json is_text check_steps Dict.get is_bool
    entries items truthy
validate_repair_plan lib plan =
    flag (lacks plan required_repair_keys) (about "keys" "are missing")
    also flag (not (is_text repair_schema (get_json "schema" plan))) (about "schema" "unsupported")
    also no_instant (parse_instant lib (get_json "generated_at" plan))
        (about "generated_at" "must be an ISO-8601 timestamp")
    also outside (in_set repair_statuses (get_json "status" plan)) (about "status" "is invalid")
    also outside (in_set severities (get_json "severity" plan)) (about "severity" "is invalid")
    also check_plan_policy (Dict.get "policy" plan)
    also check_step_list (get_json "steps" plan) (is_text "preview" (get_json "status" plan))
