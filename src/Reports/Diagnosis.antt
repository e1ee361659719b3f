-- ===== src/Reports/Diagnosis.antt =====
-- `diagnose`, `controls_for` and `with_fresh_diagnosis`.
pub mod Pressure
pub mod Soundness
use sourceos_syncd.Prelude.{
  String, Bool, true, false, not, ◌&&◌, ◌||◌, Option, none, some, List, [], ◌∷◌, ◌++◌, ◌==◌,
  string_eq, contains, if◌then◌else◌, any_of,
}
use sourceos_syncd.Prelude.Dict
use sourceos_syncd.Prelude.Signed.{ℤ, leb_ℤ}
use sourceos_syncd.Json.{Json, null, str, Object, get_json, in_set, is_text}
use sourceos_syncd.NoiseBudget.{field_or}
use sourceos_syncd.Reports.Checks.{Library, ◌>>=◌, sub_dict, dicts_of, complain, sorted_set}
use sourceos_syncd.Reports.Shape.{has_infix}
use sourceos_syncd.Reports.Verify.{
  Status, pass, warn, fail, Severity, info, warning, error, critical, Invariant, Verification,
  lag_of, allowed_lag_of, verify,
}

pub data Health : Type 0 where
  healthy degraded unsafe : Health

abbrev pub is_healthy : Health → Bool
is_healthy healthy = true
is_healthy degraded = false
is_healthy unsafe = false

abbrev pub is_unsafe : Health → Bool
is_unsafe unsafe = true
is_unsafe healthy = false
is_unsafe degraded = false

pub record Diagnosis : Type 0 where
  pub status : Health
  pub severity : Severity
  pub causes : List String
  pub affected_lanes : List Json
  pub safe_actions : List String
  pub blocked_actions : List String

abbrev pub is_pass : Status → Bool
is_pass pass = true
is_pass warn = false
is_pass fail = false

abbrev pub is_fail : Status → Bool
is_fail fail = true
is_fail pass = false
is_fail warn = false

abbrev pub is_warn : Status → Bool
is_warn warn = true
is_warn pass = false
is_warn fail = false

abbrev pub is_grave : Severity → Bool
is_grave critical = true
is_grave info = false
is_grave warning = false
is_grave error = false

abbrev pub failed : Invariant → Bool
failed i = is_fail i.status

abbrev pub warned : Invariant → Bool
warned i = is_warn i.status

-- A critical one that failed.
abbrev pub failed_gravely : Invariant → Bool
failed_gravely i = is_grave i.severity && is_fail i.status

unfoldable pub causes_of : List Invariant → List String
causes_of [] = []
causes_of (i ∷ is) = let rest = causes_of is in if is_pass i.status then rest else i.id ∷ rest

unfoldable pub remedies_of : List Invariant → List String
remedies_of [] = []
remedies_of (i ∷ is) =
    let rest = remedies_of is in
    if is_pass i.status || i.remediation == "" then rest else i.remediation ∷ rest

abbrev pub unhealthy_statuses : List String
unhealthy_statuses = "degraded" ∷ "repairing" ∷ "unsafe" ∷ []

-- A lane is affected by its status or by its lag.
unfoldable pub is_affected : Library → Object → Option Bool
unfolding lag_of allowed_lag_of in_set get_json
is_affected lib lane = do
  behind ← lag_of lib lane
  allowed ← allowed_lag_of lib lane
  bad ← in_set unhealthy_statuses (get_json "status" lane)
  some (bad || not (leb_ℤ behind allowed))

unfoldable pub affected_names : Library → List Object → Option (List Json)
unfolding is_affected field_or
affected_names lib [] = some []
affected_names lib (lane ∷ lanes) = do
  bad ← is_affected lib lane
  rest ← affected_names lib lanes
  some (if bad then field_or "name" (str "unknown") lane ∷ rest else rest)

abbrev pub collection_causes : Json → List String
collection_causes status =
    if is_text "partial" status
    then "collection.partial" ∷ []
    else if is_text "failed" status
    then "collection.failed" ∷ []
    else []

-- `report.get("resources", {}).get("disk", {}).get("pressure")`
unfoldable pub disk_pressure_of : Object → Option Json
unfolding sub_dict get_json
disk_pressure_of r = do
  resources ← sub_dict "resources" r
  disk ← sub_dict "disk" resources
  some (get_json "pressure" disk)

abbrev pub needs_fresh_state : String → Bool
needs_fresh_state cause = has_infix "replay_lag" cause || has_infix "heartbeat" cause

unfoldable pub health_of : List Invariant → Health × Severity
health_of is =
    if any_of failed_gravely is
    then (unsafe, critical)
    else if any_of failed is
    then (degraded, error)
    else if any_of warned is
    then (degraded, warning)
    else (healthy, info)

abbrev pub or_continue : List String → List String
or_continue [] = "continue_normal_operation" ∷ []
or_continue (a ∷ rest) = a ∷ rest

abbrev pub when_text : Bool → String → List String
when_text true s = s ∷ []
when_text false s = []

-- The members of the result, from what was computed before.
unfoldable pub diagnosis_of : List Invariant → List Json → Json → Bool → Diagnosis
unfolding causes_of remedies_of health_of sorted_set has_infix
diagnosis_of is lanes collection pressed =
    let causes = causes_of is ++ collection_causes collection in
    record {
      status = (health_of is).0;
      severity = (health_of is).1;
      causes = sorted_set causes;
      affected_lanes = lanes;
      safe_actions = or_continue (sorted_set (remedies_of is ++ when_text pressed "purge_preview"));
      blocked_actions = sorted_set (
          when_text pressed "destructive_purge_without_policy_grant"
          ++ when_text (any_of needs_fresh_state causes) "agent_action_requiring_fresh_state");
    }

unfoldable pub diagnose : Library → Object → Option Diagnosis
unfolding verify dicts_of affected_names sub_dict get_json disk_pressure_of in_set diagnosis_of
diagnose lib r = do
  verification ← verify lib r
  lanes ← dicts_of "lanes" r
  names ← affected_names lib lanes
  affected ← lib.sort_names names
  collection ← sub_dict "collection" r
  pressure ← disk_pressure_of r
  pressed ← in_set ("warning" ∷ "critical" ∷ []) pressure
  some (diagnosis_of verification.invariants affected (get_json "status" collection) pressed)

abbrev pub summary_of : Health → String
summary_of healthy = "All required state integrity invariants pass."
summary_of degraded = "One or more state integrity invariants need attention before full trust."
summary_of unsafe =
    "Critical state integrity invariant failed; restrict mutation and require repair planning."

pub record Control : Type 0 where
  pub id : String
  pub trigger : String
  pub action : String
  pub mode : String

abbrev pub when_control : Bool → Control → List Control
when_control true c = c ∷ []
when_control false c = []

unfoldable pub controls_for : Library → Object → Option (List Control)
unfolding diagnose disk_pressure_of in_set
controls_for lib r = do
  diagnosis ← diagnose lib r
  pressure ← disk_pressure_of r
  pressed ← in_set ("warning" ∷ "critical" ∷ []) pressure
  some (
      when_control (contains diagnosis.causes "journal.replay_lag_within_sla") (record {
        id = "run_replay";
        trigger = "journal.replay_lag_above_sla";
        action = "run_replay";
        mode = "automatic_allowed";
      })
      ++ (when_control pressed (record {
        id = "disk_pressure_purge_preview";
        trigger = "disk.pressure_warning_or_critical";
        action = "purge_preview";
        mode = "manual_approval_required";
      })
          ++ when_control (contains diagnosis.causes "runtime.no_unrecovered_dirty_open") (record {
            id = "verify_dirty_open";
            trigger = "runtime.last_dirty_open_present";
            action = "verify_before_ready";
            mode = "automatic_allowed";
          })))
