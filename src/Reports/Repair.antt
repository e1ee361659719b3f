-- ===== src/Reports/Repair.antt =====
-- `repair_plan`.
pub mod Check
pub mod Valid
pub mod Total
use sourceos_syncd.Prelude.{
  ℕ, ◌+◌, String, ◌<>◌, Bool, true, false, not, ◌&&◌, ◌||◌, Option, none, some, List, [], ◌∷◌, ◌++◌,
  ◌==◌, string_eq, contains, if◌then◌else◌, any_of, nat_beq,
}
use Prim.Native.Nat.{◌*◌, ◌^◌}
use sourceos_syncd.Prelude.Dict
use sourceos_syncd.Prelude.Signed.{ℤ, pos, negsuc}
use sourceos_syncd.Json.{
  Json, null, bool, int, float, str, arr, obj, cons, nil, Items, Object, items, entries, fields,
  get_json, in_set, is_text, truthy,
}
use sourceos_syncd.NoiseBudget.{field_or}
use sourceos_syncd.Policy.{strings}
use sourceos_syncd.Reports.Checks.{
  Library, Found, Complaint, about, at, ◌>>=◌, ◌also◌, complain, flag, outside, absent, is_bool,
  is_obj, sub_dict, parse_instant,
}
use sourceos_syncd.Reports.Shape.{repair_schema, required_repair_keys, repair_statuses, severities}
use sourceos_syncd.Reports.Sections.{no_instant}
use sourceos_syncd.Reports.Verify.{Severity, info, warning, error, critical}
use sourceos_syncd.Reports.Diagnosis.{Diagnosis, diagnose, summary_of, disk_pressure_of}

-- The arguments of `add_step`.
pub record StepText : Type 0 where
  pub id : String
  pub kind : String
  pub description : String
  pub expected_result : String

abbrev pub when_step : Bool → StepText → List StepText
when_step true s = s ∷ []
when_step false s = []

abbrev pub no_op : StepText
no_op = record {
  id = "no_op";
  kind = "control";
  description = "No repair action is required because state integrity invariants pass.";
  expected_result = "System continues normal operation.";
}

abbrev pub or_no_op : List StepText → List StepText
or_no_op [] = no_op ∷ []
or_no_op (s ∷ ss) = s ∷ ss

-- The steps for the causes and for a disk that is `pressed`.
unfoldable pub steps_for : List String → Bool → List StepText
steps_for causes pressed = or_no_op (
    when_step (contains causes "heartbeat.within_sla") (record {
      id = "mark_stale_and_restart_if_managed";
      kind = "control";
      description =
          "Mark stale state as degraded and restart only if service management owns the process.";
      expected_result = "Freshness is not advertised until a valid heartbeat returns.";
    })
    ++ (when_step (contains causes "journal.replay_lag_within_sla") (record {
      id = "run_replay";
      kind = "replay";
      description = "Apply verified journal events until replay lag reaches lane SLA.";
      expected_result = "Replay lag falls within the configured lane threshold.";
    })
        ++ (when_step (contains causes "store.shadow_verified_when_present") (record {
          id = "verify_or_rebuild_shadow";
          kind = "verification";
          description = "Verify active and shadow generation checksums before any rebuild.";
          expected_result = "Shadow state is verified or a follow-up rebuild plan is produced.";
        })
            ++ (when_step (contains causes "runtime.no_unrecovered_dirty_open") (record {
              id = "verify_dirty_open_recovery";
              kind = "verification";
              description =
                  "Verify manifest, journal continuity, and last-known-good generation before ready state.";
              expected_result =
                  "Dirty-open recovery evidence is recorded and readiness can be reassessed.";
            })
                ++ when_step pressed (record {
                  id = "generate_purge_preview";
                  kind = "purge-preview";
                  description =
                      "List purge-eligible ephemeral and archive objects without deleting them.";
                  expected_result =
                      "Operator receives policy basis, recoverable bytes, object counts, and audit impact.";
                })))))

unfoldable pub step_dict : ℕ → StepText → Object
step_dict order s =
    ("order", int (pos order))
    ∷ ("id", str s.id)
    ∷ ("kind", str s.kind)
    ∷ ("destructive", bool false)
    ∷ ("description", str s.description)
    ∷ ("expected_result", str s.expected_result)
    ∷ []

-- The steps, numbered as they are added.
unfoldable pub numbered : ℕ → List StepText → Items
unfolding step_dict fields
numbered order [] = nil
numbered order (s ∷ ss) = cons (obj (fields (step_dict order s))) (numbered (order + 1) ss)

abbrev pub severity_name : Severity → String
severity_name info = "info"
severity_name warning = "warning"
severity_name error = "error"
severity_name critical = "critical"

unfoldable pub source_dict : Object → Object → Object
unfolding get_json
source_dict r identity =
    ("schema", get_json "schema" r)
    ∷ ("component", get_json "component" identity)
    ∷ ("generated_at", get_json "generated_at" r)
    ∷ []

unfoldable pub policy_dict : Object → Object
unfolding field_or
policy_dict policy =
    ("engine", field_or "policy_engine" (str "policy-fabric") policy)
    ∷ ("required_grants", strings ("sourceos.repair/preview" ∷ []))
    ∷ (
      "destructive_grants_required",
      strings ("sourceos.repair/apply" ∷ "sourceos.purge/apply" ∷ []),
    )
    ∷ ("destructive_actions_present", bool false)
    ∷ []

abbrev pub condition : String → String → Json
condition id check =
    obj (fields (("id", str id) ∷ ("status", str "required") ∷ ("check", str check) ∷ []))

unfoldable pub plan_dict : String → String → Object → Object → Object → Diagnosis → Items → Object
unfolding source_dict policy_dict fields
plan_dict now plan_id r identity policy d steps =
    ("schema", str repair_schema)
    ∷ ("generated_at", str now)
    ∷ ("source_report", obj (fields (source_dict r identity)))
    ∷ ("plan_id", str ("repair-plan-" <> plan_id))
    ∷ ("status", str "preview")
    ∷ ("severity", str (severity_name d.severity))
    ∷ ("summary", str (summary_of d.status))
    ∷ ("policy", obj (fields (policy_dict policy)))
    ∷ (
      "preconditions",
      arr (
          cons (condition "report.shape_valid" "report schema is supported")
            (cons (condition "no_destructive_apply" "this plan is preview-only") nil)),
    )
    ∷ (
      "checkpoint",
      obj (
          fields (
            ("required", bool true)
            ∷ ("type", str "last-known-good-generation")
            ∷ ("write_audit_record", bool true)
            ∷ [])),
    )
    ∷ ("steps", arr steps)
    ∷ (
      "blocked_steps",
      arr (
          cons
            (obj (
              fields (
                ("id", str "apply_destructive_changes")
                ∷ (
                  "reason",
                  str
                      "Requires explicit policy grant, checkpoint, rollback path, and evidence write.",
                )
                ∷ [])))
            nil),
    )
    ∷ (
      "rollback",
      obj (
          fields (
            ("available", bool true)
            ∷ (
              "strategy",
              str "restore last-known-good generation and replay only verified journal events",
            )
            ∷ ("requires_operator_approval", bool true)
            ∷ [])),
    )
    ∷ (
      "postconditions",
      strings (
          "diagnosis.status != unsafe" ∷ "heartbeat.within_sla in [pass, warn]"
          ∷ "journal.replay_lag_within_sla == pass"
          ∷ "repair evidence is written when Lampstand is available" ∷ []),
    )
    ∷ []

-- `plan_id` is the shortened SHA-256 of the JSON text of a diagnosis.
unfoldable pub repair_plan : Library → (Diagnosis → String) → String → Object → Option Object
unfolding diagnose disk_pressure_of in_set sub_dict steps_for numbered plan_dict
repair_plan lib plan_id now r = do
  d ← diagnose lib r
  pressure ← disk_pressure_of r
  pressed ← in_set ("watch" ∷ "warning" ∷ "critical" ∷ []) pressure
  identity ← sub_dict "identity" r
  policy ← sub_dict "policy" r
  some (plan_dict now (plan_id d) r identity policy d (numbered 1 (steps_for d.causes pressed)))
