-- ===== src/Examples/Reports.antt =====
-- The theorems on reports, applied to a report with one lane and one store.
use sourceos_syncd.Prelude.{
  ℕ, String, string_eq, true, false, not, ◌||◌, none, some, [], ◌∷◌, ◌≡◌, refl,
}
use sourceos_syncd.Prelude.Signed.{pos, ◌+ℤ◌}
use sourceos_syncd.Json.{
  Json, null, bool, int, float, str, arr, obj, Object, nil, cons, fields, get_json, entries, items,
}
use sourceos_syncd.NoiseBudget.{field_or}
use sourceos_syncd.Reports.Checks.{Library, ◌also◌, ◌>>=◌, parse_text}
use sourceos_syncd.Reports.Validation.{validate_report}
use sourceos_syncd.Reports.Verify.{
  Invariant, Verification, judged, pass, warn, fail, info, warning, error, critical, contract,
  heartbeat, lag, shadows, disk, dirty_open, disk_invariant, verify,
}
use sourceos_syncd.Reports.Verify.Total.{ComparesTimes, verify-total}
use sourceos_syncd.Reports.Diagnosis.{is_healthy, is_unsafe, Diagnosis, degraded, diagnose, is_pass}
use sourceos_syncd.Reports.Diagnosis.Soundness.{diagnose-healthy_if_pass, diagnose-unsafe_if_grave}
use sourceos_syncd.Reports.Diagnosis.Pressure.{reported_pressure, is_grave_pressure}
use sourceos_syncd.Reports.Repair.{repair_plan}
use sourceos_syncd.Reports.Repair.Check.{validate_repair_plan}
use sourceos_syncd.Reports.Repair.Total.{SortsNames, repair_plan-total}

abbrev pub sample_library : Library
sample_library = record {
  parses = λ s. true;
  elapsed_ms = λ generated last. some 1000;
  parse_int = λ s. none;
  sort_names = λ names. some names;
  text_of = λ j. "";
  digest = λ r. elim r [ [] ↦ "00" | _ ∷ _ ↦ "01" ];
}

abbrev pub dict : Object → Json
dict r = obj (fields r)

abbrev pub number : ℕ → Json
number n = int (pos n)

abbrev pub lane_with : ℕ → Object
lane_with behind =
    ("name", str "normal")
    ∷ ("status", str "active")
    ∷ (
      "sla",
      dict (("max_heartbeat_age_ms", number 30000) ∷ ("max_replay_lag_events", number 5) ∷ []),
    )
    ∷ ("objects", dict (("live", number 3) ∷ []))
    ∷ ("journal", dict (("replay_lag_events", number behind) ∷ []))
    ∷ ("maintenance", dict [])
    ∷ []

abbrev pub store_with : String → Object
store_with state =
    ("name", str "state")
    ∷ ("role", str "active")
    ∷ ("backend", str "json")
    ∷ ("schema_version", str "1")
    ∷ ("runtime_version", str "1")
    ∷ ("migration_state", str "none")
    ∷ ("checksum_state", str state)
    ∷ ("shadow_present", bool true)
    ∷ []

abbrev pub report_with : ℕ → String → Object
report_with behind state =
    ("schema", str "sourceos.state-integrity-report/v1alpha1")
    ∷ ("generated_at", str "2026-01-01T00:00:01Z")
    ∷ (
      "identity",
      dict (
          ("component", str "sourceos-syncd")
          ∷ ("repo", str "SourceOS-Linux/sourceos-syncd")
          ∷ ("pid", number 7)
          ∷ ("process_name", str "syncd")
          ∷ ("node_id_hash", str "sha256:ab")
          ∷ ("version", str "1")
          ∷ ("platform", str "linux")
          ∷ ("service_manager", str "systemd")
          ∷ []),
    )
    ∷ (
      "collection",
      dict (
          ("status", str "complete")
          ∷ ("errors", arr nil)
          ∷ ("redacted_fields", arr nil)
          ∷ ("permission_denied_fields", arr nil)
          ∷ ("timed_out_fields", arr nil)
          ∷ ("unavailable_fields", arr nil)
          ∷ []),
    )
    ∷ (
      "runtime",
      dict (("last_heartbeat_at", str "2026-01-01T00:00:00Z") ∷ ("last_dirty_open_at", null) ∷ []),
    )
    ∷ ("stores", arr (cons (dict (store_with state)) nil))
    ∷ ("lanes", arr (cons (dict (lane_with behind)) nil))
    ∷ ("pipeline", dict [])
    ∷ (
      "resources",
      dict (
          (
            "disk",
            dict (
                ("free_bytes", number 50)
                ∷ ("total_bytes", number 100)
                ∷ ("free_ratio", float (pos 5) 1)
                ∷ ("pressure", str "none")
                ∷ []),
          )
          ∷ []),
    )
    ∷ ("policy", dict (("policy_decisions", dict (("denied", number 0) ∷ [])) ∷ []))
    ∷ ("invariants", arr nil)
    ∷ ("diagnosis", dict [])
    ∷ ("controls", arr nil)
    ∷ ("attestation", dict (("signed", bool true) ∷ []))
    ∷ []

abbrev pub sample_report : Object
sample_report = report_with 9 "unverified"

pub sample-accepted : validate_report sample_library sample_report ≡ some []
unfolding validate_report ◌also◌ string_eq fields entries items
sample-accepted = refl

abbrev pub sample_verification : Verification
sample_verification = record {
  status = fail;
  invariants =
      judged "report.contract_valid" true fail critical (contract []) "fix_report_contract"
      ∷ judged "heartbeat.within_sla" true fail error (heartbeat (some 1000) (pos 30000))
          "restart_or_mark_stale"
      ∷ judged "journal.replay_lag_within_sla" false fail error (lag (pos 9) (pos 5)) "run_replay"
      ∷ judged "store.shadow_verified_when_present" false warn warning (shadows (str "state" ∷ []))
          "verify_or_rebuild_shadow"
      ∷ judged "resources.disk_pressure_below_critical" true fail critical
          (disk (str "none") (float (pos 5) 1)) "compact_or_purge_preview"
      ∷ judged "runtime.no_unrecovered_dirty_open" true warn warning (dirty_open null)
          "verify_before_ready"
      ∷ [];
}

abbrev pub sample_diagnosis : Diagnosis
sample_diagnosis = record {
  status = degraded;
  severity = error;
  causes = "journal.replay_lag_within_sla" ∷ "store.shadow_verified_when_present" ∷ [];
  affected_lanes = str "normal" ∷ [];
  safe_actions = "run_replay" ∷ "verify_or_rebuild_shadow" ∷ [];
  blocked_actions = "agent_action_requiring_fresh_state" ∷ [];
}

sample-verified : verify sample_library sample_report ≡ some sample_verification
unfolding verify judged ◌also◌ ◌>>=◌ ◌+ℤ◌ string_eq fields entries items
sample-verified = refl

pub sample-diagnosed : diagnose sample_library sample_report ≡ some sample_diagnosis
unfolding diagnose judged ◌also◌ ◌>>=◌ ◌+ℤ◌ string_eq fields entries items
sample-diagnosed = refl

abbrev pub disk_judged : Invariant
disk_judged = record {
  id = "resources.disk_pressure_below_critical";
  status = pass;
  severity = info;
  evidence = disk (str "none") (float (pos 5) 1);
  remediation = "compact_or_purge_preview";
}

pub disk-judged : disk_invariant sample_report ≡ some disk_judged
unfolding disk_invariant judged ◌>>=◌ string_eq fields entries items field_or get_json
disk-judged = refl

pub sample-ComparesTimes : ComparesTimes sample_library sample_report
sample-ComparesTimes generated last runtime _ _ _ = (1000, refl)

pub sample-SortsNames : SortsNames sample_library sample_report
sample-SortsNames lanes names _ _ = (names, refl)

verify-total_example : (v : Verification) × (verify sample_library sample_report ≡ some v)
verify-total_example =
    verify-total sample_library sample_report sample-accepted sample-ComparesTimes

diagnose-healthy_if_pass_example :
    is_healthy sample_diagnosis.status ≡ is_pass sample_verification.status
diagnose-healthy_if_pass_example =
    diagnose-healthy_if_pass sample_library sample_report sample_diagnosis sample_verification
      sample-verified sample-diagnosed

diagnose-unsafe_if_grave_example :
    is_unsafe sample_diagnosis.status
    ≡ not true || is_grave_pressure (reported_pressure sample_report)
diagnose-unsafe_if_grave_example =
    diagnose-unsafe_if_grave sample_library sample_report sample_diagnosis [] sample-accepted
      sample-diagnosed

abbrev short_id : Diagnosis → String
short_id d = "0123456789abcdef"

noon-parses : parse_text sample_library "2026-01-01T12:00:00Z" ≡ some "2026-01-01T12:00:00+00:00"
unfolding parse_text string_eq
noon-parses = refl

repair_plan-total_example :
    (plan : Object) × (repair_plan sample_library short_id "2026-01-01T12:00:00Z" sample_report
      ≡ some plan)
    × (validate_repair_plan sample_library plan ≡ some [])
repair_plan-total_example =
    repair_plan-total sample_library sample_report short_id "2026-01-01T12:00:00Z"
      "2026-01-01T12:00:00+00:00" sample-accepted sample-ComparesTimes sample-SortsNames noon-parses
