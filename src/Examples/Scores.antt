-- ===== src/Examples/Scores.antt =====
-- Scorecards at concrete reports.
use sourceos_syncd.Prelude.{◌+◌, ◌≤◌, string_eq, true, false, some, [], ◌∷◌, ◌≡◌, refl, any_of}
use sourceos_syncd.Prelude.Signed.{◌+ℤ◌, pos}
use sourceos_syncd.Json.{Json, str, bool, Object, fields, entries, items}
use sourceos_syncd.Reports.Checks.{◌also◌, ◌>>=◌}
use sourceos_syncd.Reports.Verify.{judged, info}
use sourceos_syncd.Reports.Diagnosis.{Diagnosis, healthy, is_unsafe, diagnose}
use sourceos_syncd.Scorecard.{
  Dimensions, Scorecard, Gate, ready, fails, gates_of, scorecard_of, evaluate_scorecard,
}
use sourceos_syncd.Scorecard.Ready.{evaluate_scorecard-ready}
use sourceos_syncd.Scorecard.Blocked.{is_blocked, evaluate_scorecard-blocked}
use sourceos_syncd.Examples.Reports.{sample_library, report_with, dict, number}

abbrev ready_report : Object
ready_report = report_with 0 "verified"

abbrev healthy_diagnosis : Diagnosis
healthy_diagnosis = record {
  status = healthy;
  severity = info;
  causes = [];
  affected_lanes = [];
  safe_actions = "continue_normal_operation" ∷ [];
  blocked_actions = [];
}

abbrev ready_dimensions : Dimensions
ready_dimensions = record {
  diagnosis = healthy_diagnosis;
  contract_errors = [];
  invariant_failures = 0;
  invariant_warnings = 0;
  critical_failures = 0;
  lane_statuses = (str "normal", str "active") ∷ [];
  replay_lag_events = pos 0;
  disk_pressure = str "none";
  policy_counts = dict (("denied", number 0) ∷ []);
  attestation_signed = true;
}

abbrev ready_card : Scorecard
ready_card =
    scorecard_of sample_library "now" ready_report "sourceos-syncd" ready_dimensions
      (gates_of [] healthy 0 (str "none")) 100

ready-evaluated : evaluate_scorecard sample_library "now" ready_report ≡ some ready_card
unfolding evaluate_scorecard judged ◌also◌ ◌>>=◌ ◌+ℤ◌ string_eq fields entries items
ready-evaluated = refl

ready-is_ready : ready_card.status ≡ ready
unfolding scorecard_of gates_of string_eq
ready-is_ready = refl

healthy-diagnosed : diagnose sample_library ready_report ≡ some healthy_diagnosis
unfolding diagnose judged ◌also◌ ◌>>=◌ ◌+ℤ◌ string_eq fields entries items
healthy-diagnosed = refl

evaluate_scorecard-ready_example :
    (any_of fails ready_card.gates ≡ false)
    × (ready_card.dimensions.critical_failures ≡ 0)
    × (ready_card.dimensions.invariant_failures ≤ 1)
    × (ready_card.dimensions.invariant_failures + ready_card.dimensions.invariant_failures
          + ready_card.dimensions.invariant_warnings
        ≤ 2)
evaluate_scorecard-ready_example =
    evaluate_scorecard-ready sample_library "now" ready_report ready_card ready-evaluated
      ready-is_ready

evaluate_scorecard-blocked_example :
    is_blocked ready_card.status ≡ is_unsafe healthy_diagnosis.status
evaluate_scorecard-blocked_example =
    evaluate_scorecard-blocked sample_library "now" ready_report ready_card healthy_diagnosis
      ready-evaluated healthy-diagnosed

abbrev printed_dimensions : Dimensions → Object
printed_dimensions d = ("attestation_signed", bool d.attestation_signed) ∷ []

abbrev printed_gate : Gate → Json
printed_gate g = bool g.passes
