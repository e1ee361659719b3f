-- ===== src/Examples/Trust.antt =====
-- Trust and evidence, at the report of Examples.Reports.
use sourceos_syncd.Prelude.{
  string_eq, true, false, ◌||◌, none, some, List, [], ◌∷◌, ◌≡◌, refl, ◌⊎◌, differ,
}
use sourceos_syncd.Prelude.Signed.{◌+ℤ◌}
use sourceos_syncd.Json.{Json, str, obj, end, Object, fields, entries, items}
use sourceos_syncd.Reports.Checks.{◌also◌, ◌>>=◌, is_obj}
use sourceos_syncd.Reports.Validation.{validate_report}
use sourceos_syncd.Reports.Verify.{judged}
use sourceos_syncd.Reports.Diagnosis.{Diagnosis, diagnose}
use sourceos_syncd.Evidence.{write_evidence_file, default_writer, digest_json}
use sourceos_syncd.Evidence.Tamper.{swapped, write-swapped, IsOther}
use sourceos_syncd.Trust.{
  TrustRequest, degraded_allowed, degraded_mode_explicitly_allowed, TrustEvidence, TrustDecision,
  decision_of, lane_names, has_lane, is_attested, policy_counts, counts_denied, is_permitted,
  is_restricted, evaluate_trust,
}
use sourceos_syncd.Trust.Gate.{is_trusted, evaluate_trust-permitted}
use sourceos_syncd.Examples.Reports.{sample_library, sample_report, sample_diagnosis, dict, number}

abbrev sample_request : TrustRequest
sample_request = record {
  subject = "agent-1";
  action = "replicate";
  lane = "normal";
  allow_degraded = true;
  require_attestation = true;
  context = [];
}

abbrev sample_evidence : TrustEvidence
sample_evidence = record {
  contract_errors = [];
  diagnosis = sample_diagnosis;
  attestation_signed = true;
  lane_names = str "normal" ∷ [];
  policy_counts = dict (("denied", number 0) ∷ []);
}

abbrev sample_decision : TrustDecision
sample_decision =
    decision_of sample_library "2026-01-01T12:00:00Z" sample_report sample_request
      (degraded_allowed, degraded_mode_explicitly_allowed) sample_evidence

sample-decided :
    evaluate_trust sample_library "2026-01-01T12:00:00Z" sample_report sample_request
    ≡ some sample_decision
unfolding evaluate_trust judged ◌also◌ ◌>>=◌ ◌+ℤ◌ string_eq fields entries items
sample-decided = refl

sample-permitted : is_permitted sample_decision.status ≡ true
unfolding decision_of
sample-permitted = refl

evaluate_trust-permitted_example :
    (validate_report sample_library sample_report ≡ some [])
    × ((names : List Json) × (lane_names sample_report ≡ some names)
        × (has_lane "normal" names ≡ true))
    × ((false || is_attested sample_report) ≡ true)
    × ((g : Diagnosis) × (diagnose sample_library sample_report ≡ some g)
        × (is_trusted sample_request g.status ≡ true))
    × ((is_restricted sample_request ≡ false)
        ⊎ (counts_denied (policy_counts sample_report) ≡ some false))
evaluate_trust-permitted_example =
    evaluate_trust-permitted sample_library "2026-01-01T12:00:00Z" sample_report sample_request
      sample_decision sample-decided sample-permitted

abbrev printed_evidence : TrustEvidence → Object
printed_evidence e = ("policy_counts", e.policy_counts) ∷ []

abbrev artifact : Object
artifact = ("kind", str "report") ∷ []

IsOther-digest : IsOther sample_library "now" "report" "node" default_writer artifact (obj end)
unfolding digest_json string_eq entries
IsOther-digest = differ "sha256:01" "sha256:00" refl

write-swapped_example :
    write_evidence_file sample_library
      (swapped sample_library "now" "report" "node" default_writer artifact (obj end))
      []
    ≡ none
unfolding is_obj
write-swapped_example =
    write-swapped sample_library "now" "report" "node" default_writer artifact (obj end) []
      IsOther-digest
