-- ===== src/Trust.antt =====
-- src/sourceos_syncd/trust.py: whether an agent may act on the state that a report describes. The dict
-- that the evidence is printed as, with the texts of the complaints, is a parameter.
pub mod Gate
pub mod Valid
use sourceos_syncd.Prelude.{
  String, ◌<>◌, Bool, true, false, not, ◌&&◌, ◌||◌, Option, none, some, List, [], ◌∷◌, ◌==◌,
  string_eq, contains, any_of, starts_with, if◌then◌else◌,
}
use sourceos_syncd.Prelude.Dict
use sourceos_syncd.Prelude.Signed.{ℤ, pos, negsuc, leb_ℤ}
use sourceos_syncd.Json.{
  Json, null, bool, int, float, str, arr, obj, Object, fields, entries, end, get_json, sub_object,
  as_object, in_set, is_text, truthy,
}
use sourceos_syncd.Show.{str_field}
use sourceos_syncd.NoiseBudget.{field_or}
use sourceos_syncd.Reports.Checks.{
  Library, Complaint, about, Found, ◌>>=◌, ◌also◌, flag, outside, lacks, is_bool, is_obj, dicts_of,
}
use sourceos_syncd.Evidence.{digest_json, shortened}
use sourceos_syncd.Reports.Validation.{validate_report}
use sourceos_syncd.Reports.Verify.{is_nil}
use sourceos_syncd.Reports.Diagnosis.{Health, healthy, degraded, unsafe, Diagnosis, diagnose}

abbrev pub trust_decision_schema : String
trust_decision_schema = "sourceos.agent-trust-decision/v1alpha1"

abbrev pub trust_engine : String
trust_engine = "agentplane-local-trust-gate"

abbrev pub trust_statuses : List String
trust_statuses = "allowed" ∷ "degraded_allowed" ∷ "blocked" ∷ "unknown" ∷ []

pub record TrustRequest : Type 0 where
  pub subject : String
  pub action : String
  pub lane : String
  pub allow_degraded : Bool
  pub require_attestation : Bool
  pub context : Object

-- The statuses that a decision can have, and their reasons.
pub data TrustStatus : Type 0 where
  allowed degraded_allowed blocked : TrustStatus

pub data Reason : Type 0 where
  state_integrity_allows_agent_action report_contract_invalid requested_lane_missing
        required_attestation_missing report_status_unsafe degraded_mode_explicitly_allowed
        degraded_mode_requires_explicit_allowance policy_counts_indicate_restricted_lane :
      Reason

-- The lanes' names are printed sorted.
pub record TrustEvidence : Type 0 where
  pub contract_errors : List Complaint
  pub diagnosis : Diagnosis
  pub attestation_signed : Bool
  pub lane_names : List Json
  pub policy_counts : Json

pub record TrustDecision : Type 0 where
  pub decision_id : String
  pub status : TrustStatus
  pub reason : Reason
  pub subject : String
  pub action : String
  pub lane : String
  pub report_digest : String
  pub report_status : Health
  pub allow_degraded : Bool
  pub require_attestation : Bool
  pub engine : String
  pub schema : String
  pub generated_at : String
  pub evidence : TrustEvidence

-- What can be in a set.
abbrev pub hashable : Json → Bool
hashable (arr _) = false
hashable (obj _) = false
hashable _ = true

-- `{lane.get("name") for lane in lanes}`
unfoldable pub names_of : List Object → Option (List Json)
unfolding get_json
names_of [] = some []
names_of (lane ∷ lanes) = do
  rest ← names_of lanes
  if hashable (get_json "name" lane) then some (get_json "name" lane ∷ rest) else none

unfoldable pub lane_names : Object → Option (List Json)
unfolding dicts_of names_of
lane_names r = dicts_of "lanes" r >>= names_of

unfoldable pub has_lane : String → List Json → Bool
unfolding is_text
has_lane lane names = any_of (is_text lane) names

unfoldable pub is_attested : Object → Bool
unfolding sub_object truthy get_json
is_attested r = truthy (get_json "signed" (sub_object "attestation" r))

-- The verdict on the report before the policy counts are looked at.
unfoldable pub report_verdict :
    TrustRequest → List Complaint → Bool → Bool → Health → TrustStatus × Reason
report_verdict q errors has attested health =
    if not (is_nil errors)
    then (blocked, report_contract_invalid)
    else if not has
    then (blocked, requested_lane_missing)
    else if q.require_attestation && not attested
    then (blocked, required_attestation_missing)
    else elim health [
      | unsafe ↦ (blocked, report_status_unsafe)
      | degraded ↦
          if q.allow_degraded
          then (degraded_allowed, degraded_mode_explicitly_allowed)
          else (blocked, degraded_mode_requires_explicit_allowance)
      | healthy ↦ (allowed, state_integrity_allows_agent_action)
    ]

unfoldable pub policy_counts : Object → Json
unfolding sub_object field_or
policy_counts r = field_or "policy_decisions" (obj end) (sub_object "policy" r)

-- `j > 0`
unfoldable pub is_positive : Json → Option Bool
is_positive (int z) = some (not (leb_ℤ z (pos 0)))
is_positive (bool b) = some b
is_positive (float m e) = some (not (leb_ℤ m (pos 0)))
is_positive _ = none

-- `policy_counts.get("denied", 0) > 0`
unfoldable pub counts_denied : Json → Option Bool
unfolding is_positive field_or entries
counts_denied (obj fs) = is_positive (field_or "denied" (int (pos 0)) (entries fs))
counts_denied _ = none

abbrev pub is_permitted : TrustStatus → Bool
is_permitted allowed = true
is_permitted degraded_allowed = true
is_permitted blocked = false

unfoldable pub is_restricted : TrustRequest → Bool
is_restricted q = contains ("secure" ∷ "repair" ∷ []) q.lane

-- A restricted lane is blocked if the policy has denied something.
unfoldable pub restrict : TrustRequest → Json → TrustStatus × Reason → Option (TrustStatus × Reason)
unfolding counts_denied is_restricted
restrict q counts v =
    if is_permitted v.0 && is_restricted q
    then counts_denied counts
      >>= (λ denied. some (if denied then (blocked, policy_counts_indicate_restricted_lane) else v))
    else some v

abbrev pub status_name : TrustStatus → String
status_name allowed = "allowed"
status_name degraded_allowed = "degraded_allowed"
status_name blocked = "blocked"

abbrev pub reason_name : Reason → String
reason_name state_integrity_allows_agent_action = "state_integrity_allows_agent_action"
reason_name report_contract_invalid = "report_contract_invalid"
reason_name requested_lane_missing = "requested_lane_missing"
reason_name required_attestation_missing = "required_attestation_missing"
reason_name report_status_unsafe = "report_status_unsafe"
reason_name degraded_mode_explicitly_allowed = "degraded_mode_explicitly_allowed"
reason_name degraded_mode_requires_explicit_allowance = "degraded_mode_requires_explicit_allowance"
reason_name policy_counts_indicate_restricted_lane = "policy_counts_indicate_restricted_lane"

abbrev pub health_name : Health → String
health_name healthy = "healthy"
health_name degraded = "degraded"
health_name unsafe = "unsafe"

-- What the id of a decision is made from.
abbrev pub seed_of : TrustRequest → TrustStatus × Reason → String → Object
seed_of q v digest =
    ("subject", str q.subject)
    ∷ ("action", str q.action)
    ∷ ("lane", str q.lane)
    ∷ ("status", str (status_name v.0))
    ∷ ("reason", str (reason_name v.1))
    ∷ ("report_digest", str digest)
    ∷ ("allow_degraded", bool q.allow_degraded)
    ∷ ("require_attestation", bool q.require_attestation)
    ∷ []

module _ (lib : Library) (now : String) where
  unfoldable pub decision_of :
      Object → TrustRequest → TrustStatus × Reason → TrustEvidence → TrustDecision
  unfolding digest_json shortened
  decision_of r q v e = record {
    decision_id = "trust-" <> shortened 20 (lib.digest (seed_of q v (digest_json lib r)));
    status = v.0;
    reason = v.1;
    subject = q.subject;
    action = q.action;
    lane = q.lane;
    report_digest = digest_json lib r;
    report_status = e.diagnosis.status;
    allow_degraded = q.allow_degraded;
    require_attestation = q.require_attestation;
    engine = trust_engine;
    schema = trust_decision_schema;
    generated_at = now;
    evidence = e;
  }

  unfoldable pub evaluate_trust : Object → TrustRequest → Option TrustDecision
  unfolding validate_report diagnose lane_names has_lane is_attested report_verdict policy_counts
      restrict decision_of
  evaluate_trust r q = do
    errors ← validate_report lib r
    d ← diagnose lib r
    names ← lane_names r
    v ←
        restrict q (policy_counts r)
          (report_verdict q errors (has_lane q.lane names) (is_attested r) d.status)
    some (
        decision_of r q v (record {
          contract_errors = errors;
          diagnosis = d;
          attestation_signed = is_attested r;
          lane_names = names;
          policy_counts = policy_counts r;
        }))

unfoldable pub as_dict : (TrustEvidence → Object) → TrustDecision → Object
unfolding fields
as_dict evidence_dict d =
    ("schema", str d.schema)
    ∷ ("decision_id", str d.decision_id)
    ∷ ("generated_at", str d.generated_at)
    ∷ ("engine", str d.engine)
    ∷ ("subject", str d.subject)
    ∷ ("action", str d.action)
    ∷ ("lane", str d.lane)
    ∷ ("status", str (status_name d.status))
    ∷ ("reason", str (reason_name d.reason))
    ∷ ("report_digest", str d.report_digest)
    ∷ ("report_status", str (health_name d.report_status))
    ∷ ("allow_degraded", bool d.allow_degraded)
    ∷ ("require_attestation", bool d.require_attestation)
    ∷ ("evidence", obj (fields (evidence_dict d.evidence)))
    ∷ []

abbrev pub required_decision_keys : List String
required_decision_keys =
    "schema" ∷ "decision_id" ∷ "generated_at" ∷ "engine" ∷ "subject" ∷ "action" ∷ "lane" ∷ "status"
    ∷ "reason" ∷ "report_digest" ∷ "report_status" ∷ "allow_degraded" ∷ "require_attestation"
    ∷ "evidence" ∷ []

unfoldable pub validate_trust_decision : Library → Object → Found
unfolding flag outside lacks in_set is_bool is_obj get_json is_text str_field
validate_trust_decision lib decision =
    flag (lacks decision required_decision_keys) (about "keys" "are missing")
    also flag (not (is_text trust_decision_schema (get_json "schema" decision)))
        (about "schema" "unsupported")
    also outside (in_set trust_statuses (get_json "status" decision)) (about "status" "is invalid")
    also flag (not (starts_with (str_field lib.text_of "report_digest" "" decision) "sha256:"))
        (about "report_digest" "must start with sha256:")
    also flag (not (is_bool (get_json "allow_degraded" decision)))
        (about "allow_degraded" "must be boolean")
    also flag (not (is_bool (get_json "require_attestation" decision)))
        (about "require_attestation" "must be boolean")
    also flag (not (is_obj (get_json "evidence" decision))) (about "evidence" "must be an object")
