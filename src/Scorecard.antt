-- ===== src/Scorecard.antt =====
-- src/sourceos_syncd/scorecard.py: the score of a report and its gates. The dicts that the dimensions
-- and the gates are printed as are parameters.
pub mod Printed
pub mod Parts
pub mod Blocked
pub mod Ready
use Prim.Native.Nat.{◌*◌}
use sourceos_syncd.Prelude.{
  ℕ, suc, ◌+◌, min, String, ◌<>◌, Bool, true, false, not, ◌&&◌, ◌||◌, Option, none, some, List, [],
  ◌∷◌, ◌==◌, string_eq, any_of, nat_beq, leb, starts_with, if◌then◌else◌,
}
use sourceos_syncd.Prelude.Dict
use sourceos_syncd.Prelude.Signed.{ℤ, pos, negsuc, leb_ℤ, sub_ℕ, ◌+ℤ◌}
use sourceos_syncd.Json.{
  Json, str, int, arr, obj, nil, cons, Items, Object, fields, get_json, as_object, in_set, is_text,
  is_zero,
}
use sourceos_syncd.Show.{str_field}
use sourceos_syncd.NoiseBudget.{field_or}
use sourceos_syncd.Reports.Checks.{
  Library, Complaint, about, Found, ◌>>=◌, ◌also◌, flag, outside, lacks, is_arr, is_obj, as_int,
  sub_dict, dicts_of,
}
use sourceos_syncd.Reports.Validation.{validate_report}
use sourceos_syncd.Reports.Verify.{Invariant, is_nil, lag_of, verify}
use sourceos_syncd.Reports.Diagnosis.{
  is_unsafe, Health, healthy, degraded, unsafe, Diagnosis, failed, warned, failed_gravely, diagnose,
}
use sourceos_syncd.Evidence.{digest_json, shortened}
use sourceos_syncd.Trust.{hashable, health_name, is_attested, policy_counts}

abbrev pub scorecard_schema : String
scorecard_schema = "sourceos.delivery-scorecard/v1alpha1"

abbrev pub scorecard_engine : String
scorecard_engine = "delivery-excellence-local-scorecard"

abbrev pub scorecard_statuses : List String
scorecard_statuses = "ready" ∷ "watch" ∷ "degraded" ∷ "blocked" ∷ []

-- `low` is the status "degraded".
pub data ScoreStatus : Type 0 where
  ready watch low blocked : ScoreStatus

abbrev pub score_name : ScoreStatus → String
score_name ready = "ready"
score_name watch = "watch"
score_name low = "degraded"
score_name blocked = "blocked"

pub data GateEvidence : Type 0 where
  errors : List Complaint → GateEvidence
  diagnosed : Health → GateEvidence
  critical_failures : ℕ → GateEvidence
  pressure : Json → GateEvidence

pub record Gate : Type 0 where
  pub id : String
  pub passes : Bool
  pub evidence : GateEvidence

-- `lane_statuses` lists names with statuses; of equal names the last counts.
pub record Dimensions : Type 0 where
  pub diagnosis : Diagnosis
  pub contract_errors : List Complaint
  pub invariant_failures : ℕ
  pub invariant_warnings : ℕ
  pub critical_failures : ℕ
  pub lane_statuses : List (Json × Json)
  pub replay_lag_events : ℤ
  pub disk_pressure : Json
  pub policy_counts : Json
  pub attestation_signed : Bool

pub record Scorecard : Type 0 where
  pub scorecard_id : String
  pub component : String
  pub status : ScoreStatus
  pub score : ℕ
  pub report_digest : String
  pub summary : String
  pub dimensions : Dimensions
  pub gates : List Gate
  pub engine : String
  pub schema : String
  pub generated_at : String

unfoldable pub count : (Invariant → Bool) → List Invariant → ℕ
count p [] = 0
count p (i ∷ is) = let rest = count p is in if p i then suc rest else rest

abbrev pub only_if {ℓ} : {A : Type ℓ} → Bool → A → Option A
only_if true a = some a
only_if false a = none

-- `{lane.get("name", "unknown"): lane.get("status", "unknown") for lane in lanes}`
unfoldable pub statuses_of : List Object → Option (List (Json × Json))
unfolding field_or
statuses_of [] = some []
statuses_of (lane ∷ lanes) = do
  rest ← statuses_of lanes
  let name = field_or "name" (str "unknown") lane
  only_if (hashable name) ((name, field_or "status" (str "unknown") lane) ∷ rest)

unfoldable pub lag_total : Library → List Object → Option ℤ
unfolding lag_of ◌+ℤ◌
lag_total lib [] = some (pos 0)
lag_total lib (lane ∷ lanes) = do
  behind ← lag_of lib lane
  rest ← lag_total lib lanes
  some (behind +ℤ rest)

abbrev pub pressure_in : Option Object → Option Json
pressure_in none = some (str "unknown")
pressure_in (some resources) =
    sub_dict "disk" resources >>= λ disk. some (field_or "pressure" (str "unknown") disk)

unfoldable pub disk_pressure : Object → Option Json
unfolding as_object get_json sub_dict field_or
disk_pressure r = pressure_in (as_object (get_json "resources" r))

unfoldable pub gates_of : List Complaint → Health → ℕ → Json → List Gate
unfolding is_text
gates_of contract_errors state critical_count disk =
    record {
      id = "contract.valid";
      passes = is_nil contract_errors;
      evidence = errors contract_errors;
    }
    ∷ record {
      id = "diagnosis.not_unsafe";
      passes = not (is_unsafe state);
      evidence = diagnosed state;
    }
    ∷ record {
      id = "critical_invariants.none";
      passes = nat_beq critical_count 0;
      evidence = critical_failures critical_count;
    }
    ∷ record {
      id = "disk.not_critical";
      passes = not (is_text "critical" disk);
      evidence = pressure disk;
    }
    ∷ []

-- What is taken off the score, one after the other.
abbrev pub points : Bool → ℕ → ℕ
points true n = n
points false n = 0

unfoldable pub deductions : ℕ → ℕ → ℕ → ℤ → Json → Bool → ℕ
unfolding is_zero is_text
deductions critical_count fail_count warn_count lag disk attested =
    min 40 (critical_count * 20)
    + min 30 (fail_count * 10)
    + min 15 (warn_count * 5)
    + points (not (is_zero lag)) 10
    + points (is_text "warning" disk) 10
    + points (is_text "critical" disk) 20
    + points (not attested) 5

-- `max(0, min(100, score))`
abbrev pub clamped : ℤ → ℕ
clamped (pos n) = min 100 n
clamped (negsuc n) = 0

unfoldable pub score_of : ℕ → ℕ
score_of total = clamped (sub_ℕ 100 total)

abbrev pub fails : Gate → Bool
fails g = not g.passes

unfoldable pub status_of : List Gate → ℕ → ScoreStatus
status_of gates score =
    if any_of fails gates
    then blocked
    else if leb 90 score
    then ready
    else if leb 70 score
    then watch
    else low

module _ (lib : Library) (now : String) where
  abbrev pub score_seed : String → String → String → Object
  score_seed report_digest component status =
      ("report_digest", str report_digest)
      ∷ ("component", str component)
      ∷ ("status", str status)
      ∷ []

  abbrev pub summary_text : String → ScoreStatus → ℕ → Health → String
  summary_text component status score state =
      component
      <> (" scorecard status="
          <> (score_name status
              <> (" score="
                  <> (lib.text_of (int (pos score)) <> (" diagnosis=" <> health_name state)))))

  unfoldable pub scorecard_of : Object → String → Dimensions → List Gate → ℕ → Scorecard
  unfolding digest_json shortened status_of
  scorecard_of r component d gates score =
      let digest = digest_json lib r in
      let status = status_of gates score in
      record {
        scorecard_id =
            "scorecard-"
            <> shortened 20 (lib.digest (score_seed digest component (score_name status)));
        component = component;
        status = status;
        score = score;
        report_digest = digest;
        summary = summary_text component status score d.diagnosis.status;
        dimensions = d;
        gates = gates;
        engine = scorecard_engine;
        schema = scorecard_schema;
        generated_at = now;
      }

  unfoldable pub evaluate_scorecard : Object → Option Scorecard
  unfolding validate_report verify diagnose sub_dict str_field dicts_of statuses_of lag_total
      disk_pressure count gates_of deductions score_of scorecard_of policy_counts is_attested
  evaluate_scorecard r = do
    contract_errors ← validate_report lib r
    verification ← verify lib r
    diagnosis ← diagnose lib r
    identity ← sub_dict "identity" r
    lanes ← dicts_of "lanes" r
    lane_statuses ← statuses_of lanes
    lag ← lag_total lib lanes
    disk ← disk_pressure r
    let is = verification.invariants
    let attested = is_attested r
    some (
        scorecard_of r (str_field lib.text_of "component" "unknown" identity)
          (record {
            diagnosis = diagnosis;
            contract_errors = contract_errors;
            invariant_failures = count failed is;
            invariant_warnings = count warned is;
            critical_failures = count failed_gravely is;
            lane_statuses = lane_statuses;
            replay_lag_events = lag;
            disk_pressure = disk;
            policy_counts = policy_counts r;
            attestation_signed = attested;
          })
          (gates_of contract_errors diagnosis.status (count failed_gravely is) disk)
          (score_of (
            deductions (count failed_gravely is) (count failed is) (count warned is) lag disk
              attested)))
