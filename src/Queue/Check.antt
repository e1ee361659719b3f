-- ===== src/Queue/Check.antt =====
-- `validate_event_record`: what an event record must be, and the state that it gets. `text_of` is
-- `str` on numbers and containers.
use sourceos_syncd.Prelude.{
  String, Bool, true, false, not, ◌&&◌, List, [], ◌∷◌, ◌++◌, ◌==◌, string_eq, contains,
  if◌then◌else◌,
}
use sourceos_syncd.Json.{Json, arr, nil, Object, truthy, is_true, get_json, sub_object}
use sourceos_syncd.Show.{str_field}

pub data QueueState : Type 0 where
  pending waiting_approval blocked dead_letter : QueueState

pub data EventError : Type 0 where
  missing_event_id missing_capability_id missing_idempotency_key missing_receipts : EventError
  dead_letter_flag_unset outcome_mismatch high_risk_allowed weak_approval : EventError

pub data EventWarning : Type 0 where
  high_risk_denied : EventWarning

pub record Decision : Type 0 where
  pub valid : Bool
  pub state : QueueState
  pub errors : List EventError
  pub warnings : List EventWarning
  pub event_id : String
  pub capability_id : String
  pub effect_class : String
  pub policy_outcome : String
  pub idempotency_key : String
  pub receipt_refs : Json

abbrev pub executable_outcomes : List String
executable_outcomes = "allowed" ∷ "redacted" ∷ []

abbrev pub waiting_outcomes : List String
waiting_outcomes = "requires_approval" ∷ []

abbrev pub blocking_outcomes : List String
blocking_outcomes = "denied" ∷ "degraded" ∷ "requires_local_only" ∷ []

abbrev pub high_risk_effects : List String
high_risk_effects = "high_risk_actuation" ∷ "irreversible_action" ∷ []

abbrev pub strict_approvals : List String
strict_approvals = "explicit_user_approval" ∷ "two_party_approval" ∷ "admin_approval" ∷ []

-- `if b: errors.append(e)`
abbrev pub when {ℓ} : {E : Type ℓ} → Bool → E → List E
when true e = e ∷ []
when false e = []

-- `a or b`
unfoldable pub or_else : Json → Json → Json
unfolding truthy
or_else a b = if truthy a then a else b

-- The fields of a record that the checks read.
pub record Reading : Type 0 where
  pub event_id : String
  pub capability_id : String
  pub effect_class : String
  pub policy_outcome : String
  pub required_outcome : String
  pub idempotency_key : String
  pub approval_mode : String
  pub dead_letter_on_failure : Bool
  pub receipt_refs : Json

unfoldable pub is_high_risk : Reading → Bool
is_high_risk r = contains high_risk_effects r.effect_class

unfoldable pub errors_of : Reading → List EventError
unfolding is_high_risk truthy
errors_of r =
    when (r.event_id == "") missing_event_id
    ++ (when (r.capability_id == "") missing_capability_id
        ++ (when (r.idempotency_key == "") missing_idempotency_key
            ++ (when (not (truthy r.receipt_refs)) missing_receipts
                ++ (when (not r.dead_letter_on_failure) dead_letter_flag_unset
                    ++ (when (not (r.policy_outcome == r.required_outcome)) outcome_mismatch
                        ++ (when (is_high_risk r && r.policy_outcome == "allowed") high_risk_allowed
                            ++ when
                                (is_high_risk r
                                  && r.policy_outcome == "requires_approval"
                                  && not (contains strict_approvals r.approval_mode))
                                weak_approval))))))

unfoldable pub warnings_of : Reading → List EventWarning
unfolding is_high_risk
warnings_of r = when (is_high_risk r && r.policy_outcome == "denied") high_risk_denied

abbrev pub is_empty {ℓ} : {E : Type ℓ} → List E → Bool
is_empty [] = true
is_empty (_ ∷ _) = false

unfoldable pub state_of : String → Bool → QueueState
state_of outcome clean =
    if contains executable_outcomes outcome && clean
    then pending
    else if contains waiting_outcomes outcome && clean
    then waiting_approval
    else if contains blocking_outcomes outcome && clean
    then blocked
    else dead_letter

unfoldable pub decide : Reading → Decision
unfolding errors_of warnings_of state_of
decide r = record {
  valid = is_empty (errors_of r);
  state = state_of r.policy_outcome (is_empty (errors_of r));
  errors = errors_of r;
  warnings = warnings_of r;
  event_id = r.event_id;
  capability_id = r.capability_id;
  effect_class = r.effect_class;
  policy_outcome = r.policy_outcome;
  idempotency_key = r.idempotency_key;
  receipt_refs = r.receipt_refs;
}

module _ (text_of : Json → String) where
  unfoldable pub read_record : Object → Reading
  unfolding str_field sub_object or_else get_json is_true
  read_record entry =
      let event = sub_object "event" entry in
      let capability = sub_object "capability" entry in
      let reaction = sub_object "reaction" entry in
      record {
        event_id = str_field text_of "event_id" "" event;
        capability_id = str_field text_of "capability_id" "" capability;
        effect_class = str_field text_of "effect_class" "" capability;
        policy_outcome = str_field text_of "policy_outcome" "" reaction;
        required_outcome = str_field text_of "required_policy_outcome" "" capability;
        idempotency_key = str_field text_of "idempotency_key" "" (sub_object "causality" event);
        approval_mode = str_field text_of "approval_mode" "" capability;
        dead_letter_on_failure = is_true (get_json "dead_letter_on_failure" reaction);
        receipt_refs =
            or_else (get_json "evidence_refs" entry)
              (or_else (get_json "receipt_refs" reaction) (arr nil));
      }

  unfoldable pub validate_event_record : Object → Decision
  unfolding read_record decide
  validate_event_record entry = decide (read_record entry)
