-- ===== src/Examples/Records.antt =====
-- Contract records at concrete inputs.
use sourceos_syncd.Prelude.{String, ◌≡◌, ◌↔◌, refl, true, none, some, [], ◌∷◌, string_eq, contains}
use sourceos_syncd.Json.{Json, null, Object, str, arr, cons, nil, obj, fields, get_json, as_object}
use sourceos_syncd.Show.{to_str}
use sourceos_syncd.Policy.{PolicyDecision, default_boundary, decision_dict}
use sourceos_syncd.Contracts.Decisions.{unmet, validate_contract-decision}
use sourceos_syncd.Contracts.{
  missing, validate_contract, integrity_event_record, decision_card_options, check_extra,
  validate_dict, contract_in,
}
use sourceos_syncd.Contracts.Sound.{IsContract, validate_dict-none_iff}
use sourceos_syncd.Contracts.Build.{from_dict, built, from_dict-built}
use sourceos_syncd.Contracts.Card.{IsDecided, conflict_record-IsDecided}

abbrev no_text : Json → String
no_text j = ""

abbrev event : Object
event =
    ("event_id", str "e")
    ∷ ("event_type", str "t")
    ∷ ("occurred_at", str "o")
    ∷ ("summary", str "s")
    ∷ []

validate_dict-none_iff_example : (validate_dict no_text integrity_event_record event ≡ none) ↔ (
    IsContract no_text integrity_event_record event
    × (check_extra no_text integrity_event_record.extra_check event ≡ none))
validate_dict-none_iff_example = validate_dict-none_iff event no_text integrity_event_record

from_dict-built_example :
    (inst : Object) × (from_dict no_text integrity_event_record event ≡ built inst)
unfolding contract_in validate_dict string_eq
from_dict-built_example =
    from_dict-built no_text "sourceos.integrity-event/v1alpha1" integrity_event_record event refl
      refl

abbrev decision : PolicyDecision
decision = record {
  decision_id = "policy-0";
  action = "read";
  lane = "normal";
  status = "allowed";
  reason = "r";
  subject = "s";
  object_id = null;
  data_class = "internal";
  engine = "policy-fabric-local";
  generated_at = "t";
  boundary = default_boundary;
}

abbrev card : Object
card =
    ("card_id", str "c")
    ∷ ("options", arr (cons (str "merge") (cons (str "skip") nil)))
    ∷ ("recommended_option", str "merge")
    ∷ ("selected_option", str "skip")
    ∷ ("rationale", str "r")
    ∷ ("selected_by", str "u")
    ∷ ("selected_at", str "t")
    ∷ []

abbrev conflict : Object
conflict =
    ("conflict_id", str "c")
    ∷ ("object_id", str "o")
    ∷ ("object_type", str "t")
    ∷ ("workspace_id", str "w")
    ∷ ("profile_id", str "p")
    ∷ ("actors", arr nil)
    ∷ ("devices", arr nil)
    ∷ ("schema_version", str "1")
    ∷ ("severity", str "info")
    ∷ ("merge_policy", str "m")
    ∷ ("decision_card", obj (fields card))
    ∷ ("user_explanation", str "u")
    ∷ ("created_at", str "t")
    ∷ []

conflict_record-IsDecided_example :
    (found : Object) × (as_object (get_json "decision_card" conflict) ≡ some found)
    × IsDecided no_text found
    × (contains decision_card_options (to_str no_text (get_json "selected_option" found)) ≡ true)
unfolding validate_dict fields string_eq as_object
conflict_record-IsDecided_example = conflict_record-IsDecided no_text conflict refl

validate_contract-decision_example :
    validate_contract no_text (decision_dict decision) ≡ some (missing unmet)
validate_contract-decision_example = validate_contract-decision no_text decision
