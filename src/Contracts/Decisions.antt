-- ===== src/Contracts/Decisions.antt =====
-- The decisions of the policy evaluator, whose schema is in the table of contract types.
use sourceos_syncd.Prelude.{String, ◌≡◌, refl, some, List, [], ◌∷◌, string_eq}
use sourceos_syncd.Json.{Json, get_json}
use sourceos_syncd.Policy.{PolicyDecision, decision_dict}
use sourceos_syncd.Contracts.{
  missing, require_fields, contract_in, validate_dict, validate_schema, validate_contract,
}

abbrev pub unmet : List String
unmet =
    "effect" ∷ "policy_id" ∷ "policy_version" ∷ "actor_id" ∷ "profile_id" ∷ "workspace_id"
    ∷ "rationale" ∷ "decided_at" ∷ []

-- The validator refuses every decision of the policy evaluator: the decision carries the schema of
-- `PolicyDecisionRecord`, but eight of the keys which that class requires are missing.
pub validate_contract-decision :
    (text_of : Json → String) (d : PolicyDecision)
    → validate_contract text_of (decision_dict d) ≡ some (missing unmet)
unfolding validate_contract validate_schema validate_dict contract_in require_fields decision_dict
    get_json string_eq
validate_contract-decision text_of d = refl
