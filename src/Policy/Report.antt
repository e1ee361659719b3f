-- ===== src/Policy/Report.antt =====
-- `evaluate_report_policy`, `decision_counts` and `policy_summary`.
use sourceos_syncd.Prelude.{
  zero, ℕ, ◌+◌, suc, String, Option, none, some, List, [], ◌∷◌, ◌++◌, all_of, ◌==◌, string_eq,
  if◌then◌else◌,
}
use sourceos_syncd.Json.{Json, Object}
use sourceos_syncd.Show.{str_field}
use sourceos_syncd.Policy.{
  PolicyRequest, PolicyDecision, Fetched, decision_dict, validate_decision_boundary,
  evaluate_policy,
}

abbrev pub report_actions : List String
report_actions = "index" ∷ "retain" ∷ "replicate" ∷ "agent_access" ∷ []

pub record Counts : Type 0 where
  pub allowed : ℕ
  pub denied : ℕ
  pub redacted : ℕ
  pub deferred : ℕ

abbrev pub no_counts : Counts
no_counts = record { allowed = 0; denied = 0; redacted = 0; deferred = 0 }

-- `counts[status] += 1`, with an unknown status counted as deferred.
unfoldable pub count_status : String → Counts → Counts
count_status status c =
    if status == "allowed"
    then record c { allowed = c.allowed + 1 }
    else if status == "denied"
    then record c { denied = c.denied + 1 }
    else if status == "redacted"
    then record c { redacted = c.redacted + 1 }
    else record c { deferred = c.deferred + 1 }

abbrev pub total : Counts → ℕ
total c = c.allowed + c.denied + c.redacted + c.deferred

-- `decisions[:n]`
abbrev pub take : ℕ → List Object → List Object
take zero ds = []
take (suc n) [] = []
take (suc n) (d ∷ ds) = d ∷ take n ds

-- The decisions so far; `none` is a `ValueError`, of the boundary or of the URL.
unfoldable pub checked : Object → Option (List Object) → Option (List Object)
checked d rest =
    if validate_decision_boundary d
    then elim rest [ none ↦ none | some ds ↦ some (d ∷ ds) ]
    else none

unfoldable pub checked_decision :
    Option PolicyDecision → Option (List Object) → Option (List Object)
unfolding checked
checked_decision none rest = none
checked_decision (some d) rest = checked (decision_dict d) rest

abbrev pub join : Option (List Object) → Option (List Object) → Option (List Object)
join none b = none
join (some a) none = none
join (some a) (some b) = some (a ++ b)

module _ (text_of : Json → String) where
  unfoldable pub count_from : List Object → Counts → Option Counts
  unfolding count_status
  count_from [] c = some c
  count_from (d ∷ ds) c =
      let rest = count_from ds (count_status (str_field text_of "status" "deferred" d) c) in
      if validate_decision_boundary d then rest else none

  unfoldable pub decision_counts : List Object → Option Counts
  unfolding count_from
  decision_counts ds = count_from ds no_counts

  -- The counts and the sample.
  unfoldable pub policy_summary : List Object → ℕ → Option (Counts × List Object)
  unfolding decision_counts
  policy_summary ds limit =
      if all_of validate_decision_boundary ds
      then elim (decision_counts ds) [ none ↦ none | some c ↦ some (c, take limit ds) ]
      else none

abbrev pub report_request : String → String → String → PolicyRequest
report_request action lane subject = record {
  action = action;
  lane = lane;
  subject = subject;
  object_id = none;
  data_class = "internal";
  context = [];
}

module _ (digest : Object → String) (text_of : Json → String)
    (fetch : String → PolicyRequest → Fetched) (now : String) (url : Option String) where
  unfoldable pub lane_decisions : String → String → List String → Option (List Object)
  unfolding checked_decision
  lane_decisions lane subject [] = some []
  lane_decisions lane subject (action ∷ rest) =
      checked_decision
        (evaluate_policy digest text_of fetch now url (report_request action lane subject))
        (lane_decisions lane subject rest)

  unfoldable pub evaluate_report_policy : List Object → String → Option (List Object)
  unfolding lane_decisions str_field
  evaluate_report_policy [] subject = some []
  evaluate_report_policy (lane ∷ lanes) subject =
      join (lane_decisions (str_field text_of "name" "normal" lane) subject report_actions)
        (evaluate_report_policy lanes subject)
