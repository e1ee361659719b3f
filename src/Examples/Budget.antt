-- ===== src/Examples/Budget.antt =====
-- The noise budget and the policy at concrete inputs.
use sourceos_syncd.Show.{str_field}
use sourceos_syncd.Prelude.{
  ◌≢◌, map, String, ◌≡◌, ◌↔◌, refl, none, some, List, [], ◌∷◌, arith, string_eq,
}
use sourceos_syncd.Json.{Json, Object, str}
use sourceos_syncd.NoiseBudget.{default_config, new_engine, is_critical, ingest_all}
use sourceos_syncd.NoiseBudget.Repeats.{answer, each, ingest_all-repeats}
use sourceos_syncd.Policy.{
  ask_service, evaluate_remotely, evaluate_fetched, or_locally, Fetched, malformed, failed,
  PolicyRequest, evaluate_locally, evaluate_policy, decision_dict,
}
use sourceos_syncd.Policy.Report.{evaluate_report_policy, lane_decisions, checked_decision}
use sourceos_syncd.Policy.Boundary.{IsReport, evaluate_report_policy-IsReport}
use sourceos_syncd.Policy.Local.{IsPermitted, evaluate_locally-allowed_iff}

abbrev no_digest : Object → String
no_digest payload = "0"

abbrev no_text : Json → String
no_text j = ""

abbrev offline : String → PolicyRequest → Fetched
offline url r = failed

abbrev ping : Object
ping = ("kind", str "ping") ∷ ("source", str "net") ∷ []

abbrev violation : Object
violation = ("kind", str "policy-violation") ∷ []

abbrev twelve : List String
twelve = "a" ∷ "b" ∷ "c" ∷ "d" ∷ "e" ∷ "f" ∷ "g" ∷ "h" ∷ "i" ∷ "j" ∷ "k" ∷ "l" ∷ []

ingest_all-repeats_example :
    map answer (ingest_all no_digest (each ping twelve) (new_engine default_config)).1 ≡ (
      some 1
      ∷ some 2
      ∷ some 3
      ∷ some 4
      ∷ some 5
      ∷ some 6
      ∷ some 7
      ∷ some 8
      ∷ some 9
      ∷ some 10
      ∷ none
      ∷ none
      ∷ [])
unfolding is_critical string_eq
ingest_all-repeats_example =
    ingest_all-repeats no_digest ping default_config twelve refl (omega arith)

abbrev leak : PolicyRequest
leak = record {
  action = "replicate";
  lane = "normal";
  subject = "s";
  object_id = none;
  data_class = "secret";
  context = [];
}

evaluate_locally-allowed_iff_example :
    ((evaluate_locally no_digest no_text offline "t" leak).status ≡ "allowed") ↔ IsPermitted leak
evaluate_locally-allowed_iff_example =
    evaluate_locally-allowed_iff no_digest no_text offline "t" leak

abbrev lanes : List Object
lanes = (("name", str "secure") ∷ []) ∷ []

offline_fails : failed ≢ malformed
offline_fails e = cc

evaluate_report_policy-IsReport_example :
    IsReport 4 (evaluate_report_policy no_digest no_text offline "t" (some "http://p") lanes "s")
evaluate_report_policy-IsReport_example =
    evaluate_report_policy-IsReport no_digest no_text offline "t" (some "http://p") lanes "s"
      (λ r. offline_fails)

-- A URL without a scheme: making the request raises.
abbrev refused : String → PolicyRequest → Fetched
refused url r = malformed

report_raises :
    evaluate_report_policy no_digest no_text refused "t" (some "policy") lanes "s" ≡ none
unfolding evaluate_report_policy lane_decisions checked_decision evaluate_policy ask_service
    evaluate_remotely evaluate_fetched or_locally str_field string_eq
report_raises = refl

abbrev decided : List Object
decided = decision_dict (evaluate_locally no_digest no_text offline "t" leak) ∷ []
