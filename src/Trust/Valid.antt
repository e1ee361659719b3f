-- ===== src/Trust/Valid.antt =====
-- The decisions that `evaluate_trust` makes pass `validate_trust_decision`.
use mathlib.Core.Option
use sourceos_syncd.Prelude.{String, string_eq, not, some, [], ◌≡◌, refl, ap, ◌∙◌, sym}
use sourceos_syncd.Prelude.Dict
use sourceos_syncd.Json.{str, Object, get_json, in_set, is_text}
use sourceos_syncd.Show.{str_field}
use sourceos_syncd.Reports.Checks.{
  Library, Complaint, about, also-clean, flag, outside, lacks, is_bool, is_obj, bind_elim,
}
use sourceos_syncd.Evidence.Tamper.{digest_json-prefix}
use sourceos_syncd.Trust.{
  TrustRequest, TrustStatus, allowed, degraded_allowed, blocked, Reason, TrustEvidence,
  TrustDecision, trust_statuses, decision_of, evaluate_trust, status_name, as_dict,
  validate_trust_decision,
}

status_name-known :
    (s : TrustStatus) (c : Complaint)
    → outside (in_set trust_statuses (str (status_name s))) c ≡ some []
unfolding outside in_set string_eq
status_name-known allowed c = refl
status_name-known degraded_allowed c = refl
status_name-known blocked c = refl

module _ (lib : Library) (now : String) (evidence_dict : TrustEvidence → Object) (r : Object)
    (q : TrustRequest) where
  decision_of-validate :
      (v : TrustStatus × Reason) (e : TrustEvidence)
      → validate_trust_decision lib (as_dict evidence_dict (decision_of lib now r q v e)) ≡ some []
  unfolding validate_trust_decision as_dict decision_of string_eq get_json Dict.get Dict.has is_bool
      is_obj is_text lacks flag str_field
  decision_of-validate v e = also-clean refl (
      also-clean refl (
        also-clean (status_name-known v.0 (about "status" "is invalid")) (
          also-clean
            (ap (λ b. flag (not b) (about "report_digest" "must start with sha256:"))
              (digest_json-prefix lib r))
            (also-clean refl (also-clean refl refl)))))

  -- A decision that `evaluate_trust` makes passes `validate_trust_decision` when it is printed.
  pub evaluate_trust-validate :
      (d : TrustDecision)
      → evaluate_trust lib now r q ≡ some d
      → validate_trust_decision lib (as_dict evidence_dict d) ≡ some []
  unfolding evaluate_trust
  evaluate_trust-validate d h = bind_elim h λ errors _ h1. bind_elim h1 λ g _ h2.
      bind_elim h2 λ names _ h3. bind_elim h3 λ v _ h4.
        sym (
          ap (λ x. validate_trust_decision lib (as_dict evidence_dict x))
            (Option.some-injective _ _ h4))
        ∙ decision_of-validate v _
