-- ===== src/Scorecard/Parts.antt =====
-- What a scorecard was made from.
use mathlib.Core.Option
use mathlib.Core.Path.{subst}
use sourceos_syncd.Prelude.{String, Bool, some, List, ◌≡◌, refl, ap, sym}
use sourceos_syncd.Prelude.Signed.{ℤ}
use sourceos_syncd.Json.{Json, Object}
use sourceos_syncd.Reports.Checks.{Library, Complaint, bind_elim}
use sourceos_syncd.Reports.Validation.{validate_report}
use sourceos_syncd.Reports.Verify.{Verification, verify}
use sourceos_syncd.Reports.Diagnosis.{Diagnosis, failed_gravely, diagnose}
use sourceos_syncd.Scorecard.{
  Scorecard, count, gates_of, deductions, score_of, status_of, scorecard_of, disk_pressure,
  evaluate_scorecard,
}

module _ (lib : Library) (now : String) (r : Object) (card : Scorecard) where
  pub record Parts : Type 0 where
    pub errors : List Complaint
    pub verification : Verification
    pub diagnosis : Diagnosis
    pub disk : Json
    pub lag : ℤ
    pub attested : Bool
    pub is_errors : validate_report lib r ≡ some errors
    pub is_verification : verify lib r ≡ some verification
    pub is_diagnosis : diagnose lib r ≡ some diagnosis
    pub is_disk : disk_pressure r ≡ some disk
    pub is_status : card.status ≡ status_of card.gates card.score
    pub is_gates :
        card.gates
        ≡ gates_of errors diagnosis.status (count failed_gravely verification.invariants) disk
    pub is_score :
        card.score
        ≡ score_of (
            deductions card.dimensions.critical_failures card.dimensions.invariant_failures
              card.dimensions.invariant_warnings lag disk attested)

  pub evaluate_scorecard-Parts : evaluate_scorecard lib now r ≡ some card → Parts
  unfolding evaluate_scorecard scorecard_of
  evaluate_scorecard-Parts h = bind_elim h λ errors is_errors h1. bind_elim h1 λ v is_v h2.
      bind_elim h2 λ d is_d h3. bind_elim h3 λ _ _ h4. bind_elim h4 λ _ _ h5. bind_elim h5 λ _ _ h6.
        bind_elim h6 λ lag _ h7. bind_elim h7 λ disk is_disk h8.
          let e = Option.some-injective _ _ h8 in
          record {
            errors = errors;
            verification = v;
            diagnosis = d;
            disk = disk;
            lag = lag;
            attested = card.dimensions.attestation_signed;
            is_errors = is_errors;
            is_verification = is_v;
            is_diagnosis = is_d;
            is_disk = is_disk;
            is_status = subst (λ c. c.status ≡ status_of c.gates c.score) e refl;
            is_gates = ap (λ c. c.gates) (sym e);
            is_score =
                subst
                  (λ c.
                    c.score
                    ≡ score_of (
                        deductions c.dimensions.critical_failures c.dimensions.invariant_failures
                          c.dimensions.invariant_warnings lag disk c.dimensions.attestation_signed))
                  e refl;
          }
