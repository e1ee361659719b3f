-- ===== src/Reports/Diagnosis/Soundness.antt =====
-- How the status of a diagnosis follows from the report.
use mathlib.Core.Option
use sourceos_syncd.Prelude.{
  String, Bool, true, false, not, ◌&&◌, ◌||◌, some, string_eq, List, [], ◌∷◌, ◌≡◌, refl, ap, ◌∙◌,
  sym, arith, any_of, if◌then◌else◌,
}
use sourceos_syncd.Json.{Object}
use sourceos_syncd.Reports.Checks.{Library, Complaint, bind_elim}
use sourceos_syncd.Reports.Validation.{validate_report}
use sourceos_syncd.Reports.Verify.{
  Status, pass, warn, fail, Severity, critical, error, warning, info, Evidence, Invariant,
  Verification, judged, is_nil, contract_invariant, heartbeat_invariant, lag_invariant,
  shadow_invariant, disk_invariant, dirty_open_invariant, worse, worst, verify,
}
use sourceos_syncd.Reports.Diagnosis.Pressure.{reported_pressure, is_grave_pressure, disk-failed}
use sourceos_syncd.Reports.Diagnosis.{
  is_healthy, is_unsafe, Health, healthy, degraded, unsafe, Diagnosis, is_pass, is_fail, is_warn,
  is_grave, failed, warned, failed_gravely, health_of, diagnosis_of, diagnose,
}

worse-pass : (s t : Status) → is_pass (worse s t) ≡ is_pass s && is_pass t
worse-pass pass t = refl
worse-pass warn pass = refl
worse-pass warn warn = refl
worse-pass warn fail = refl
worse-pass fail t = refl

is_pass-not : (s : Status) → is_pass s ≡ not (is_fail s || is_warn s)
is_pass-not pass = refl
is_pass-not warn = refl
is_pass-not fail = refl

no_more : (a b c d : Bool) → (not (a || b) && not (c || d)) ≡ not ((a || c) || (b || d))
no_more true b c d = refl
no_more false true true d = refl
no_more false true false d = refl
no_more false false true d = refl
no_more false false false d = refl

passes_all : (is : List Invariant) → is_pass (worst is) ≡ not (any_of failed is || any_of warned is)
unfolding worst
passes_all [] = refl
passes_all (i ∷ is) =
    worse-pass i.status (worst is)
    ∙ ap (λ b. b && is_pass (worst is)) (is_pass-not i.status)
    ∙ ap (λ b. not (failed i || warned i) && b) (passes_all is)
    ∙ no_more (failed i) (warned i) (any_of failed is) (any_of warned is)

grave_fails : (is : List Invariant) → any_of failed_gravely is ≡ true → any_of failed is ≡ true
grave_fails [] h = h
grave_fails (i ∷ is) h = ground (arith, grave_fails is)

graded : Bool → Bool → Bool → Health × Severity
graded grave fails warns =
    if grave
    then (unsafe, critical)
    else if fails
    then (degraded, error)
    else if warns
    then (degraded, warning)
    else (healthy, info)

graded-healthy :
    (grave fails warns : Bool)
    → (grave ≡ true → fails ≡ true)
    → is_healthy (graded grave fails warns).0 ≡ not (fails || warns)
unfolding graded
graded-healthy grave fails warns h = ground arith

health_of-worst : (is : List Invariant) → is_healthy (health_of is).0 ≡ is_pass (worst is)
unfolding health_of graded
health_of-worst is =
    graded-healthy (any_of failed_gravely is) (any_of failed is) (any_of warned is) (grave_fails is)
    ∙ sym (passes_all is)

health_of-grave : (is : List Invariant) → is_unsafe (health_of is).0 ≡ any_of failed_gravely is
unfolding health_of
health_of-grave is = ground arith

module _ (lib : Library) (r : Object) (d : Diagnosis) where
  -- The status of a diagnosis is that of the invariants which `verify` finds.
  diagnose_split :
      diagnose lib r ≡ some d
      → (v : Verification) × (verify lib r ≡ some v) × (d.status ≡ (health_of v.invariants).0)
  unfolding diagnose diagnosis_of
  diagnose_split h = bind_elim h λ v v-verify h1. bind_elim h1 λ _ _ h2. bind_elim h2 λ _ _ h3.
      bind_elim h3 λ _ _ h4. bind_elim h4 λ _ _ h5. bind_elim h5 λ _ _ h6.
        bind_elim h6
          λ _ _ h7. (v, v-verify, ap (λ x. x.status) (sym (Option.some-injective _ _ h7)))

  verify-worst : {v : Verification} → verify lib r ≡ some v → v.status ≡ worst v.invariants
  unfolding verify
  verify-worst h = bind_elim h λ _ _ h1. bind_elim h1 λ _ _ h2. bind_elim h2 λ _ _ h3.
      bind_elim h3 λ _ _ h4. bind_elim h4 λ _ _ h5. bind_elim h5 λ _ _ h6.
        let e = Option.some-injective _ _ h6 in
        ap (λ x. x.status) (sym e) ∙ ap (λ x. worst x.invariants) e

  -- A diagnosis is healthy exactly if the verification of the same report passes.
  pub diagnose-healthy_if_pass :
      (v : Verification)
      → verify lib r ≡ some v
      → diagnose lib r ≡ some d
      → is_healthy d.status ≡ is_pass v.status
  diagnose-healthy_if_pass v hv hd =
      let (w, hw, status) = diagnose_split hd in
      let same = Option.some-injective _ _ (sym hw ∙ hv) in
      ap is_healthy status
      ∙ health_of-worst w.invariants
      ∙ ap is_pass (sym (verify-worst hw))
      ∙ ap (λ x. is_pass x.status) same

-- What is judged with a lesser severity is no critical failure.
not_grave :
    (id : String) (holds : Bool) (status : Status) (severity : Severity) (evidence : Evidence)
    (remediation : String) {i : Invariant}
    → some (judged id holds status severity evidence remediation) ≡ some i
    → is_grave severity ≡ false
    → failed_gravely i ≡ false
unfolding judged
not_grave id true status severity evidence remediation h n =
    ap failed_gravely (sym (Option.some-injective _ _ h))
not_grave id false status severity evidence remediation h n =
    ap failed_gravely (sym (Option.some-injective _ _ h)) ∙ rw n refl

grave_judged :
    (id : String) (holds : Bool) (evidence : Evidence) (remediation : String) {i : Invariant}
    → some (judged id holds fail critical evidence remediation) ≡ some i
    → failed_gravely i ≡ is_fail i.status
unfolding judged
grave_judged id true evidence remediation h =
    let e = Option.some-injective _ _ h in ap failed_gravely (sym e) ∙ ap (λ x. is_fail x.status) e
grave_judged id false evidence remediation h =
    let e = Option.some-injective _ _ h in ap failed_gravely (sym e) ∙ ap (λ x. is_fail x.status) e

module _ (lib : Library) (r : Object) (i : Invariant) where
  heartbeat-not_grave : heartbeat_invariant lib r ≡ some i → failed_gravely i ≡ false
  unfolding heartbeat_invariant
  heartbeat-not_grave h =
      bind_elim h
        λ _ _ h1. bind_elim h1 λ _ _ h2. bind_elim h2 λ _ _ h3. not_grave _ _ _ _ _ _ h3 refl

  lag-not_grave : lag_invariant lib r ≡ some i → failed_gravely i ≡ false
  unfolding lag_invariant
  lag-not_grave h = bind_elim h λ _ _ h1. bind_elim h1 λ _ _ h2. not_grave _ _ _ _ _ _ h2 refl

module _ (r : Object) (i : Invariant) where
  shadow-not_grave : shadow_invariant r ≡ some i → failed_gravely i ≡ false
  unfolding shadow_invariant
  shadow-not_grave h = bind_elim h λ _ _ h1. bind_elim h1 λ _ _ h2. not_grave _ _ _ _ _ _ h2 refl

  dirty_open-not_grave : dirty_open_invariant r ≡ some i → failed_gravely i ≡ false
  unfolding dirty_open_invariant
  dirty_open-not_grave h = bind_elim h λ _ _ h1. not_grave _ _ _ _ _ _ h1 refl

  disk-grave : disk_invariant r ≡ some i → failed_gravely i ≡ is_fail i.status
  unfolding disk_invariant
  disk-grave h = bind_elim h λ _ _ h1. bind_elim h1 λ bad _ h2. grave_judged _ _ _ _ h2

among_six :
    (a e x : Bool) {b c d f : Bool}
    → b ≡ false
    → c ≡ false
    → d ≡ false
    → e ≡ x
    → f ≡ false
    → (a || (b || (c || (d || (e || (f || false)))))) ≡ a || x
among_six a e x hb hc hd he hf = rw hb (rw hc (rw hd (rw hf (rw he (ground arith)))))

-- Without the two tests that are critical, nothing else is.
any_grave :
    (a b c d e f : Invariant)
    → failed_gravely b ≡ false
    → failed_gravely c ≡ false
    → failed_gravely d ≡ false
    → failed_gravely e ≡ is_fail e.status
    → failed_gravely f ≡ false
    → any_of failed_gravely (a ∷ b ∷ c ∷ d ∷ e ∷ f ∷ []) ≡ failed_gravely a || is_fail e.status
any_grave a b c d e f hb hc hd he hf =
    among_six (failed_gravely a) (failed_gravely e) (is_fail e.status) hb hc hd he hf

contract-grave :
    (errors : List Complaint) → failed_gravely (contract_invariant errors) ≡ not (is_nil errors)
unfolding contract_invariant judged
contract-grave [] = refl
contract-grave (c ∷ cs) = refl

module _ (lib : Library) (r : Object) (d : Diagnosis) where
  verify-grave :
      {v : Verification} {errors : List Complaint} {pressure : Invariant}
      → validate_report lib r ≡ some errors
      → disk_invariant r ≡ some pressure
      → verify lib r ≡ some v
      → any_of failed_gravely v.invariants ≡ not (is_nil errors) || failed pressure
  unfolding verify
  verify-grave {errors = errors} {pressure = pressure} he hp h = bind_elim h λ errors' e1 h1.
      bind_elim h1 λ i2 e2 h2. bind_elim h2 λ i3 e3 h3. bind_elim h3 λ i4 e4 h4.
        bind_elim h4 λ i5 e5 h5. bind_elim h5 λ i6 e6 h6.
          ap (λ x. any_of failed_gravely x.invariants) (sym (Option.some-injective _ _ h6))
          ∙ any_grave (contract_invariant errors') i2 i3 i4 i5 i6 (heartbeat-not_grave lib r i2 e2)
              (lag-not_grave lib r i3 e3) (shadow-not_grave r i4 e4) (disk-grave r i5 e5)
              (dirty_open-not_grave r i6 e6)
          ∙ ap (λ b. b || failed i5) (contract-grave errors')
          ∙ ap (λ x. not (is_nil x) || failed i5) (Option.some-injective _ _ (sym e1 ∙ he))
          ∙ ap (λ x. not (is_nil errors) || failed x) (Option.some-injective _ _ (sym e5 ∙ hp))

  pub verify-disk :
      {v : Verification} → verify lib r ≡ some v → (i : Invariant) × (disk_invariant r ≡ some i)
  unfolding verify
  verify-disk h = bind_elim h λ _ _ h1.
      bind_elim h1
        λ _ _ h2. bind_elim h2 λ _ _ h3. bind_elim h3 λ _ _ h4. bind_elim h4 λ i e _. (i, e)

  -- A diagnosis is unsafe exactly if some invariant failed critically.
  pub diagnose-grave :
      {v : Verification}
      → verify lib r ≡ some v
      → diagnose lib r ≡ some d
      → is_unsafe d.status ≡ any_of failed_gravely v.invariants
  diagnose-grave hv hd =
      let (w, hw, status) = diagnose_split lib r d hd in
      ap is_unsafe status
      ∙ health_of-grave w.invariants
      ∙ ap (λ x. any_of failed_gravely x.invariants) (Option.some-injective _ _ (sym hw ∙ hv))

  -- A diagnosis is unsafe exactly if the report breaks its contract or the disk's test failed.
  pub diagnose-grave_if_failed :
      (errors : List Complaint) (pressure : Invariant)
      → validate_report lib r ≡ some errors
      → disk_invariant r ≡ some pressure
      → diagnose lib r ≡ some d
      → is_unsafe d.status ≡ not (is_nil errors) || is_fail pressure.status
  diagnose-grave_if_failed errors pressure he hp hd =
      let (v, hv, status) = diagnose_split lib r d hd in
      ap is_unsafe status ∙ health_of-grave v.invariants ∙ verify-grave he hp hv

  -- A diagnosis is unsafe exactly if the report breaks its contract or the disk's pressure in the
  -- report is critical, unknown or missing, whatever else the report says.
  pub diagnose-unsafe_if_grave :
      (errors : List Complaint)
      → validate_report lib r ≡ some errors
      → diagnose lib r ≡ some d
      → is_unsafe d.status ≡ not (is_nil errors) || is_grave_pressure (reported_pressure r)
  diagnose-unsafe_if_grave errors he hd =
      let (v, hv, status) = diagnose_split lib r d hd in
      let (i, is_i) = verify-disk hv in
      diagnose-grave_if_failed errors i he is_i hd
      ∙ ap (λ b. not (is_nil errors) || b) (disk-failed r i is_i)
