-- ===== src/Reports/Repair/Valid.antt =====
-- The plans that `repair_plan` makes pass `validate_repair_plan`.
use mathlib.Core.Option
use sourceos_syncd.Prelude.{
  ℕ, ◌+◌, String, Bool, true, false, not, ◌&&◌, some, List, [], ◌∷◌, ◌≡◌, refl, ap, ◌∙◌, sym, arith,
  string_eq, nat_beq,
}
use sourceos_syncd.Json.{Json, Object, items, entries, fields, get_json, in_set, is_text, truthy}
use sourceos_syncd.Prelude.Dict
use sourceos_syncd.Reports.Checks.{
  Library, Complaint, at, about, also-clean, flag, outside, is_bool, parse_text, parse_instant,
  bind_elim,
}
use sourceos_syncd.Reports.Shape.{severities}
use sourceos_syncd.Reports.Sections.{no_instant}
use sourceos_syncd.Reports.Diagnosis.{Diagnosis}
use sourceos_syncd.Reports.Verify.{Severity, info, warning, error, critical}
use sourceos_syncd.Reports.Repair.{
  StepText, steps_for, or_no_op, step_dict, numbered, severity_name, plan_dict, repair_plan, no_op,
}
use sourceos_syncd.Reports.Repair.Check.{
  check_steps, any_destructive, check_step_list, validate_repair_plan,
}

nat_beq_refl : (n : ℕ) → nat_beq n n ≡ true
nat_beq_refl n = ground arith

-- A step that is made for its place passes there.
check_steps-numbered :
    (index order : ℕ) (ss : List StepText)
    → check_steps index order (items (numbered order ss)) ≡ some []
unfolding check_steps numbered step_dict string_eq get_json entries items flag is_bool Dict.has
check_steps-numbered index order [] = refl
check_steps-numbered index order (s ∷ ss) = also-clean refl (
    also-clean (ap (λ b. flag (not b) (at "steps" index "order")) (nat_beq_refl order))
      (also-clean refl (check_steps-numbered (index + 1) (order + 1) ss)))

any_destructive-numbered :
    (order : ℕ) (ss : List StepText) → any_destructive (items (numbered order ss)) ≡ false
unfolding numbered step_dict string_eq truthy items get_json entries
any_destructive-numbered order [] = refl
any_destructive-numbered order (s ∷ ss) = any_destructive-numbered (order + 1) ss

no_flag : (preview b : Bool) → b ≡ false → (preview && b) ≡ false
no_flag preview b h = ground arith

check_step_list-cons :
    (s : StepText) (ss : List StepText) (preview : Bool)
    → check_step_list (Json.arr (numbered 1 (s ∷ ss))) preview ≡ some []
unfolding numbered flag
check_step_list-cons s ss preview = also-clean (check_steps-numbered 0 1 (s ∷ ss)) (
    ap (λ b. flag b (about "steps" "mutate in a preview"))
      (no_flag preview _ (any_destructive-numbered 1 (s ∷ ss))))

check_step_list-numbered :
    (ss : List StepText) (preview : Bool)
    → check_step_list (Json.arr (numbered 1 (or_no_op ss))) preview ≡ some []
check_step_list-numbered [] preview = check_step_list-cons no_op [] preview
check_step_list-numbered (s ∷ ss) preview = check_step_list-cons s ss preview

-- The severities of a diagnosis are among those that a plan may have.
severity_name-known :
    (s : Severity) (c : Complaint)
    → outside (in_set severities (Json.str (severity_name s))) c ≡ some []
unfolding outside in_set string_eq
severity_name-known info c = refl
severity_name-known warning c = refl
severity_name-known error c = refl
severity_name-known critical c = refl

module _ (lib : Library) (now id : String) (r identity policy : Object) (d : Diagnosis) where
  plan_dict-validate :
      (ss : List StepText) (instant : String)
      → parse_text lib now ≡ some instant
      → validate_repair_plan lib (plan_dict now id r identity policy d (numbered 1 (or_no_op ss)))
        ≡ some []
  unfolding validate_repair_plan plan_dict string_eq get_json entries fields Dict.get Dict.has flag
      is_bool in_set outside parse_instant is_text
  plan_dict-validate ss instant hnow = also-clean refl (
      also-clean refl (
        also-clean
          (ap (λ t. no_instant (some t) (about "generated_at" "must be an ISO-8601 timestamp"))
            hnow)
          (also-clean refl (
            also-clean (severity_name-known d.severity (about "severity" "is invalid"))
              (also-clean refl (check_step_list-numbered ss true))))))

module _ (lib : Library) (plan_id : Diagnosis → String) (now : String) (r plan : Object) where
  -- A plan that `repair_plan` makes passes `validate_repair_plan`, for every report it can be made
  -- for, if the time of its making can be read.
  pub repair_plan-validate :
      (instant : String)
      → parse_text lib now ≡ some instant
      → repair_plan lib plan_id now r ≡ some plan
      → validate_repair_plan lib plan ≡ some []
  unfolding repair_plan steps_for
  repair_plan-validate instant hnow h = bind_elim h λ d _ h1. bind_elim h1 λ _ _ h2.
      bind_elim h2 λ pressed _ h3. bind_elim h3 λ identity _ h4. bind_elim h4 λ policy _ h5.
        sym (ap (validate_repair_plan lib) (Option.some-injective _ _ h5))
        ∙ plan_dict-validate lib now (plan_id d) r identity policy d _ instant hnow
