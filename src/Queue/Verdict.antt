-- ===== src/Queue/Verdict.antt =====
-- What `validate_event_record` lets through.
use sourceos_syncd.Prelude.{
  String, ◌≡◌, ◌≢◌, ◌⊎◌, refl, ap, ◌∙◌, List, [], ◌∷◌, Bool, true, false, string_eq, contains,
  arith, Bool-cases, inl, inr, if◌then◌else◌,
}
use sourceos_syncd.Json.{Json, Object, truthy}
use sourceos_syncd.Queue.{
  QueueState, pending, waiting_approval, blocked, dead_letter, is_empty, Decision, Reading,
  is_high_risk, errors_of, state_of, decide, strict_approvals, executable_outcomes,
  waiting_outcomes, blocking_outcomes, read_record, validate_event_record,
}

-- The record is complete, and its outcome is the one that its capability requires.
pub record IsComplete (r : Reading) : Type 0 where
  pub event_id : r.event_id ≢ ""
  pub capability_id : r.capability_id ≢ ""
  pub idempotency_key : r.idempotency_key ≢ ""
  pub receipts : truthy r.receipt_refs ≡ true
  pub dead_letter_flag : r.dead_letter_on_failure ≡ true
  pub outcome : r.policy_outcome ≡ r.required_outcome

-- A high-risk effect is never allowed outright, and asks for a strict approval.
pub record IsGuarded (r : Reading) : Type 0 where
  pub never_allowed : is_high_risk r ≡ true → r.policy_outcome ≢ "allowed"
  pub strict :
      is_high_risk r ≡ true
      → r.policy_outcome ≡ "requires_approval"
      → contains strict_approvals r.approval_mode ≡ true

errors_of-IsComplete : (r : Reading) → errors_of r ≡ [] → IsComplete r
unfolding errors_of
errors_of-IsComplete r h = record {
  event_id = ground arith;
  capability_id = ground arith;
  idempotency_key = ground arith;
  receipts = ground arith;
  dead_letter_flag = ground arith;
  outcome = ground arith;
}

errors_of-IsGuarded : (r : Reading) → errors_of r ≡ [] → IsGuarded r
unfolding errors_of
errors_of-IsGuarded r h = record { never_allowed = ground arith; strict = ground arith }

errors_of-nil : (r : Reading) → IsComplete r → IsGuarded r → errors_of r ≡ []
unfolding errors_of
errors_of-nil r c g =
    let a = c.event_id in
    let b = c.capability_id in
    let d = c.idempotency_key in
    let e = c.receipts in
    let f = c.dead_letter_flag in
    let h = c.outcome in let i = g.never_allowed in let j = g.strict in ground arith

is_empty-nil {ℓ} : {E : Type ℓ} (es : List E) → is_empty es ≡ true → es ≡ []
is_empty-nil [] h = refl
is_empty-nil (e ∷ es) h = cc

state_of-dirty : (outcome : String) → state_of outcome false ≡ dead_letter
unfolding state_of
state_of-dirty outcome = ground arith

decide-clean : (r : Reading) → (decide r).state ≢ dead_letter → errors_of r ≡ []
unfolding decide
decide-clean r live = elim (Bool-cases (is_empty (errors_of r))) [
  | inl e ↦ is_empty-nil (errors_of r) e
  | inr e ↦ elim (live (ap (state_of r.policy_outcome) e ∙ state_of-dirty r.policy_outcome)) [ ]
]

state_of-pending :
    (outcome : String) (clean : Bool)
    → state_of outcome clean ≡ pending
    → (outcome ≡ "allowed") ⊎ (outcome ≡ "redacted")
unfolding state_of
state_of-pending outcome clean h = ground arith

state_of-waiting :
    (outcome : String) (clean : Bool)
    → state_of outcome clean ≡ waiting_approval
    → outcome ≡ "requires_approval"
unfolding state_of
state_of-waiting outcome clean h = ground arith

decide-redacted :
    (r : Reading)
    → is_high_risk r ≡ true
    → (decide r).state ≡ pending
    → r.policy_outcome ≡ "redacted"
unfolding decide
decide-redacted r risk h =
    let live : (decide r).state ≢ dead_letter = λ d. cc in
    let never = (errors_of-IsGuarded r (decide-clean r live)).never_allowed risk in
    elim (state_of-pending r.policy_outcome (is_empty (errors_of r)) h) [
      | inl e ↦ elim (never e) [ ]
      | inr e ↦ e
    ]

decide-strict :
    (r : Reading)
    → is_high_risk r ≡ true
    → (decide r).state ≡ waiting_approval
    → contains strict_approvals r.approval_mode ≡ true
unfolding decide
decide-strict r risk h =
    let live : (decide r).state ≢ dead_letter = λ d. cc in
    (errors_of-IsGuarded r (decide-clean r live)).strict risk
      (state_of-waiting r.policy_outcome (is_empty (errors_of r)) h)

-- The state that the outcome alone gives a record without errors.
abbrev pub lane : String → QueueState
lane outcome =
    if contains executable_outcomes outcome
    then pending
    else if contains waiting_outcomes outcome
    then waiting_approval
    else if contains blocking_outcomes outcome
    then blocked
    else dead_letter

module _ (text_of : Json → String) (entry : Object) where
  abbrev reading : Reading
  reading = read_record text_of entry

  abbrev verdict : Decision
  verdict = validate_event_record text_of entry

  -- A record that is complete and guarded goes where its outcome sends it, and is valid.
  pub validate_event_record-clean :
      IsComplete reading
      → IsGuarded reading
      → (verdict.valid ≡ true) × (verdict.state ≡ lane reading.policy_outcome)
  unfolding validate_event_record decide state_of
  validate_event_record-clean c g = let e = errors_of-nil reading c g in rw e (refl, ground arith)

  -- A record that is not dead-lettered is complete and guarded, and has no errors.
  pub validate_event_record-live :
      verdict.state ≢ dead_letter → IsComplete reading × IsGuarded reading × (verdict.errors ≡ [])
  unfolding validate_event_record decide
  validate_event_record-live live =
      let e = decide-clean reading live in
      (errors_of-IsComplete reading e, errors_of-IsGuarded reading e, e)

  -- A record of a high-risk effect that is ready to run has the outcome `redacted`, and one that waits
  -- for its approval asks for a strict one.
  pub validate_event_record-high_risk :
      is_high_risk reading ≡ true
      → (verdict.state ≡ pending → reading.policy_outcome ≡ "redacted")
        × (verdict.state ≡ waiting_approval
            → contains strict_approvals reading.approval_mode ≡ true)
  unfolding validate_event_record
  validate_event_record-high_risk risk = (decide-redacted reading risk, decide-strict reading risk)
