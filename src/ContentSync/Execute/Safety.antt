-- ===== src/ContentSync/Execute/Safety.antt =====
-- What a run of a plan may have done, whatever the machine does.
use mathlib.Core.List.{append_assoc, append-nil}
use sourceos_syncd.Prelude.{
  String, ◌≡◌, ◌≢◌, ◌↔◌, ◌⊎◌, inl, inr, refl, ◌∙◌, Bool, true, false, not, ◌&&◌, List, [], ◌∷◌,
  ◌++◌, arith, all_of, keep, Bool-cases,
}
use sourceos_syncd.Json.{is_zero}
use sourceos_syncd.ContentSync.{Gate, ContentSyncPlan, ContentViewSyncer}
use sourceos_syncd.ContentSync.Execute.{
  Status, Process, returned, expired, crashed, Machine, StepResult, plain, lacks_tool, Progress,
  record_process, run_step, run_steps, Outcome, is_fine, outcome_of, Stamp, refusal, finished,
  execute,
}

abbrev pub exited_zero : Process → Bool
exited_zero (returned code out err) = is_zero code
exited_zero expired = false
exited_zero crashed = false

-- The steps but for those of nix and nixos-rebuild whose program is not there.
abbrev pub runnable : Machine → List String → List String
runnable h steps = keep (λ s. not (lacks_tool h s)) steps

-- Each command, run after those before it, exits with 0.
abbrev pub AllExitZero : Machine → List String → List String → Type 0
AllExitZero h ran [] = Unit
AllExitZero h ran (c ∷ cs) =
    (exited_zero (h.shell ran c) ≡ true) × AllExitZero h (ran ++ (c ∷ [])) cs

all_of-append :
    {A : Type 0} (p : A → Bool) (xs ys : List A)
    → all_of p (xs ++ ys) ≡ (all_of p xs && all_of p ys)
all_of-append p [] ys = refl
all_of-append p (x ∷ xs) ys = ground (arith, all_of-append p xs ys)

abbrev progress : List StepResult → Bool → List String → Progress
progress results aborted ran = record { results = results; aborted = aborted; ran = ran }

module _ (h : Machine) where
  -- An aborted run stays aborted, and runs nothing more.
  run_steps-aborted :
      (dry : Bool) (steps : List String) (rs : List StepResult) (ran : List String)
      → ((run_steps h dry steps (progress rs true ran)).aborted ≡ true)
        × ((run_steps h dry steps (progress rs true ran)).ran ≡ ran)
  unfolding run_steps run_step
  run_steps-aborted dry [] rs ran = (refl, refl)
  run_steps-aborted dry (s ∷ steps) rs ran = run_steps-aborted dry steps _ ran

  -- An aborted run is not "applied".
  aborted_run :
      (steps : List String) (rs : List StepResult) (ran : List String)
      → outcome_of false (run_steps h false steps (progress rs true ran)) ≢ Outcome.applied
  unfolding outcome_of
  aborted_run steps rs ran e = ground (arith, run_steps-aborted false steps rs ran)

  -- The step of the induction, on how the command ends.
  applied_after :
      (s : String) (steps : List String) (rs : List StepResult) (ran : List String)
      (process : Process)
      → all_of is_fine rs ≡ true
      → ((qs : List StepResult)
          → all_of is_fine qs ≡ true
          → (outcome_of false (run_steps h false steps (progress qs false (ran ++ s ∷ [])))
              ≡ Outcome.applied)
            ↔ AllExitZero h (ran ++ s ∷ []) (runnable h steps))
      → (outcome_of false
            (run_steps h false steps (record_process s process (progress rs false ran)))
          ≡ Outcome.applied)
        ↔ ((exited_zero process ≡ true) × AllExitZero h (ran ++ s ∷ []) (runnable h steps))
  unfolding record_process
  applied_after s steps rs ran crashed f ih = (λ h. absurd (aborted_run steps _ _ h), λ (z, _). cc)
  applied_after s steps rs ran expired f ih = (λ h. absurd (aborted_run steps _ _ h), λ (z, _). cc)
  applied_after s steps rs ran (returned code out err) f ih = elim (Bool-cases (is_zero code)) [
    | inl z ↦
        rw z (
          let iff = ih _ (rw (all_of-append, f)) in (λ o. (refl, iff.0 o), λ (_, rest). iff.1 rest))
    | inr z ↦ rw z (λ o. absurd (aborted_run steps _ _ o), λ (z', _). cc)
  ]

  run_steps-applied :
      (steps : List String) (rs : List StepResult) (ran : List String)
      → all_of is_fine rs ≡ true
      → (outcome_of false (run_steps h false steps (progress rs false ran)) ≡ Outcome.applied)
        ↔ AllExitZero h ran (runnable h steps)
  unfolding run_steps run_step
  run_steps-applied [] rs ran f = unfold outcome_of in ground arith
  run_steps-applied (s ∷ steps) rs ran f = elim (Bool-cases (lacks_tool h s)) [
    | inl e ↦ rw e (run_steps-applied steps _ ran (rw (all_of-append, f)))
    | inr e ↦ rw e (
        applied_after s steps rs ran (h.shell ran s) f
          (λ qs. run_steps-applied steps qs (ran ++ s ∷ [])))
  ]

  run_step-skips :
      (s : String) (rs : List StepResult) (ran : List String)
      → lacks_tool h s ≡ true
      → run_step h false s (progress rs false ran)
        ≡ progress (rs ++ plain s Status.skipped ∷ []) false ran
  unfolding run_step
  run_step-skips s rs ran e = rw e

  run_step-runs :
      (s : String) (rs : List StepResult) (ran : List String)
      → lacks_tool h s ≡ false
      → run_step h false s (progress rs false ran)
        ≡ record_process s (h.shell ran s) (progress rs false ran)
  unfolding run_step
  run_step-runs s rs ran e = rw e

  ran_after :
      (s : String) (steps : List String) (rs : List StepResult) (ran : List String)
      (process : Process)
      → (exited_zero process ≡ true) × AllExitZero h (ran ++ s ∷ []) (runnable h steps)
      → ((qs : List StepResult)
          → AllExitZero h (ran ++ s ∷ []) (runnable h steps)
          → (run_steps h false steps (progress qs false (ran ++ s ∷ []))).ran
            ≡ (ran ++ s ∷ []) ++ runnable h steps)
      → (run_steps h false steps (record_process s process (progress rs false ran))).ran
        ≡ ran ++ s ∷ runnable h steps
  unfolding record_process
  ran_after s steps rs ran expired (z, _) ih = cc
  ran_after s steps rs ran crashed (z, _) ih = cc
  ran_after s steps rs ran (returned code out err) (z, rest) ih =
      rw z (ih _ rest ∙ append_assoc ran (s ∷ []) (runnable h steps))

  run_steps-ran :
      (steps : List String) (rs : List StepResult) (ran : List String)
      → AllExitZero h ran (runnable h steps)
      → (run_steps h false steps (progress rs false ran)).ran ≡ ran ++ runnable h steps
  unfolding run_steps
  run_steps-ran [] rs ran z = rw append-nil
  run_steps-ran (s ∷ steps) rs ran z = elim (Bool-cases (lacks_tool h s)) [
    | inl e ↦ rw (run_steps, run_step-skips s rs ran e, e) (run_steps-ran steps _ ran (rw e at z))
    | inr e ↦
        rw (run_steps, run_step-runs s rs ran e, e)
          (ran_after s steps rs ran (h.shell ran s) (rw e at z)
            (λ qs. run_steps-ran steps qs (ran ++ s ∷ [])))
  ]

  run_steps-dry :
      (steps : List String) (rs : List StepResult)
      → (run_steps h true steps (progress rs false [])).ran ≡ []
  unfolding run_steps run_step
  run_steps-dry [] rs = refl
  run_steps-dry (s ∷ steps) rs = run_steps-dry steps _

module _ (h : Machine) (s : ContentViewSyncer) (stamp : Stamp) (plan : ContentSyncPlan) where
  -- A plan whose gate is not "allowed" runs no command, and a dry run runs none either.
  pub execute-ran_nothing :
      (dry : Bool)
      → (plan.policy_gate ≢ Gate.allowed) ⊎ (dry ≡ true)
      → (execute h s stamp dry plan).ran ≡ []
  unfolding execute finished
  execute-ran_nothing dry (inl refused) = ground arith
  execute-ran_nothing dry (inr d) = rw d (ground (arith, run_steps-dry h plan.steps []))

  -- A real run of an allowed plan is "applied" exactly if each step exits with 0, each run after those
  -- before it, but for the steps of nix and of nixos-rebuild where these programs are not on the path:
  -- those are passed over.
  pub execute-applied_iff :
      plan.policy_gate ≡ Gate.allowed
      → ((execute h s stamp false plan).status ≡ Outcome.applied)
        ↔ AllExitZero h [] (runnable h plan.steps)
  unfolding execute finished
  execute-applied_iff open_gate = rw open_gate (run_steps-applied h plan.steps [] [] refl)

  open_of_applied :
      (execute h s stamp false plan).status ≡ Outcome.applied → plan.policy_gate ≡ Gate.allowed
  unfolding execute refusal
  open_of_applied applied = ground arith

  -- The commands of an applied run are the steps in order, but for those of nix and nixos-rebuild whose
  -- program is not on the path.
  pub execute-applied_ran :
      (execute h s stamp false plan).status ≡ Outcome.applied
      → (plan.policy_gate ≡ Gate.allowed)
        × ((execute h s stamp false plan).ran ≡ runnable h plan.steps)
  unfolding execute
  execute-applied_ran applied =
      let open_gate = open_of_applied applied in
      (
        open_gate,
        rw open_gate (
            unfold finished in
            run_steps-ran h plan.steps [] [] ((execute-applied_iff open_gate).0 applied)),
      )
