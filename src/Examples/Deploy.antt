-- ===== src/Examples/Deploy.antt =====
-- The deploy gate and the run of a plan at concrete inputs.
use sourceos_syncd.Prelude.{
  ◌≡◌, refl, String, true, false, none, some, [], ◌∷◌, ◌++◌, string_eq, arith,
}
use text.Mathlib.TextEquality.{eq_iff}
use sourceos_syncd.Json.{get_json, truthy, is_text}
use sourceos_syncd.Attestation.{
  proved, has_missing, verify_release_attestation, make_release_attestation, expected_artifact_id,
}
use sourceos_syncd.Attestation.Gate.{decide_on, verify-ok_iff, verify-make}
use sourceos_syncd.Attestation.Naming.{expected_artifact_id-injective, expected_artifact_id-colon}
use sourceos_syncd.ContentSync.{
  Gate, ContentSyncPlan, copy_step, switch_step, plan, plan_steps, is_current, decision_for,
}
use sourceos_syncd.ContentSync.Planning.{IsAttestedBy, plan-allowed_iff, plan-attested}
use sourceos_syncd.ContentSync.Execute.{Outcome, finished, execute, lacks_tool}
use sourceos_syncd.ContentSync.Execute.Safety.{
  exited_zero, runnable, AllExitZero, execute-applied_iff,
}
use sourceos_syncd.ContentSync.Execute.FailClosed.{execute-fail_closed}
use sourceos_syncd.ContentSync.Execute.MissingTools.{execute-applied_without_tools}
use sourceos_syncd.Examples.Data.{
  manifest, no_minisign, accepts_all, attestation, syncer, good_machine, bad_machine, bare_machine,
  stamp,
}

verify-ok_iff_example :
    (decide_on no_minisign "SocioProphet" "builder" "1.3"
      (some "RWK")
      (some accepts_all)
      (some attestation)).ok
    ≡ true
unfolding expected_artifact_id get_json truthy string_eq
verify-ok_iff_example =
    (verify-ok_iff no_minisign "SocioProphet" "builder" "1.3" (some "RWK") (some accepts_all)
        (some attestation)).1
      (attestation, refl, (refl, (refl, (refl, (refl, (refl, tt))))), refl, refl)

-- Without the binary the default verifier refuses.
no_binary :
    (decide_on no_minisign "SocioProphet" "builder" "1.3" (some "RWK") none (some attestation)).ok
    ≡ false
unfolding verify_release_attestation expected_artifact_id get_json truthy string_eq has_missing
    is_text
no_binary = refl

verify-make_example :
    (decide_on no_minisign "o" "cv" "1" none
      (some accepts_all)
      (some (make_release_attestation "o" "cv" "1" "s" "RWS" "ed" none "t"))).ok
    ≡ true
verify-make_example =
    (verify-make no_minisign "o" "cv" "1" none (some accepts_all) "s" "RWS" "ed" none "t"
        (ground (arith, eq_iff "s" "")) (ground (arith, eq_iff "RWS" ""))
        (ground (arith, eq_iff "ed" "")) (ground (arith, eq_iff "t" ""))).1
      refl

expected_artifact_id-injective_example : ◌≡◌ {A = String} "1" "1"
expected_artifact_id-injective_example = expected_artifact_id-injective "o" "cv" "1" "1" refl

expected_artifact_id-colon_example :
    (expected_artifact_id "a:b" "c" "d" ≡ expected_artifact_id "a" "b:c" "d")
    × (expected_artifact_id "a" "b:c" "d" ≡ expected_artifact_id "a" "b" "c:d")
expected_artifact_id-colon_example = expected_artifact_id-colon "a" "b" "c" "d"

open_gate : (plan no_minisign syncer manifest (some attestation)).policy_gate ≡ Gate.allowed
unfolding decision_for verify_release_attestation expected_artifact_id get_json truthy string_eq
    plan is_current is_text has_missing
open_gate = refl

plan-allowed_iff_example :
    (plan no_minisign syncer manifest (some attestation)).policy_gate ≡ Gate.allowed
unfolding is_current string_eq decision_for
plan-allowed_iff_example =
    (plan-allowed_iff no_minisign syncer manifest (some attestation)).1
      (refl, refl, λ _. verify-ok_iff_example)

plan-attested_example :
    IsAttestedBy no_minisign syncer manifest (some attestation)
    × ((plan no_minisign syncer manifest (some attestation)).epistemic_level ≡ proved)
plan-attested_example = plan-attested no_minisign syncer manifest (some attestation) refl open_gate

accepted : ContentSyncPlan
unfolding plan plan_steps is_current decision_for verify_release_attestation expected_artifact_id
    has_missing is_text truthy get_json string_eq
accepted = plan no_minisign syncer manifest (some attestation)

-- The two steps of the plan exit with 0.
good_run : AllExitZero good_machine [] (runnable good_machine accepted.steps)
unfolding accepted lacks_tool
good_run = (refl, (refl, tt))

execute-applied_iff_example :
    (execute good_machine syncer stamp false accepted).status ≡ Outcome.applied
unfolding accepted
execute-applied_iff_example =
    (execute-applied_iff good_machine syncer stamp accepted open_gate).1 good_run

two_commands :
    (execute good_machine syncer stamp false accepted).ran
    ≡ [] ++ copy_step "https://k:8101/c/" "f" ∷ switch_step "f" ∷ []
unfolding accepted execute finished
two_commands = refl

execute-fail_closed_example :
    exited_zero (good_machine.shell [] (copy_step "https://k:8101/c/" "f")) ≡ true
execute-fail_closed_example =
    execute-fail_closed good_machine syncer stamp false accepted [] _ _ [] two_commands

-- The copy fails: the switch is not run.
failed_copy :
    (execute bad_machine syncer stamp false accepted).ran ≡ copy_step "https://k:8101/c/" "f" ∷ []
unfolding accepted execute finished
failed_copy = refl

execute-applied_without_tools_example :
    let run =
      execute bare_machine syncer stamp false
        (plan no_minisign syncer manifest (some attestation)) in
    (run.status ≡ Outcome.applied) × (run.ran ≡ [])
execute-applied_without_tools_example =
    execute-applied_without_tools bare_machine refl refl no_minisign syncer manifest
      (some attestation) stamp refl open_gate
