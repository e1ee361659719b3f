-- ===== src/ContentSync/Execute/MissingTools.antt =====
-- On a machine where neither `nix` nor `nixos-rebuild` is on the path.
use text.Mathlib.TextLemmas.{append_assoc as text_append_assoc}
use text.Mathlib.TextPositions.{starts_with-append}
use sourceos_syncd.Prelude.{
  String, ◌<>◌, ◌≡◌, ◌∙◌, true, false, Option, none, [], arith, starts_with,
}
use sourceos_syncd.Json.{Object}
use sourceos_syncd.Katello.{ContentViewManifest}
use sourceos_syncd.Attestation.{Minisign}
use sourceos_syncd.ContentSync.{
  Gate, ContentSyncPlan, ContentViewSyncer, copy_step, switch_step, plan, plan_steps,
}
use sourceos_syncd.ContentSync.Planning.{plan-steps}
use sourceos_syncd.ContentSync.Execute.{Machine, lacks_tool, Outcome, Stamp, execute}
use sourceos_syncd.ContentSync.Execute.Safety.{runnable, execute-applied_iff, execute-applied_ran}

starts_with-literal : (a b rest : String) → starts_with ((a <> b) <> rest) a ≡ true
starts_with-literal a b rest = rw text_append_assoc (starts_with-append a (b <> rest))

copy_step-nix : (url flake : String) → starts_with (copy_step url flake) "nix " ≡ true
copy_step-nix url flake = starts_with-literal "nix " "copy --from '" _

switch_step-rebuild : (flake : String) → starts_with (switch_step flake) "nixos-rebuild " ≡ true
switch_step-rebuild flake = starts_with-literal "nixos-rebuild " "switch --flake '" _

module _ (h : Machine) (no_nix : h.which "nix" ≡ false)
    (no_rebuild : h.which "nixos-rebuild" ≡ false) where
  copy_step-lacks : (url flake : String) → lacks_tool h (copy_step url flake) ≡ true
  unfolding lacks_tool
  copy_step-lacks url flake = rw (no_nix, copy_step-nix)

  switch_step-lacks : (flake : String) → lacks_tool h (switch_step flake) ≡ true
  unfolding lacks_tool
  switch_step-lacks flake = rw (no_rebuild, switch_step-rebuild) (ground arith)

  plan-runnable :
      (m : Minisign) (s : ContentViewSyncer) (manifest : ContentViewManifest)
      → s.signing_public_key ≡ none
      → runnable h (plan_steps m s manifest) ≡ []
  unfolding plan_steps
  plan-runnable m s manifest no_key = simp (no_key, copy_step-lacks, switch_step-lacks)

  -- Where neither program is on the path and no key for the cache is configured, a real run of an
  -- allowed plan is reported as "applied" and has run no command at all.
  pub execute-applied_without_tools :
      (m : Minisign) (s : ContentViewSyncer) (manifest : ContentViewManifest)
      (attestation : Option Object) (stamp : Stamp)
      → s.signing_public_key ≡ none
      → (plan m s manifest attestation).policy_gate ≡ Gate.allowed
      → let run = execute h s stamp false (plan m s manifest attestation) in
        (run.status ≡ Outcome.applied) × (run.ran ≡ [])
  execute-applied_without_tools m s manifest attestation stamp no_key open_gate =
      (applied, (execute-applied_ran h s stamp p applied).1 ∙ nothing)
    where
      p : ContentSyncPlan
      p = plan m s manifest attestation

      nothing : runnable h p.steps ≡ []
      nothing =
          rw ((plan-steps m s manifest attestation).0 open_gate) (plan-runnable m s manifest no_key)

      applied : (execute h s stamp false p).status ≡ Outcome.applied
      applied = (execute-applied_iff h s stamp p open_gate).1 (rw nothing tt)
