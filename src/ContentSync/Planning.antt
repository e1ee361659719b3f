-- ===== src/ContentSync/Planning.antt =====
-- When a plan may switch, and what it then does first.
use sourceos_syncd.Prelude.{
  ◌≡◌, ◌≢◌, ◌↔◌, ◌∙◌, true, false, Option, some, [], arith, contains, string_eq,
}
use sourceos_syncd.Json.{str, Object, get_json}
use sourceos_syncd.Katello.{ContentViewManifest}
use sourceos_syncd.Attestation.{Minisign, proved, verifier_or_default, expected_artifact_id}
use sourceos_syncd.Attestation.Gate.{IsComplete, verify-ok_iff, epistemic_level-iff_ok}
use sourceos_syncd.ContentSync.{
  allowed, ContentSyncPlan, ContentViewSyncer, allowed_loci, is_current, plan_steps, decision_for,
  plan,
}

-- There is an attestation, complete, naming the organisation, content view and version of the
-- manifest, and accepted by the syncer's verifier under its key.
abbrev pub IsAttestedBy :
    Minisign → ContentViewSyncer → ContentViewManifest → Option Object → Type 0
IsAttestedBy m s manifest attestation =
    (a : Object) × (attestation ≡ some a)
    × IsComplete a
    × (get_json "artifactId" a
        ≡ str (expected_artifact_id manifest.org manifest.content_view manifest.version))
    × (verifier_or_default m s.attestation_verifier a s.attestation_public_key ≡ true)

module _ (m : Minisign) (s : ContentViewSyncer) (manifest : ContentViewManifest)
    (attestation : Option Object) where
  abbrev planned : ContentSyncPlan
  planned = plan m s manifest attestation

  -- The gate is "allowed" exactly if the locus is an allowed one, the version is not the current
  -- one and, where attestation is required, the release attestation is accepted.
  pub plan-allowed_iff : (planned.policy_gate ≡ allowed) ↔ (
      (contains allowed_loci s.locus ≡ true)
      × (is_current s.current_version manifest.version ≡ false)
      × (s.require_attestation ≡ true → (decision_for m s manifest attestation).ok ≡ true))
  unfolding plan
  plan-allowed_iff = ground arith

  -- A plan has steps exactly if its gate is "allowed", and then they are the switch behind the copy
  -- behind the checks of the cache signature.
  pub plan-steps :
      (planned.policy_gate ≡ allowed → planned.steps ≡ plan_steps m s manifest)
      × (planned.policy_gate ≢ allowed → planned.steps ≡ [])
  unfolding plan
  plan-steps = ground arith

  level_of_decision :
      s.require_attestation ≡ true
      → planned.policy_gate ≡ allowed
      → planned.epistemic_level ≡ (decision_for m s manifest attestation).epistemic_level
  unfolding plan
  level_of_decision required open_gate = ground arith

  -- Where attestation is required, a plan that may switch rests on an attestation that is complete,
  -- names the organisation, content view and version of the manifest and is accepted by the
  -- verifier under the configured key, and the plan carries the level "Proved".
  pub plan-attested :
      s.require_attestation ≡ true
      → planned.policy_gate ≡ allowed
      → IsAttestedBy m s manifest attestation × (planned.epistemic_level ≡ proved)
  unfolding decision_for
  plan-attested required open_gate =
      let accepted = (plan-allowed_iff.0 open_gate).2 required in
      let (a, e, complete, names, verified) =
        (verify-ok_iff m manifest.org manifest.content_view manifest.version
            s.attestation_public_key s.attestation_verifier attestation).0
          accepted in
      (
        (a, e, complete, names, verified),
        level_of_decision required open_gate
            ∙ (epistemic_level-iff_ok m manifest.org manifest.content_view manifest.version
                  s.attestation_public_key s.attestation_verifier attestation).1
                accepted,
      )
