-- ===== src/ContentSync.antt =====
-- src/sourceos_syncd/content_sync.py: the plan for a content view version. `ContentSync/Execute` is
-- the run of a plan; the children hold the proofs.
pub mod Planning
pub mod Execute
use sourceos_syncd.Prelude.{
  String, ◌<>◌, Bool, true, false, not, ◌&&◌, Option, none, some, List, [], ◌∷◌, ◌++◌, ◌==◌,
  string_eq, contains, if◌then◌else◌,
}
use sourceos_syncd.Json.{Object}
use sourceos_syncd.Katello.{ContentViewManifest}
use sourceos_syncd.Attestation.{
  Verifier, Minisign, Reason, Epistemic, speculative, AttestationDecision,
  verify_release_attestation,
}

-- The values of `policy_gate`.
pub data Gate : Type 0 where
  allowed denied blocked no_op : Gate

-- `policy_reason`, with what it quotes.
pub data PolicyReason : Type 0 where
  locus_not_allowed : (locus : String) → PolicyReason
  already_latest : PolicyReason
  attestation_refused : Reason → PolicyReason
  new_version : (locus : String) → PolicyReason

pub record ContentSyncPlan : Type 0 where
  pub org : String
  pub content_view : String
  pub from_version : Option String
  pub to_version : String
  pub lifecycle_env : String
  pub nix_cache_url : String
  pub flake_ref : String
  pub policy_gate : Gate
  pub policy_reason : PolicyReason
  pub steps : List String
  pub epistemic_level : Epistemic
  pub attestation : Option AttestationDecision

pub record ContentViewSyncer : Type 0 where
  pub flake_ref : String
  pub locus : String
  pub current_version : Option String
  pub signing_public_key : Option String
  pub agentplane_run_ref : Option String
  pub require_attestation : Bool
  pub attestation_public_key : Option String
  pub attestation_verifier : Option Verifier

abbrev pub allowed_loci : List String
allowed_loci = "local" ∷ "trusted_private" ∷ []

-- `self._current_version and self._current_version == version`
unfoldable pub is_current : Option String → String → Bool
is_current none version = false
is_current (some current) version = not (current == "") && current == version

-- The steps that check the signature of nix-cache-info, if there is a key for it.
unfoldable pub signature_steps : Option String → String → List String
signature_steps none url = []
signature_steps (some key) url =
    if key == ""
    then []
    else ("curl -fsSL '" <> (url <> "/nix-cache-info' -o /tmp/sourceos-nix-cache-info"))
      ∷ ("curl -fsSL '"
          <> (url <> "/nix-cache-info.minisig' -o /tmp/sourceos-nix-cache-info.minisig"))
      ∷ ("minisign -V -P '"
          <> (key <> "' -m /tmp/sourceos-nix-cache-info -x /tmp/sourceos-nix-cache-info.minisig"))
      ∷ []

abbrev pub copy_step : String → String → String
copy_step url flake = "nix copy --from '" <> (url <> ("' '" <> (flake <> "'")))

abbrev pub switch_step : String → String
switch_step flake = "nixos-rebuild switch --flake '" <> (flake <> "'")

module _ (m : Minisign) (s : ContentViewSyncer) (manifest : ContentViewManifest) where
  -- The fields that every plan has in common.
  unfoldable pub plan_of :
      Gate → PolicyReason → List String → Epistemic → Option AttestationDecision → ContentSyncPlan
  plan_of gate reason steps level decision = record {
    org = manifest.org;
    content_view = manifest.content_view;
    from_version = s.current_version;
    to_version = manifest.version;
    lifecycle_env = manifest.lifecycle_env;
    nix_cache_url = manifest.nix_cache_url;
    flake_ref = s.flake_ref;
    policy_gate = gate;
    policy_reason = reason;
    steps = steps;
    epistemic_level = level;
    attestation = decision;
  }

  unfoldable pub plan_steps : List String
  unfolding signature_steps
  plan_steps =
      signature_steps s.signing_public_key manifest.nix_cache_url
      ++ (copy_step manifest.nix_cache_url s.flake_ref ∷ switch_step s.flake_ref ∷ [])

  unfoldable pub decision_for : Option Object → AttestationDecision
  decision_for attestation =
      verify_release_attestation m attestation manifest.org manifest.content_view manifest.version
        s.attestation_public_key s.attestation_verifier

  -- What follows the deploy gate, with the decision if the gate was required.
  unfoldable pub plan_decided : Option AttestationDecision → ContentSyncPlan
  unfolding plan_of
  plan_decided none = plan_of allowed (new_version s.locus) plan_steps speculative none
  plan_decided (some d) =
      if d.ok
      then plan_of allowed (new_version s.locus) plan_steps d.epistemic_level (some d)
      else plan_of blocked (attestation_refused d.reason) [] d.epistemic_level (some d)

  unfoldable pub plan : Option Object → ContentSyncPlan
  unfolding plan_of plan_decided
  plan attestation =
      if not (contains allowed_loci s.locus)
      then plan_of denied (locus_not_allowed s.locus) [] speculative none
      else if is_current s.current_version manifest.version
      then plan_of no_op already_latest [] speculative none
      else plan_decided (if s.require_attestation then some (decision_for attestation) else none)
