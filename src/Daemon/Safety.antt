-- ===== src/Daemon/Safety.antt =====
-- No poll switches the machine without authority, whatever Katello, the files and the machine do.
use sourceos_syncd.Prelude.{
  ◌≡◌, ◌≢◌, refl, ◌⊎◌, inl, inr, true, false, Option, none, some, [], contains, string_eq,
}
use sourceos_syncd.Json.{Object, str, get_json}
use sourceos_syncd.Katello.{ContentViewManifest}
use sourceos_syncd.Attestation.{verifier_or_default, expected_artifact_id}
use sourceos_syncd.Attestation.Gate.{IsComplete}
use sourceos_syncd.ContentSync.{
  Gate, ContentSyncPlan, ContentViewSyncer, allowed_loci, is_current, plan,
}
use sourceos_syncd.ContentSync.Planning.{plan-allowed_iff, plan-attested}
use sourceos_syncd.Receipts.{ReceiptStore, read_current_version}
use sourceos_syncd.Daemon.{
  Config, World, Loaded, absent, loaded, malformed, load_attestation, syncer_for, plan_loaded,
  raise_at, Polled, apply_plan, poll_reply, poll_once,
}
use sourceos_syncd.Daemon.Poll.{apply_plan-closed}

-- The attestation file of the version holds a complete attestation that names the organisation,
-- content view and version of the manifest and that the verifier accepts.
abbrev pub IsAttested : Config → World → ContentViewManifest → Type 0
IsAttested cfg w manifest =
    (a : Object) × (load_attestation cfg w manifest ≡ loaded a)
    × IsComplete a
    × (get_json "artifactId" a
        ≡ str (expected_artifact_id manifest.org manifest.content_view manifest.version))
    × (verifier_or_default w.minisign cfg.attestation_verifier a cfg.attestation_public_key ≡ true)

-- Katello promoted the manifest, the locus is an allowed one, the version is not the current one,
-- and it is attested if the configuration asks for that.
pub record IsAuthorized (cfg : Config) (w : World) (r : ReceiptStore)
    (manifest : ContentViewManifest) : Type 0 where
  pub promoted : w.katello ≡ some manifest
  pub locus : contains allowed_loci cfg.locus ≡ true
  pub new : is_current (read_current_version r) manifest.version ≡ false
  pub attested : cfg.require_attestation ≡ true → IsAttested cfg w manifest

pub Gate-cases : (g : Gate) → (g ≢ Gate.allowed) ⊎ (g ≡ Gate.allowed)
Gate-cases Gate.allowed = inr refl
Gate-cases Gate.denied = inl (λ e. cc)
Gate-cases Gate.blocked = inl (λ e. cc)
Gate-cases Gate.no_op = inl (λ e. cc)

-- A poll that neither ran a command nor changed the version file.
abbrev pub IsQuiet : ReceiptStore → Polled → Type 0
IsQuiet r polled = (polled.ran ≡ []) × (polled.store.version_file ≡ r.version_file)

module _ (cfg : Config) (w : World) (r : ReceiptStore) (manifest : ContentViewManifest) where
  abbrev syncer : ContentViewSyncer
  syncer = syncer_for cfg (read_current_version r)

  abbrev applied_to : Option ContentSyncPlan → Polled
  applied_to = apply_plan w syncer manifest r

  planned_gate : Option Object → Gate
  planned_gate attestation = (plan w.minisign syncer manifest attestation).policy_gate

  gate_cases :
      (attestation : Option Object)
      → (planned_gate attestation ≢ Gate.allowed) ⊎ (planned_gate attestation ≡ Gate.allowed)
  gate_cases attestation = Gate-cases (planned_gate attestation)

  raised-IsQuiet :
      (p : ContentSyncPlan) (g : Gate)
      → p.policy_gate ≢ Gate.allowed
      → IsQuiet r (applied_to (raise_at g p))
  unfolding raise_at apply_plan
  raised-IsQuiet p Gate.blocked closed = (refl, refl)
  raised-IsQuiet p _ closed = apply_plan-closed w syncer manifest r p closed

  authorize :
      (attestation : Option Object)
      → w.katello ≡ some manifest
      → planned_gate attestation ≡ Gate.allowed
      → ((a : Object) → attestation ≡ some a → load_attestation cfg w manifest ≡ loaded a)
      → IsAuthorized cfg w r manifest
  unfolding planned_gate
  authorize attestation k g from_file =
      let (locus, new, _) = (plan-allowed_iff w.minisign syncer manifest attestation).0 g in
      record {
        promoted = k;
        locus = locus;
        new = new;
        attested = λ required.
            let ((a, e, complete, names, verified), _) =
              plan-attested w.minisign syncer manifest attestation required g in
            (a, from_file a e, complete, names, verified);
      }

  IsAuthorized-by :
      (l : Loaded)
      → load_attestation cfg w manifest ≡ l
      → w.katello ≡ some manifest
      → IsQuiet r (applied_to (plan_loaded w.minisign syncer manifest l))
        ⊎ IsAuthorized cfg w r manifest
  unfolding plan_loaded planned_gate
  IsAuthorized-by absent e k = elim (gate_cases none) [
    | inl closed ↦ inl (apply_plan-closed w syncer manifest r _ closed)
    | inr g ↦ inr (authorize none k g (λ a f. cc))
  ]
  IsAuthorized-by (loaded o) e k = elim (gate_cases (some o)) [
    | inl closed ↦ inl (apply_plan-closed w syncer manifest r _ closed)
    | inr g ↦ inr (authorize (some o) k g (λ a f. cc))
  ]
  IsAuthorized-by malformed e k = elim (gate_cases none) [
    | inl closed ↦ inl (raised-IsQuiet _ (planned_gate none) closed)
    | inr g ↦ inr (authorize none k g (λ a f. cc))
  ]

poll_reply-IsAuthorized :
    (cfg : Config) (w : World) (r : ReceiptStore) (reply : Option ContentViewManifest)
    → w.katello ≡ reply
    → IsQuiet r (poll_reply cfg w r reply)
      ⊎ ((manifest : ContentViewManifest) × IsAuthorized cfg w r manifest)
unfolding poll_reply
poll_reply-IsAuthorized cfg w r none k = inl (refl, refl)
poll_reply-IsAuthorized cfg w r (some manifest) k =
    elim (IsAuthorized-by cfg w r manifest (load_attestation cfg w manifest) refl k) [
      | inl q ↦ inl q
      | inr a ↦ inr (manifest, a)
    ]

-- A poll either runs no command and leaves the version file alone, or Katello promoted a version
-- that is not the current one to an allowed locus and, where attestation is required, the
-- attestation file of exactly that version was complete, named it and was verified.
pub poll_once-IsAuthorized :
    (cfg : Config) (w : World) (r : ReceiptStore)
    → IsQuiet r (poll_once cfg w r)
      ⊎ ((manifest : ContentViewManifest) × IsAuthorized cfg w r manifest)
unfolding poll_once
poll_once-IsAuthorized cfg w r = poll_reply-IsAuthorized cfg w r w.katello refl
