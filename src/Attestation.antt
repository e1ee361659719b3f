-- ===== src/Attestation.antt =====
-- src/sourceos_syncd/release_attestation.py: the decision whether an attestation authorizes a
-- switch. `minisign` is outside the repository: a parameter that says whether the binary is there
-- and how a call of it ends.
pub mod Gate
pub mod Naming
use sourceos_syncd.Prelude.{
  String, ◌<>◌, Bool, true, false, not, ◌||◌, Option, none, some, List, [], ◌∷◌, keep, ◌==◌,
  string_eq, if◌then◌else◌,
}
use sourceos_syncd.Prelude.Signed.{ℤ}
use sourceos_syncd.Json.{Json, null, str, Object, is_zero, truthy, get_json, is_text}
use sourceos_syncd.Text.{ends_with}
use mathlib.Core.Option

abbrev pub Verifier : Type 0
Verifier = Object → Option String → Bool

-- A child process that has ended, or an exception on the way.
pub data Ended : Type 0 where
  exited : ℤ → Ended
  raised : Ended

-- `text_of` is `str` on values that are no text; `verify key message signature` runs the binary.
pub record Minisign : Type 0 where
  pub on_path : Bool
  pub text_of : Json → String
  pub verify : String → String → String → Ended

pub data Epistemic : Type 0 where
  proved speculative : Epistemic

-- The messages, with what they quote.
pub data Reason : Type 0 where
  no_attestation : (version : String) → Reason
  missing_fields : List String → Reason
  wrong_artifact : (found : Json) → (version expected : String) → Reason
  not_verified : Reason
  bound : Reason

pub record AttestationDecision : Type 0 where
  pub ok : Bool
  pub reason : Reason
  pub epistemic_level : Epistemic
  pub signer : Json
  pub artifact_id : Option String

abbrev pub required_fields : List String
required_fields = "artifactId" ∷ "signer" ∷ "algorithm" ∷ "timestamp" ∷ "signatureRef" ∷ []

unfoldable pub expected_artifact_id : String → String → String → String
expected_artifact_id org content_view version =
    "urn:srcos:content-view:" <> (org <> (":" <> (content_view <> (":" <> version))))

-- `s if s.endswith("\n") else s + "\n"`
with_newline : String → String
with_newline s = if ends_with 10 s then s else s <> "\n"

text_or : (Json → String) → Json → String
text_or text_of (str s) = s
text_or text_of j = text_of j

-- `returncode == 0`
unfoldable pub exit_ok : Ended → Bool
exit_ok (exited z) = is_zero z
exit_ok raised = false

-- `default_attestation_verifier`
module _ (m : Minisign) where
  unfoldable pub run_minisign : String → Json → Json → Bool
  unfolding exit_ok text_or with_newline
  run_minisign key (str signature) artifact =
      exit_ok (m.verify key (text_or m.text_of artifact <> "\n") (with_newline signature))
  run_minisign key _ artifact = false

  unfoldable pub default_attestation_verifier : Verifier
  unfolding run_minisign truthy get_json
  default_attestation_verifier attestation none = false
  default_attestation_verifier attestation (some key) =
      if key == ""
      then false
      else if not (truthy (get_json "signatureRef" attestation))
          || not (truthy (get_json "artifactId" attestation))
      then false
      else if not m.on_path
      then false
      else run_minisign key (get_json "signatureRef" attestation)
          (get_json "artifactId" attestation)

-- `[k for k in REQUIRED_FIELDS if not attestation.get(k)]`
unfoldable pub missing_of : Object → List String
unfolding truthy get_json
missing_of a = keep (λ k. not (truthy (get_json k a))) required_fields

-- `if missing:`
unfoldable pub has_missing : Object → Bool
unfolding missing_of
has_missing a = elim (missing_of a) [ [] ↦ false | _ ∷ _ ↦ true ]

module _ (org content_view version : String) (trusted_key : Option String) (verify : Verifier) where
  -- The record of a refusal; `expected` is filled in once the artifact is known to be the right one.
  refused : Reason → Json → Option String → AttestationDecision
  refused reason signer artifact = record {
    ok = false;
    reason = reason;
    epistemic_level = speculative;
    signer = signer;
    artifact_id = artifact;
  }

  -- The checks on an attestation that is there.
  check_attestation : Object → AttestationDecision
  unfolding refused
  check_attestation a =
      let expected = expected_artifact_id org content_view version in
      let signer = get_json "signer" a in
      if has_missing a
      then refused (missing_fields (missing_of a)) signer none
      else if not (is_text expected (get_json "artifactId" a))
      then refused (wrong_artifact (get_json "artifactId" a) version expected) signer none
      else if not (verify a trusted_key)
      then refused not_verified signer (some expected)
      else record {
        ok = true;
        reason = bound;
        epistemic_level = proved;
        signer = signer;
        artifact_id = some expected;
      }

  unfoldable pub verify_with : Option Object → AttestationDecision
  unfolding check_attestation
  verify_with none = refused (no_attestation version) null none
  verify_with (some a) = check_attestation a

-- `verifier or default_attestation_verifier`
abbrev pub verifier_or_default : Minisign → Option Verifier → Verifier
verifier_or_default m verifier = Option.get_or verifier (default_attestation_verifier m)

-- `verify_release_attestation`: without a verifier of the caller's, the default one decides.
unfoldable pub verify_release_attestation :
    Minisign
    → Option Object
    → String
    → String
    → String
    → Option String
    → Option Verifier
    → AttestationDecision
unfolding verify_with default_attestation_verifier
verify_release_attestation m attestation org content_view version trusted_key verifier =
    verify_with org content_view version trusted_key (verifier_or_default m verifier) attestation

-- `make_release_attestation`, its `timestamp or utc_now()` taken by the caller.
unfoldable pub make_release_attestation :
    (org content_view version signer signature_ref algorithm : String) (issuer : Option String)
    (timestamp : String)
    → Object
unfolding expected_artifact_id
make_release_attestation org content_view version signer signature_ref algorithm issuer timestamp =
    ("schema", str "sourceos.release-attestation/v0.1")
    ∷ ("artifactId", str (expected_artifact_id org content_view version))
    ∷ ("signer", str signer)
    ∷ ("algorithm", str algorithm)
    ∷ ("timestamp", str timestamp)
    ∷ ("issuer", elim issuer [ none ↦ null | some i ↦ str i ])
    ∷ ("signatureRef", str signature_ref)
    ∷ []
