-- ===== src/Attestation/Gate.antt =====
-- When `verify_release_attestation` says yes, and what the producer's record is good for.
use mathlib.Core.Option
use text.Mathlib.TextLemmas.{append-eq-nil_iff}
use sourceos_syncd.Prelude.{
  String, ◌≡◌, refl, ◌≢◌, ◌↔◌, Bool, true, false, Option, none, some, List, [], ◌∷◌, arith,
  string_eq, All, keep, not,
}
use sourceos_syncd.Json.{Json, str, Object, truthy, get_json, is_text}
use sourceos_syncd.Attestation.{
  Verifier, Minisign, proved, AttestationDecision, required_fields, expected_artifact_id,
  has_missing, check_attestation, verify_release_attestation, verifier_or_default,
  make_release_attestation,
}

-- Each required field is there with a value that counts as true.
abbrev pub IsComplete : Object → Type 0
IsComplete a = All (λ k. truthy (get_json k a) ≡ true) required_fields

keep-eq-nil :
    (p : String → Bool) (ks : List String)
    → (keep (λ k. not (p k)) ks ≡ []) ↔ All (λ k. p k ≡ true) ks
keep-eq-nil p [] = (λ _. tt, λ _. refl)
keep-eq-nil p (k ∷ ks) = ground (arith, keep-eq-nil p ks)

has_missing_iff : (a : Object) → (has_missing a ≡ false) ↔ IsComplete a
unfolding has_missing
has_missing_iff a = ground (arith, keep-eq-nil (λ k. truthy (get_json k a)) required_fields)

is_text_iff : (s : String) (j : Json) → (is_text s j ≡ true) ↔ (j ≡ str s)
unfolding is_text
is_text_iff s (str t) = ground arith
is_text_iff s _ = (λ h. cc, λ h. cc)

module _ (org content_view version : String) (key : Option String) (verify : Verifier)
    (a : Object) where
  accepts_iff : ((check_attestation org content_view version key verify a).ok ≡ true) ↔ (
      IsComplete a
      × (get_json "artifactId" a ≡ str (expected_artifact_id org content_view version))
      × (verify a key ≡ true))
  unfolding check_attestation
  accepts_iff = ground (
    arith,
    has_missing_iff a,
    is_text_iff (expected_artifact_id org content_view version) (get_json "artifactId" a),
  )

truthy-str : (s : String) → s ≢ "" → truthy (str s) ≡ true
unfolding truthy
truthy-str s h = ground arith

expected_artifact_id-ne_nil :
    (org content_view version : String) → expected_artifact_id org content_view version ≢ ""
unfolding expected_artifact_id
expected_artifact_id-ne_nil org content_view version h =
    cc ((append-eq-nil_iff {p = "urn:srcos:content-view:"}).0 h).0

module _ (org content_view version signer signature algorithm : String) (issuer : Option String)
    (timestamp : String) where
  made : Object
  made =
      make_release_attestation org content_view version signer signature algorithm issuer timestamp

  made-IsComplete :
      signer ≢ ""
      → signature ≢ ""
      → algorithm ≢ ""
      → timestamp ≢ ""
      → IsComplete made
        × (get_json "artifactId" made ≡ str (expected_artifact_id org content_view version))
  unfolding made make_release_attestation get_json string_eq
  made-IsComplete n1 n2 n3 n4 = (
    (
      truthy-str _ (expected_artifact_id-ne_nil org content_view version),
      (
        truthy-str signer n1,
        (truthy-str algorithm n3, (truthy-str timestamp n4, (truthy-str signature n2, tt))),
      ),
    ),
    refl,
  )

module _ (m : Minisign) (org content_view version : String) (key : Option String)
    (verifier : Option Verifier) where
  abbrev pub decide_on : Option Object → AttestationDecision
  decide_on a = verify_release_attestation m a org content_view version key verifier

  -- The decision is ok exactly if there is an attestation, all its required fields are there, it
  -- names this organisation, content view and version, and the verifier accepts it.
  pub verify-ok_iff :
      (attestation : Option Object)
      → ((decide_on attestation).ok ≡ true) ↔ (
          (a : Object) × (attestation ≡ some a)
          × IsComplete a
          × (get_json "artifactId" a ≡ str (expected_artifact_id org content_view version))
          × (verifier_or_default m verifier a key ≡ true))
  unfolding verify_release_attestation
  verify-ok_iff none = (λ h. cc, λ (a, e, c, n, v). cc)
  verify-ok_iff (some a) =
      let iff = accepts_iff org content_view version key (verifier_or_default m verifier) a in
      (
        λ h. let (complete, names, accepted) = iff.0 h in (a, refl, complete, names, accepted),
        λ (b, e, complete, names, accepted).
            let e' = Option.some-injective a b e in
            iff.1 (rw e' complete, rw e' names, rw e' accepted),
      )

  -- The decision carries the level "Proved" exactly if it is ok.
  pub epistemic_level-iff_ok :
      (attestation : Option Object)
      → ((decide_on attestation).epistemic_level ≡ proved) ↔ ((decide_on attestation).ok ≡ true)
  unfolding verify_release_attestation
  epistemic_level-iff_ok none = ground arith
  epistemic_level-iff_ok (some a) = ground arith

  -- What the producer makes for a version is accepted for that version exactly if the verifier
  -- accepts it, provided the signer, the algorithm, the time and the signature are not empty.
  pub verify-make :
      (signer signature algorithm : String) (issuer : Option String) (timestamp : String)
      → signer ≢ ""
      → signature ≢ ""
      → algorithm ≢ ""
      → timestamp ≢ ""
      → let produced =
          make_release_attestation org content_view version signer signature algorithm issuer
            timestamp in
        ((decide_on (some produced)).ok ≡ true)
        ↔ (verifier_or_default m verifier produced key ≡ true)
  unfolding made verify_release_attestation
  verify-make signer signature algorithm issuer timestamp n1 n2 n3 n4 =
      let produced =
        make_release_attestation org content_view version signer signature algorithm issuer
          timestamp in
      let iff =
        accepts_iff org content_view version key (verifier_or_default m verifier) produced in
      let (complete, names) =
        made-IsComplete org content_view version signer signature algorithm issuer timestamp n1 n2
          n3 n4 in
      (λ h. (iff.0 h).2, λ h. iff.1 (complete, names, h))
