-- ===== src/Evidence.antt =====
-- src/sourceos_syncd/evidence.py: envelopes of evidence, and the files that they are written to, as a
-- dictionary from file names.
pub mod Tamper
use sourceos_syncd.Prelude.{
  ℕ, zero, suc, String, ◌<>◌, Bool, true, false, not, Option, none, some, List, [], ◌∷◌, ◌++◌, ◌==◌,
  string_eq, starts_with,
}
use sourceos_syncd.Prelude.Dict
use sourceos_syncd.Prelude.Dict.{Dict}
use sourceos_syncd.Json.{Json, null, bool, str, obj, Object, fields, entries, get_json, is_text}
use sourceos_syncd.Show.{str_field}
use sourceos_syncd.Reports.Checks.{Library, Complaint, about, complain, lacks, is_obj}

abbrev pub evidence_schema : String
evidence_schema = "sourceos.lampstand-evidence/v1alpha1"

abbrev pub default_writer : String
default_writer = "sourceos-syncd-local-evidence-writer"

abbrev pub required_evidence_keys : List String
required_evidence_keys =
    "schema" ∷ "evidence_id" ∷ "generated_at" ∷ "writer" ∷ "evidence_type" ∷ "subject"
    ∷ "artifact_digest" ∷ "artifact" ∷ "attestation" ∷ []

-- `s[:n]` of a text.
unfoldable pub shortened : ℕ → String → String
shortened zero s = ""
shortened (suc n) String.[] = ""
shortened (suc n) (String.◌∷◌ c s) = String.◌∷◌ c (shortened n s)

pub record EvidenceEnvelope : Type 0 where
  pub evidence_id : String
  pub evidence_type : String
  pub subject : String
  pub artifact_digest : String
  pub artifact : Object
  pub writer : String
  pub schema : String
  pub generated_at : String
  pub signed : Bool
  pub signature : Json

abbrev pub reason_of : Bool → String
reason_of true = "signed"
reason_of false = "local-stub-unsigned"

unfoldable pub as_dict : EvidenceEnvelope → Object
unfolding fields
as_dict e =
    ("schema", str e.schema)
    ∷ ("evidence_id", str e.evidence_id)
    ∷ ("generated_at", str e.generated_at)
    ∷ ("writer", str e.writer)
    ∷ ("evidence_type", str e.evidence_type)
    ∷ ("subject", str e.subject)
    ∷ ("artifact_digest", str e.artifact_digest)
    ∷ ("artifact", obj (fields e.artifact))
    ∷ (
      "attestation",
      obj (
          fields (
            ("signed", bool e.signed)
            ∷ ("signature", e.signature)
            ∷ ("reason", str (reason_of e.signed))
            ∷ [])),
    )
    ∷ []

module _ (lib : Library) where
  unfoldable pub digest_json : Object → String
  digest_json r = "sha256:" <> lib.digest r

  abbrev pub seed_of : String → String → String → String → Object
  seed_of artifact_digest evidence_type subject writer =
      ("artifact_digest", str artifact_digest)
      ∷ ("evidence_type", str evidence_type)
      ∷ ("subject", str subject)
      ∷ ("writer", str writer)
      ∷ []

  -- `now` is the time of the making.
  unfoldable pub make_evidence : String → Object → String → String → String → Object
  unfolding digest_json as_dict shortened
  make_evidence now artifact evidence_type subject writer = as_dict (record {
    evidence_id =
        "evidence-"
        <> shortened 20 (lib.digest (seed_of (digest_json artifact) evidence_type subject writer));
    evidence_type = evidence_type;
    subject = subject;
    artifact_digest = digest_json artifact;
    artifact = artifact;
    writer = writer;
    schema = evidence_schema;
    generated_at = now;
    signed = false;
    signature = null;
  })

  -- Whether the artifact is a dict whose digest is not the one given.
  unfoldable pub is_mismatch : Json → Json → Bool
  unfolding digest_json is_text entries
  is_mismatch (obj fs) digest = not (is_text (digest_json (entries fs)) digest)
  is_mismatch _ digest = false

  unfoldable pub validate_evidence : Object → List Complaint
  unfolding lacks is_text get_json str_field is_mismatch is_obj
  validate_evidence envelope =
      complain (lacks envelope required_evidence_keys) (about "keys" "are missing")
      ++ complain (not (is_text evidence_schema (get_json "schema" envelope)))
          (about "schema" "unsupported")
      ++ complain
          (not (starts_with (str_field lib.text_of "artifact_digest" "" envelope) "sha256:"))
          (about "artifact_digest" "must start with sha256:")
      ++ complain (is_mismatch (get_json "artifact" envelope) (get_json "artifact_digest" envelope))
          (about "artifact_digest" "does not match artifact")
      ++ complain (not (is_obj (get_json "attestation" envelope)))
          (about "attestation" "must be an object")

  -- `f"{envelope['evidence_id']}.json"`
  unfoldable pub target_of : Object → String
  unfolding str_field
  target_of envelope = str_field lib.text_of "evidence_id" "" envelope <> ".json"

  abbrev pub after_validation : List Complaint → Object → Dict Object → Option (Dict Object)
  after_validation [] envelope files = some (Dict.put (target_of envelope) envelope files)
  after_validation (_ ∷ _) envelope files = none

  -- `none` is the ValueError of an invalid envelope.
  unfoldable pub write_evidence_file : Object → Dict Object → Option (Dict Object)
  unfolding validate_evidence target_of Dict.put
  write_evidence_file envelope files = after_validation (validate_evidence envelope) envelope files
