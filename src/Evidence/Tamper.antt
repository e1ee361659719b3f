-- ===== src/Evidence/Tamper.antt =====
-- An envelope is written as it was made, and not with another artifact.
use mathlib.Core.Path.{subst}
use text.Mathlib.TextPositions.{starts_with-append}
use sourceos_syncd.Prelude.{
  String, string_eq, Bool, true, false, not, Option, if◌then◌else◌, none, some, [], ◌++◌, ◌≡◌, ◌≢◌,
  refl, ap, ◌∙◌, arith, starts_with, ◌==◌,
}
use sourceos_syncd.Prelude.Dict
use sourceos_syncd.Prelude.Dict.{Dict}
use sourceos_syncd.Json.{
  Json, null, bool, int, float, arr, entries, entries-fields, str, obj, Object, fields, get_json,
  is_text,
}
use sourceos_syncd.Show.{str_field}
use sourceos_syncd.Reports.Checks.{Library, about, complain, lacks, is_obj}
use sourceos_syncd.Evidence.{
  digest_json, make_evidence, is_mismatch, validate_evidence, target_of, after_validation,
  required_evidence_keys, evidence_schema, write_evidence_file,
}

module _ (lib : Library) where
  pub digest_json-prefix : (r : Object) → starts_with (digest_json lib r) "sha256:" ≡ true
  unfolding digest_json
  digest_json-prefix r = starts_with-append "sha256:" (lib.digest r)

  is_mismatch-fields :
      (a : Object) (s : String)
      → is_mismatch lib (obj (fields a)) (str s) ≡ not (s == digest_json lib a)
  unfolding is_mismatch is_text
  is_mismatch-fields a s = ap (λ e. not (s == digest_json lib e)) (entries-fields a)

  -- What is left of the validation when the other members are right.
  validate-mismatch :
      (e : Object) (b : Bool)
      → lacks e required_evidence_keys ≡ false
      → is_text evidence_schema (get_json "schema" e) ≡ true
      → starts_with (str_field lib.text_of "artifact_digest" "" e) "sha256:" ≡ true
      → is_mismatch lib (get_json "artifact" e) (get_json "artifact_digest" e) ≡ b
      → is_obj (get_json "attestation" e) ≡ true
      → validate_evidence lib e
        ≡ complain b (about "artifact_digest" "does not match artifact") ++ []
  unfolding validate_evidence
  validate-mismatch e b h1 h2 h3 h4 h5 = rw (h1, h2, h3, h4, h5) refl

  same_digest :
      (a b : Object)
      → digest_json lib a ≡ digest_json lib b
      → (digest_json lib a == digest_json lib b) ≡ true
  same_digest a b h = ground arith

  other_digest :
      (a b : Object)
      → digest_json lib a ≢ digest_json lib b
      → (digest_json lib a == digest_json lib b) ≡ false
  other_digest a b h = ground arith

module _ (lib : Library) (now evidence_type subject writer : String) (a : Object) where
  -- The same envelope around another artifact.
  abbrev pub swapped : Json → Object
  swapped j = Dict.put "artifact" j (make_evidence lib now a evidence_type subject writer)

  swapped-mismatch :
      (j : Json)
      → validate_evidence lib (swapped j)
        ≡ complain
            (is_mismatch lib j (str (digest_json lib a)))
            (about "artifact_digest" "does not match artifact")
          ++ []
  unfolding make_evidence get_json Dict.get Dict.has Dict.put string_eq is_obj str_field lacks
      is_text
  swapped-mismatch j =
      validate-mismatch lib (swapped j) _ refl refl (digest_json-prefix lib a) refl refl

  made-swapped : swapped (obj (fields a)) ≡ make_evidence lib now a evidence_type subject writer
  unfolding make_evidence Dict.put string_eq
  made-swapped = refl

  -- What is done with the swapped envelope follows from the mismatch alone.
  abbrev judged_swap : Bool → Object → Dict Object → Option (Dict Object)
  judged_swap b e files =
      after_validation lib (complain b (about "artifact_digest" "does not match artifact") ++ []) e
        files

  write-judged :
      (j : Json) (b : Bool) (files : Dict Object)
      → is_mismatch lib j (str (digest_json lib a)) ≡ b
      → write_evidence_file lib (swapped j) files ≡ judged_swap b (swapped j) files
  unfolding write_evidence_file
  write-judged j b files h =
      ap (λ errors. after_validation lib errors (swapped j) files) (swapped-mismatch j)
      ∙ ap (λ x. judged_swap x (swapped j) files) h

  -- A made envelope is written as it is, under its id.
  pub write-make_evidence :
      (files : Dict Object)
      → let e = make_evidence lib now a evidence_type subject writer in
        write_evidence_file lib e files ≡ some (Dict.put (target_of lib e) e files)
  write-make_evidence files =
      subst (λ e. write_evidence_file lib e files ≡ some (Dict.put (target_of lib e) e files))
        made-swapped
        (write-judged (obj (fields a)) false files
          (is_mismatch-fields lib a (digest_json lib a) ∙ ap not (same_digest lib a a refl)))

  -- If it is an object, it has not the digest of the artifact of the making.
  abbrev pub IsOther : Json → Type 0
  IsOther (obj fs) = digest_json lib a ≢ digest_json lib (entries fs)
  IsOther _ = Unit

  -- A made envelope whose artifact was replaced by an object of another digest is not written; one whose
  -- artifact was replaced by a value that is no object is written under its id, whatever the value.
  pub write-swapped :
      (j : Json) (files : Dict Object)
      → IsOther j
      → write_evidence_file lib (swapped j) files
        ≡ (if is_obj j then none else some (Dict.put (target_of lib (swapped j)) (swapped j) files))
  unfolding is_mismatch is_text is_obj
  write-swapped (obj fs) files other =
      write-judged (obj fs) true files (ap not (other_digest lib a (entries fs) other))
  write-swapped null files other = write-judged null false files refl
  write-swapped (bool b) files other = write-judged (bool b) false files refl
  write-swapped (int z) files other = write-judged (int z) false files refl
  write-swapped (float m e) files other = write-judged (float m e) false files refl
  write-swapped (str s) files other = write-judged (str s) false files refl
  write-swapped (arr xs) files other = write-judged (arr xs) false files refl
