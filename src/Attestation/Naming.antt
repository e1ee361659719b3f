-- ===== src/Attestation/Naming.antt =====
-- What the artifact name binds.
use text.Mathlib.TextLemmas.{append_cancel_left, append_assoc}
use sourceos_syncd.Prelude.{String, ◌≡◌, ◌<>◌}
use sourceos_syncd.Attestation.{expected_artifact_id}

-- Within one content view, artifact names of different versions differ.
pub expected_artifact_id-injective :
    (org content_view v w : String)
    → expected_artifact_id org content_view v ≡ expected_artifact_id org content_view w
    → v ≡ w
unfolding expected_artifact_id
expected_artifact_id-injective org cv v w e = append_cancel_left ":" _ _ (
    append_cancel_left cv _ _ (
      append_cancel_left ":" _ _
        (append_cancel_left org _ _ (append_cancel_left "urn:srcos:content-view:" _ _ e))))

-- A colon may move between the organisation and the content view, and between the content view and
-- the version: the name stays the same.
pub expected_artifact_id-colon :
    (a b c d : String)
    → (expected_artifact_id (a <> (":" <> b)) c d ≡ expected_artifact_id a (b <> (":" <> c)) d)
      × (expected_artifact_id a (b <> (":" <> c)) d ≡ expected_artifact_id a b (c <> (":" <> d)))
unfolding expected_artifact_id
expected_artifact_id-colon a b c d = (simp append_assoc, simp append_assoc)
