-- ===== src/Scorecard/Printed.antt =====
-- `Scorecard.as_dict` and `validate_scorecard`.
use mathlib.Core.Option
use sourceos_syncd.Prelude.{
  ℕ, ◌≤◌, String, string_eq, Bool, true, false, not, ◌&&◌, Option, none, some, List, [], ◌∷◌, ◌≡◌,
  refl, ap, ◌∙◌, sym, arith, starts_with,
}
use sourceos_syncd.Prelude.Dict
use sourceos_syncd.Prelude.Signed.{ℤ, pos, negsuc, leb_ℤ, sub_ℕ}
use sourceos_syncd.Json.{
  Json, str, int, arr, obj, nil, cons, Items, Object, fields, get_json, in_set, is_text,
}
use sourceos_syncd.Show.{str_field}
use sourceos_syncd.Reports.Checks.{
  Library, Complaint, about, Found, ◌also◌, also-clean, flag, outside, lacks, is_arr, is_obj,
  as_int, bind_elim,
}
use sourceos_syncd.Evidence.Tamper.{digest_json-prefix}
use sourceos_syncd.Scorecard.{
  scorecard_schema, scorecard_statuses, ScoreStatus, ready, watch, low, blocked, score_name, Gate,
  Dimensions, Scorecard, clamped, score_of, scorecard_of, evaluate_scorecard,
}

unfoldable pub gate_items : (Gate → Json) → List Gate → Items
gate_items gate_dict [] = nil
gate_items gate_dict (g ∷ gs) = cons (gate_dict g) (gate_items gate_dict gs)

unfoldable pub as_dict : (Dimensions → Object) → (Gate → Json) → Scorecard → Object
unfolding fields gate_items
as_dict dimensions_dict gate_dict c =
    ("schema", str c.schema)
    ∷ ("scorecard_id", str c.scorecard_id)
    ∷ ("generated_at", str c.generated_at)
    ∷ ("engine", str c.engine)
    ∷ ("component", str c.component)
    ∷ ("status", str (score_name c.status))
    ∷ ("score", int (pos c.score))
    ∷ ("report_digest", str c.report_digest)
    ∷ ("summary", str c.summary)
    ∷ ("dimensions", obj (fields (dimensions_dict c.dimensions)))
    ∷ ("gates", arr (gate_items gate_dict c.gates))
    ∷ []

abbrev pub required_scorecard_keys : List String
required_scorecard_keys =
    "schema" ∷ "scorecard_id" ∷ "generated_at" ∷ "engine" ∷ "component" ∷ "status" ∷ "score"
    ∷ "report_digest" ∷ "summary" ∷ "dimensions" ∷ "gates" ∷ []

-- `isinstance(score, int)` and from 0 to 100
abbrev pub in_range : Option ℤ → Bool
in_range none = false
in_range (some z) = leb_ℤ (pos 0) z && leb_ℤ z (pos 100)

unfoldable pub validate_scorecard : Library → Object → Found
unfolding flag outside lacks in_set is_arr is_obj as_int get_json is_text str_field
validate_scorecard lib card =
    flag (lacks card required_scorecard_keys) (about "keys" "are missing")
    also flag (not (is_text scorecard_schema (get_json "schema" card)))
        (about "schema" "unsupported")
    also outside (in_set scorecard_statuses (get_json "status" card)) (about "status" "is invalid")
    also flag (not (in_range (as_int (get_json "score" card))))
        (about "score" "must be an integer from 0 to 100")
    also flag (not (starts_with (str_field lib.text_of "report_digest" "" card) "sha256:"))
        (about "report_digest" "must start with sha256:")
    also flag (not (is_obj (get_json "dimensions" card))) (about "dimensions" "must be an object")
    also flag (not (is_arr (get_json "gates" card))) (about "gates" "must be a list")

score_name-known :
    (s : ScoreStatus) (c : Complaint)
    → outside (in_set scorecard_statuses (str (score_name s))) c ≡ some []
unfolding outside in_set string_eq
score_name-known ready c = refl
score_name-known watch c = refl
score_name-known low c = refl
score_name-known blocked c = refl

pub clamped_le : (z : ℤ) → clamped z ≤ 100
clamped_le (pos n) = omega arith
clamped_le (negsuc n) = omega arith

in_range-clamped : (z : ℤ) → in_range (some (pos (clamped z))) ≡ true
in_range-clamped (pos n) = ground arith
in_range-clamped (negsuc n) = refl

module _ (lib : Library) (now : String) (dimensions_dict : Dimensions → Object)
    (gate_dict : Gate → Json) (r : Object) where
  scorecard_of-validate :
      (component : String) (d : Dimensions) (gates : List Gate) (total : ℕ)
      → validate_scorecard lib (
          as_dict dimensions_dict gate_dict
            (scorecard_of lib now r component d gates (score_of total)))
        ≡ some []
  unfolding validate_scorecard as_dict scorecard_of string_eq get_json Dict.get Dict.has is_arr
      is_obj is_text lacks flag str_field as_int score_of
  scorecard_of-validate component d gates total = also-clean refl (
      also-clean refl (
        also-clean
          (score_name-known (scorecard_of lib now r component d gates (score_of total)).status
            (about "status" "is invalid"))
          (also-clean
            (ap (λ b. flag (not b) (about "score" "must be an integer from 0 to 100"))
              (in_range-clamped (sub_ℕ 100 total)))
            (also-clean
              (ap (λ b. flag (not b) (about "report_digest" "must start with sha256:"))
                (digest_json-prefix lib r))
              (also-clean refl refl)))))

  -- A scorecard that `evaluate_scorecard` makes passes `validate_scorecard` when it is printed: its
  -- score is from 0 to 100, whatever was taken off it.
  pub evaluate_scorecard-validate :
      (card : Scorecard)
      → evaluate_scorecard lib now r ≡ some card
      → validate_scorecard lib (as_dict dimensions_dict gate_dict card) ≡ some []
  unfolding evaluate_scorecard
  evaluate_scorecard-validate card h = bind_elim h λ _ _ h1. bind_elim h1 λ _ _ h2.
      bind_elim h2 λ _ _ h3. bind_elim h3 λ _ _ h4. bind_elim h4 λ _ _ h5. bind_elim h5 λ _ _ h6.
        bind_elim h6 λ _ _ h7. bind_elim h7 λ _ _ h8.
          sym (
            ap (λ x. validate_scorecard lib (as_dict dimensions_dict gate_dict x))
              (Option.some-injective _ _ h8))
          ∙ scorecard_of-validate _ _ _ _
