-- ===== src/Contracts/Card.antt =====
-- The decision card of an accepted conflict record.
use sourceos_syncd.Prelude.{
  String, ◌≡◌, refl, Bool, true, not, Option, none, some, List, [], ◌∷◌, string_eq, contains,
  all_of, All, Bool-cases, inl, inr,
}
use sourceos_syncd.Json.{Json, Object, get_json, as_object, as_list}
use sourceos_syncd.Show.{to_str}
use sourceos_syncd.Contracts.{
  Refusal, or_next, refuse, require_fields, card_fields, conflict_record, decision_card_options,
  texts, check_options, check_listed, check_card, check_extra, validate_dict,
}
use sourceos_syncd.Contracts.Sound.{or_next-none, refuse-none, validate_dict-none_iff}
use sourceos_syncd.Contracts.Build.{contains-All}

all_of-All : (p : String → Bool) (xs : List String) → all_of p xs ≡ true → All (λ x. p x ≡ true) xs
all_of-All p [] h = tt
all_of-All p (x ∷ xs) h = elim (Bool-cases (p x)) [
  | inl e ↦ (e, all_of-All p xs (rw e at h))
  | inr e ↦ cc
]

-- The options that a card offers are of the three, and it recommends and selects among them.
pub record IsDecided (text_of : Json → String) (card : Object) : Type 0 where
  pub options : List Json
  pub listed : as_list (get_json "options" card) ≡ some options
  pub offered : All (λ o. contains decision_card_options o ≡ true) (texts text_of options)
  pub recommended :
      contains (texts text_of options) (to_str text_of (get_json "recommended_option" card)) ≡ true
  pub selected :
      contains (texts text_of options) (to_str text_of (get_json "selected_option" card)) ≡ true

module _ (text_of : Json → String) where
  check_options-IsDecided :
      (js : List Json) (card : Object)
      → as_list (get_json "options" card) ≡ some js
      → check_options text_of (texts text_of js) card ≡ none
      → IsDecided text_of card
  unfolding check_options
  check_options-IsDecided js card listed h =
      let options = texts text_of js in
      let offers = all_of (contains decision_card_options) options in
      let recommends = contains options (to_str text_of (get_json "recommended_option" card)) in
      let selects = contains options (to_str text_of (get_json "selected_option" card)) in
      let (a, b) =
        (or_next-none (refuse (not offers) Refusal.bad_options) (
            or_next (refuse (not recommends) Refusal.bad_recommended)
              (refuse (not selects) Refusal.bad_selected))).0
          h in
      let (c, d) =
        (or_next-none (refuse (not recommends) Refusal.bad_recommended)
            (refuse (not selects) Refusal.bad_selected)).0
          b in
      record {
        options = js;
        listed = listed;
        offered =
            all_of-All (contains decision_card_options) options
              ((refuse-none offers Refusal.bad_options).0 a);
        recommended = (refuse-none recommends Refusal.bad_recommended).0 c;
        selected = (refuse-none selects Refusal.bad_selected).0 d;
      }

  check_listed-IsDecided :
      (o : Option (List Json)) (card : Object)
      → as_list (get_json "options" card) ≡ o
      → check_listed text_of o card ≡ none
      → IsDecided text_of card
  unfolding check_listed
  check_listed-IsDecided none card listed h = cc
  check_listed-IsDecided (some js) card listed h = check_options-IsDecided js card listed h

  check_card-IsDecided :
      (o : Option Object)
      → check_card text_of o ≡ none
      → (card : Object) × (o ≡ some card) × IsDecided text_of card
  unfolding check_card
  check_card-IsDecided none h = cc
  check_card-IsDecided (some card) h = (
    card,
    refl,
    check_listed-IsDecided (as_list (get_json "options" card)) card refl
        ((or_next-none (require_fields card_fields card)
            (check_listed text_of (as_list (get_json "options" card)) card)).0
          h).1,
  )

  -- An accepted conflict record has a decision card that offers only merge, fork and skip, and the
  -- option that it selects is one of these.
  pub conflict_record-IsDecided :
      (r : Object)
      → validate_dict text_of conflict_record r ≡ none
      → (card : Object) × (as_object (get_json "decision_card" r) ≡ some card)
        × IsDecided text_of card
        × (contains decision_card_options (to_str text_of (get_json "selected_option" card)) ≡ true)
  unfolding check_extra
  conflict_record-IsDecided r h =
      let (_, extra) = (validate_dict-none_iff r text_of conflict_record).0 h in
      let (card, found, d) = check_card-IsDecided (as_object (get_json "decision_card" r)) extra in
      (
        card,
        found,
        d,
        contains-All (λ o. contains decision_card_options o ≡ true) (texts text_of d.options)
            (to_str text_of (get_json "selected_option" card)) d.offered d.selected,
      )
