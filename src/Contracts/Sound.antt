-- ===== src/Contracts/Sound.antt =====
-- What an accepted contract record holds.
use sourceos_syncd.Prelude.{
  String, ◌≡◌, ◌↔◌, refl, Bool, true, false, not, Option, none, some, List, [], ◌∷◌, string_eq,
  contains, keep, All, Bool-cases, inl, inr,
}
use sourceos_syncd.Prelude.Dict
use sourceos_syncd.Json.{Json, Object, get_json}
use sourceos_syncd.Show.{to_str}
use sourceos_syncd.Contracts.{
  Contract, missing_of, Refusal, or_next, refuse, require_fields, is_list, is_mapping,
  require_lists, require_mappings, require_all_allowed, check_extra, validate_dict,
}

pub or_next-none : (a b : Option Refusal) → (or_next a b ≡ none) ↔ ((a ≡ none) × (b ≡ none))
unfolding or_next
or_next-none none b = (λ h. (refl, h), λ p. p.1)
or_next-none (some e) b = (λ h. cc, λ p. cc)

pub refuse-none : (b : Bool) (e : Refusal) → (refuse (not b) e ≡ none) ↔ (b ≡ true)
refuse-none true e = (λ h. refl, λ h. refl)
refuse-none false e = (λ h. cc, λ h. cc)

keep-nil :
    (p : String → Bool) (xs : List String)
    → (keep (λ x. not (p x)) xs ≡ []) ↔ All (λ x. p x ≡ true) xs
keep-nil p [] = (λ h. tt, λ h. refl)
keep-nil p (x ∷ xs) =
    let (go, back) = keep-nil p xs in
    elim (Bool-cases (p x)) [
      | inl e ↦ rw e (λ h. (refl, go h), λ (_, h). back h)
      | inr e ↦ rw e (λ h. cc, λ (h, _). cc)
    ]

missing_of-nil : (ns : List String) → (missing_of ns ≡ none) ↔ (ns ≡ [])
missing_of-nil [] = (λ h. refl, λ h. refl)
missing_of-nil (n ∷ ns) = (λ h. cc, λ h. cc)

-- An independent account of the checks that every class makes.
pub record IsContract (text_of : Json → String) (c : Contract) (r : Object) : Type 0 where
  pub present : All (λ f. Dict.has f r ≡ true) c.required_fields
  pub allowed : All (λ p. contains p.1 (to_str text_of (get_json p.0 r)) ≡ true) c.controlled_fields
  pub lists : All (λ f. is_list (get_json f r) ≡ true) c.list_fields
  pub mappings : All (λ f. is_mapping (get_json f r) ≡ true) c.mapping_fields

module _ (r : Object) where
  require_fields-none :
      (names : List String) → (require_fields names r ≡ none) ↔ All (λ f. Dict.has f r ≡ true) names
  unfolding require_fields
  require_fields-none names =
      let (a, b) = missing_of-nil (keep (λ n. not (Dict.has n r)) names) in
      let (c, d) = keep-nil (λ n. Dict.has n r) names in (λ h. c (a h), λ h. b (d h))

  require_lists-none :
      (names : List String)
      → (require_lists names r ≡ none) ↔ All (λ f. is_list (get_json f r) ≡ true) names
  unfolding require_lists
  require_lists-none [] = (λ h. tt, λ h. refl)
  require_lists-none (f ∷ fs) =
      let (go, back) = require_lists-none fs in
      let (a, b) =
        or_next-none (refuse (not (is_list (get_json f r))) (Refusal.not_list f))
          (require_lists fs r) in
      let (c, d) = refuse-none (is_list (get_json f r)) (Refusal.not_list f) in
      (λ h. let (x, y) = a h in (c x, go y), λ (x, y). b (d x, back y))

  require_mappings-none :
      (names : List String)
      → (require_mappings names r ≡ none) ↔ All (λ f. is_mapping (get_json f r) ≡ true) names
  unfolding require_mappings
  require_mappings-none [] = (λ h. tt, λ h. refl)
  require_mappings-none (f ∷ fs) =
      let (go, back) = require_mappings-none fs in
      let (a, b) =
        or_next-none (refuse (not (is_mapping (get_json f r))) (Refusal.not_mapping f))
          (require_mappings fs r) in
      let (c, d) = refuse-none (is_mapping (get_json f r)) (Refusal.not_mapping f) in
      (λ h. let (x, y) = a h in (c x, go y), λ (x, y). b (d x, back y))

  module _ (text_of : Json → String) where
    require_all_allowed-none :
        (fs : List (String × List String))
        → (require_all_allowed text_of fs r ≡ none)
          ↔ All (λ p. contains p.1 (to_str text_of (get_json p.0 r)) ≡ true) fs
    unfolding require_all_allowed
    require_all_allowed-none [] = (λ h. tt, λ h. refl)
    require_all_allowed-none ((f, allowed) ∷ fs) =
        let here = contains allowed (to_str text_of (get_json f r)) in
        let (go, back) = require_all_allowed-none fs in
        let (a, b) =
          or_next-none (refuse (not here) (Refusal.not_allowed f))
            (require_all_allowed text_of fs r) in
        let (c, d) = refuse-none here (Refusal.not_allowed f) in
        (λ h. let (x, y) = a h in (c x, go y), λ (x, y). b (d x, back y))

    -- A record is accepted exactly when it has the required keys, each controlled one with a value of
    -- its set, lists and mappings where its class asks for them, and passes the check of its class.
    pub validate_dict-none_iff :
        (c : Contract)
        → (validate_dict text_of c r ≡ none)
          ↔ (IsContract text_of c r × (check_extra text_of c.extra_check r ≡ none))
    unfolding validate_dict
    validate_dict-none_iff c =
        let (f1, b1) = require_fields-none c.required_fields in
        let (f2, b2) = require_all_allowed-none c.controlled_fields in
        let (f3, b3) = require_lists-none c.list_fields in
        let (f4, b4) = require_mappings-none c.mapping_fields in
        let extra = check_extra text_of c.extra_check r in
        let m4 = require_mappings c.mapping_fields r in
        let m3 = require_lists c.list_fields r in
        let m2 = require_all_allowed text_of c.controlled_fields r in
        let (g4, h4) = or_next-none m4 extra in
        let (g3, h3) = or_next-none m3 (or_next m4 extra) in
        let (g2, h2) = or_next-none m2 (or_next m3 (or_next m4 extra)) in
        let (g1, h1) =
          or_next-none (require_fields c.required_fields r)
            (or_next m2 (or_next m3 (or_next m4 extra))) in
        (
          λ h.
              let (e1, r1) = g1 h in
              let (e2, r2) = g2 r1 in
              let (e3, r3) = g3 r2 in
              let (e4, r4) = g4 r3 in
              (record { present = f1 e1; allowed = f2 e2; lists = f3 e3; mappings = f4 e4 }, r4),
          λ (k, e). h1 (b1 k.present, h2 (b2 k.allowed, h3 (b3 k.lists, h4 (b4 k.mappings, e)))),
        )
