-- ===== src/SafeId/Portable.antt =====
-- Every character of a safe id is a safe one.
use Prim.Native.Char.{Char}
use text.Mathlib.TextLemmas.{cons-append, nil-append}
use sourceos_syncd.Prelude.{
  String, ◌≡◌, ◌≢◌, Bool, true, some, string_eq, arith, Bool-cases, inl, inr,
}
use sourceos_syncd.Text.{lstrip, settle, rstrip, strip}
use sourceos_syncd.SafeId.{is_safe, is_dot, clean, cleaned, safe_id}

-- `p` holds of each character.
abbrev pub AllChars : (Char → Bool) → String → Type 0
AllChars p String.[] = Unit
AllChars p (String.◌∷◌ c s) = (p c ≡ true) × AllChars p s

module _ (p q : Char → Bool) where
  AllChars-lstrip : (s : String) → AllChars p s → AllChars p (lstrip q s)
  unfolding lstrip
  AllChars-lstrip String.[] h = h
  AllChars-lstrip (String.◌∷◌ c s) (hc, hs) = elim (Bool-cases (q c)) [
    | inl e ↦ rw e (AllChars-lstrip s hs)
    | inr e ↦ rw e (hc, hs)
  ]

  AllChars-settle : (c : Char) (s : String) → p c ≡ true → AllChars p s → AllChars p (settle q c s)
  unfolding settle
  AllChars-settle c String.[] hc h = elim (Bool-cases (q c)) [
    | inl e ↦ rw e tt
    | inr e ↦ rw e (hc, tt)
  ]
  AllChars-settle c (String.◌∷◌ d t) hc h = (hc, h)

  AllChars-rstrip : (s : String) → AllChars p s → AllChars p (rstrip q s)
  unfolding rstrip
  AllChars-rstrip String.[] h = h
  AllChars-rstrip (String.◌∷◌ c s) (hc, hs) =
      AllChars-settle c (rstrip q s) hc (AllChars-rstrip s hs)

module _ (is_alnum : Char → Bool) where
  underscore : is_safe is_alnum "_" ≡ true
  unfolding is_safe
  underscore = ground arith

  AllChars-clean : (s : String) → AllChars (is_safe is_alnum) (clean is_alnum s)
  unfolding clean
  AllChars-clean String.[] = tt
  AllChars-clean (String.◌∷◌ c s) = elim (Bool-cases (is_safe is_alnum c)) [
    | inl e ↦ rw e (e, AllChars-clean s)
    | inr e ↦ rw e (rw cons-append (underscore, rw nil-append (AllChars-clean s)))
  ]

  cleaned-AllChars : (s : String) → AllChars (is_safe is_alnum) (cleaned is_alnum s)
  unfolding cleaned
  cleaned-AllChars s =
      AllChars-rstrip (is_safe is_alnum) is_dot (lstrip is_dot (clean is_alnum (strip s))) (
        AllChars-lstrip (is_safe is_alnum) is_dot (clean is_alnum (strip s))
          (AllChars-clean (strip s)))

  -- A safe id is not empty, and each character of it is alphanumeric, `-`, `_` or `.`.
  pub safe_id-portable :
      (s t : String) → safe_id is_alnum s ≡ some t → (t ≢ "") × AllChars (is_safe is_alnum) t
  unfolding safe_id
  safe_id-portable s t h = (ground arith, subst_safe (ground arith))
    where
      subst_safe : cleaned is_alnum s ≡ t → AllChars (is_safe is_alnum) t
      subst_safe e = rw (← e) (cleaned-AllChars s)
