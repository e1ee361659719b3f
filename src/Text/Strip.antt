-- ===== src/Text/Strip.antt =====
-- Laws of `strip`.
use Prim.Native.Char.{Char}
use text.Mathlib.TextLemmas.{cons-append, nil-append}
use sourceos_syncd.Prelude.{String, ◌<>◌, ◌≡◌, refl, ap, Bool, true, Bool-cases, inl, inr}
use sourceos_syncd.Text.{is_space, lstrip, settle, rstrip, strip}

module _ (p : Char → Bool) (d : Char) (space : p d ≡ true) where
  abbrev tail_of : String
  tail_of = String.◌∷◌ d ""

  lstrip-tail : lstrip p tail_of ≡ ""
  unfolding lstrip
  lstrip-tail = rw space

  rstrip-append_space : (s : String) → rstrip p (s <> tail_of) ≡ rstrip p s
  unfolding rstrip settle
  rstrip-append_space String.[] = rw (nil-append, space)
  rstrip-append_space (String.◌∷◌ c s) = rw cons-append (ap (settle p c) (rstrip-append_space s))

  lstrip-append_space : (s : String) → rstrip p (lstrip p (s <> tail_of)) ≡ rstrip p (lstrip p s)
  unfolding lstrip
  lstrip-append_space String.[] = rw nil-append (rw space)
  lstrip-append_space (String.◌∷◌ c s) = rw cons-append (elim (Bool-cases (p c)) [
    | inl e ↦ rw e (lstrip-append_space s)
    | inr e ↦ rw e (rw (← cons-append) (rstrip-append_space (String.◌∷◌ c s)))
  ])

-- A newline at the end makes no difference.
pub strip-newline : (s : String) → strip (s <> "\n") ≡ strip s
unfolding strip
strip-newline s = lstrip-append_space is_space _ refl s
