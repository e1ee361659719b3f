-- ===== src/Prelude/Lists.antt =====
-- Lists measured by native numbers, and predicates over lists by recursion.
use Prim.Native.Nat.{ℕ, suc, ◌+◌}
use mathlib.Core.Path.{◌≡◌, refl}
use mathlib.Core.Logic.{◌⊎◌, inl, inr}
use mathlib.Core.Bool.{Bool, true, false, ◌&&◌, ◌||◌}
use mathlib.Core.List.{List, [], ◌∷◌, ◌++◌}
use native.Mathlib.Omega.{arith}
use sourceos_syncd.Prelude.Tests.{if◌then◌else◌}

module _ {ℓ} {A : Type ℓ} where
  abbrev pub length : List A → ℕ
  length [] = 0
  length (x ∷ xs) = suc (length xs)

  pub length-append : (xs ys : List A) → length (xs ++ ys) ≡ length xs + length ys
  length-append [] ys = omega arith
  length-append (x ∷ xs) ys = omega (arith, length-append xs ys)

  abbrev pub All {κ} : (A → Type κ) → List A → Type κ
  All P [] = Unit
  All P (x ∷ xs) = P x × All P xs

  -- Python's `all(p(x) for x in xs)` and `any`.
  abbrev pub all_of : (A → Bool) → List A → Bool
  all_of p [] = true
  all_of p (x ∷ xs) = p x && all_of p xs

  abbrev pub any_of : (A → Bool) → List A → Bool
  any_of p [] = false
  any_of p (x ∷ xs) = p x || any_of p xs

  -- `[x for x in xs if p(x)]`
  abbrev pub keep : (A → Bool) → List A → List A
  keep p [] = []
  keep p (x ∷ xs) = let rest = keep p xs in if p x then x ∷ rest else rest

-- The last element of a list is the last of what it is cut into.
pub snoc_split {ℓ} :
    {A : Type ℓ} (xs : List A) (s : A) (pre : List A) (c d : A) (post : List A)
    → xs ++ s ∷ [] ≡ pre ++ c ∷ d ∷ post
    → (xs ≡ pre ++ c ∷ []) ⊎ ((rest : List A) × (xs ≡ pre ++ c ∷ d ∷ rest))
snoc_split [] s [] c d post e = cc
snoc_split (x ∷ []) s [] c d post e = inl (cc)
snoc_split (x ∷ y ∷ zs) s [] c d post e = inr (zs, cc)
snoc_split [] s (q ∷ []) c d post e = cc
snoc_split [] s (q ∷ r ∷ pre) c d post e = cc
snoc_split (x ∷ xs) s (q ∷ pre) c d post e = elim (snoc_split xs s pre c d post (cc)) [
  | inl f ↦ inl (cc)
  | inr (rest, f) ↦ inr (rest, cc)
]

pub snoc_last {ℓ} :
    {A : Type ℓ} (xs : List A) (s : A) (pre : List A) (c : A)
    → xs ++ s ∷ [] ≡ pre ++ c ∷ []
    → (xs ≡ pre) × (s ≡ c)
snoc_last [] s [] c e = (refl, cc)
snoc_last [] s (q ∷ []) c e = cc
snoc_last [] s (q ∷ r ∷ pre) c e = cc
snoc_last (x ∷ []) s [] c e = cc
snoc_last (x ∷ y ∷ zs) s [] c e = cc
snoc_last (x ∷ xs) s (q ∷ pre) c e = let (f, g) = snoc_last xs s pre c (cc) in (cc, g)

pub nil-ne_middle {ℓ} :
    {A : Type ℓ} (pre : List A) (c : A) (post : List A) → ¬ ([] ≡ pre ++ c ∷ post)
nil-ne_middle [] c post e = cc
nil-ne_middle (q ∷ pre) c post e = cc
