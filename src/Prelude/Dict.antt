-- ===== src/Prelude/Dict.antt =====
-- Python's dicts with text keys, as lists in insertion order.
use Prim.Native.String.{String}
use mathlib.Core.Path.{◌≡◌}
use mathlib.Core.Bool.{Bool, true, false}
use mathlib.Core.Option.{Option, none, some}
use mathlib.Core.List.{List, [], ◌∷◌}
use native.Mathlib.Omega.{arith}
use sourceos_syncd.Prelude.Tests.{if◌then◌else◌}
use sourceos_syncd.Prelude.Equality.{◌==◌, string_eq}

abbrev pub Dict {ℓ} : Type ℓ → Type ℓ
Dict V = List (String × V)

module _ {ℓ} {V : Type ℓ} where
  -- `d.get(k)`
  unfoldable pub get : String → Dict V → Option V
  get k [] = none
  get k ((j, v) ∷ d) = if k == j then some v else get k d

  -- `d[k] = v`: a key that is there keeps its place.
  unfoldable pub put : String → V → Dict V → Dict V
  put k v [] = (k, v) ∷ []
  put k v ((j, w) ∷ d) = if k == j then (k, v) ∷ d else (j, w) ∷ put k v d

  -- `k in d`
  unfoldable pub has : String → Dict V → Bool
  unfolding get
  has k d = elim (get k d) [ none ↦ false | some _ ↦ true ]

  pub get-put :
      (j k : String) (v : V) (d : Dict V) → get j (put k v d) ≡ (if j == k then some v else get j d)
  unfolding get put
  get-put j k v [] = ground arith
  get-put j k v (_ ∷ d) = ground (arith, get-put j k v d)
