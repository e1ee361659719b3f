-- ===== src/Normalizer/Index.antt =====
-- What a registry without errors finds for a code: the one entry of the file that has it.
use mathlib.Core.Path.{subst}
use sourceos_syncd.Prelude.{
  String, Bool, true, false, none, some, List, [], ◌∷◌, ◌++◌, string_eq, ◌≡◌, refl, sym, ap, ◌∙◌,
  ◌⊎◌, inl, inr, ◌↔◌, arith, if◌then◌else◌,
}
use sourceos_syncd.Prelude.Dict
use sourceos_syncd.Prelude.Dict.{Dict, get-put}
use sourceos_syncd.Normalizer.{
  RegistryEntry, RegistryError, duplicate_code, valid, index_codes, load_registry,
}

-- The entry stands in the list.
abbrev pub Listed : RegistryEntry → List RegistryEntry → Type 0
Listed e [] = ⊥
Listed e (d ∷ es) = (d ≡ e) ⊎ Listed e es

append_nonempty : (errors : List RegistryError) (m : RegistryError) → ¬ (errors ++ m ∷ [] ≡ [])
append_nonempty [] m h = cc
append_nonempty (n ∷ errors) m h = cc

if_empty :
    (b : Bool) (errors : List RegistryError) (m : RegistryError)
    → (if b then errors ++ m ∷ [] else errors) ≡ []
    → (b ≡ false) × (errors ≡ [])
if_empty true errors m h = elim (append_nonempty errors m h) [ ]
if_empty false errors m h = (refl, h)

-- Where no error is reported at the end, none was before, and no entry took another's place.
index_codes-first :
    (es : List RegistryEntry) (codes : Dict RegistryEntry) (errors : List RegistryError)
    → (index_codes es codes errors).1 ≡ []
    → errors ≡ []
unfolding index_codes
index_codes-first [] codes errors h = h
index_codes-first (e ∷ es) codes errors h =
    (if_empty (Dict.has e.code codes) errors (duplicate_code e.code) (
      index_codes-first es (Dict.put e.code e codes)
        (if Dict.has e.code codes then errors ++ duplicate_code e.code ∷ [] else errors) h)).1

index_codes-new :
    (e : RegistryEntry) (es : List RegistryEntry) (codes : Dict RegistryEntry)
    (errors : List RegistryError)
    → (index_codes (e ∷ es) codes errors).1 ≡ []
    → Dict.has e.code codes ≡ false
unfolding index_codes
index_codes-new e es codes errors h =
    (if_empty (Dict.has e.code codes) errors (duplicate_code e.code) (
      index_codes-first es (Dict.put e.code e codes)
        (if Dict.has e.code codes then errors ++ duplicate_code e.code ∷ [] else errors) h)).0

get-new :
    (k : String) (codes : Dict RegistryEntry) → Dict.has k codes ≡ false → Dict.get k codes ≡ none
unfolding Dict.has
get-new k codes h = ground arith

put_keeps :
    (k : String) (d e : RegistryEntry) (codes : Dict RegistryEntry)
    → Dict.has e.code codes ≡ false
    → Dict.get k codes ≡ some d
    → Dict.get k (Dict.put e.code e codes) ≡ some d
put_keeps k d e codes new h =
    let unknown = get-new e.code codes new in let p = get-put k e.code e codes in ground arith

put_origin :
    (k : String) (d e : RegistryEntry) (codes : Dict RegistryEntry)
    → Dict.get k (Dict.put e.code e codes) ≡ some d
    → ((e ≡ d) × (e.code ≡ k)) ⊎ (Dict.get k codes ≡ some d)
put_origin k d e codes h = let p = get-put k e.code e codes in ground arith

put_same :
    (e : RegistryEntry) (codes : Dict RegistryEntry)
    → Dict.get e.code (Dict.put e.code e codes) ≡ some e
put_same e codes = let p = get-put e.code e.code e codes in ground arith

index_codes-kept :
    (es : List RegistryEntry) (codes : Dict RegistryEntry) (errors : List RegistryError)
    (k : String) (d : RegistryEntry)
    → (index_codes es codes errors).1 ≡ []
    → Dict.get k codes ≡ some d
    → Dict.get k (index_codes es codes errors).0 ≡ some d
unfolding index_codes
index_codes-kept [] codes errors k d h g = g
index_codes-kept (e ∷ es) codes errors k d h g =
    index_codes-kept es (Dict.put e.code e codes)
      (if Dict.has e.code codes then errors ++ duplicate_code e.code ∷ [] else errors) k d h
      (put_keeps k d e codes (index_codes-new e es codes errors h) g)

index_codes-Listed :
    (es : List RegistryEntry) (codes : Dict RegistryEntry) (errors : List RegistryError)
    (d : RegistryEntry)
    → (index_codes es codes errors).1 ≡ []
    → Listed d es
    → Dict.get d.code (index_codes es codes errors).0 ≡ some d
unfolding index_codes
index_codes-Listed [] codes errors d h l = elim l [ ]
index_codes-Listed (e ∷ es) codes errors d h (inr l) =
    index_codes-Listed es (Dict.put e.code e codes)
      (if Dict.has e.code codes then errors ++ duplicate_code e.code ∷ [] else errors) d h l
index_codes-Listed (e ∷ es) codes errors d h (inl p) =
    subst (λ x. Dict.get x.code (index_codes (e ∷ es) codes errors).0 ≡ some x) p
      (index_codes-kept es (Dict.put e.code e codes)
        (if Dict.has e.code codes then errors ++ duplicate_code e.code ∷ [] else errors) e.code e h
        (put_same e codes))

index_codes-origin :
    (es : List RegistryEntry) (codes : Dict RegistryEntry) (errors : List RegistryError)
    (k : String) (d : RegistryEntry)
    → Dict.get k (index_codes es codes errors).0 ≡ some d
    → (Listed d es × (d.code ≡ k)) ⊎ (Dict.get k codes ≡ some d)
unfolding index_codes
index_codes-origin [] codes errors k d g = inr g
index_codes-origin (e ∷ es) codes errors k d g =
    elim (index_codes-origin es (Dict.put e.code e codes)
      (if Dict.has e.code codes then errors ++ duplicate_code e.code ∷ [] else errors) k d g) [
        | inl (l, same) ↦ inl (inr l, same)
        | inr h ↦ elim (put_origin k d e codes h) [
          | inl (p, same) ↦ inl (inl p, ap (λ x. x.code) (sym p) ∙ same)
          | inr old ↦ inr old
        ]
      ]

get-none : (k : String) (e : RegistryEntry) → ¬ (Dict.get {V = RegistryEntry} k [] ≡ some e)
unfolding Dict.get
get-none k e p = cc

-- If a registry that passed its schema loads without an error, its dictionary has an entry under a
-- code exactly if the entry stands in the file and has that code.
pub load_registry-found_iff :
    (es : List RegistryEntry) (k : String) (e : RegistryEntry)
    → (load_registry (valid es)).1 ≡ []
    → (Dict.get k (load_registry (valid es)).0 ≡ some e) ↔ (Listed e es × (e.code ≡ k))
unfolding load_registry
load_registry-found_iff es k e h = (
  λ g. elim (index_codes-origin es [] [] k e g) [
    | inl found ↦ found
    | inr g ↦ elim (get-none k e g) [ ]
  ],
  λ (l, same).
      subst (λ c. Dict.get c (index_codes es [] []).0 ≡ some e) same
        (index_codes-Listed es [] [] e h l),
)
