-- ===== src/LocalStore/Registry.antt =====
-- What the registries hold after a record is put.
use Prim.Native.Char.{Char}
use mathlib.Core.Path.{subst}
use sourceos_syncd.Prelude.{
  ==_refl, String, ◌≡◌, refl, ◌∙◌, ap, Bool, true, false, ◌⊎◌, inl, inr, Option, none, some, ◌==◌,
  string_eq, if◌then◌else◌,
}
use sourceos_syncd.Prelude.Dict
use sourceos_syncd.Json.{Object}
use sourceos_syncd.LocalStore.{
  LocalStore, StoreError, unknown_kind, record_schemas, files_of, registry, stamped, write_record,
  found, file_of, put_named, put_known, put_record, get_named, get_record,
}

has-get : (k v : String) (d : Dict.Dict String) → Dict.get k d ≡ some v → Dict.has k d ≡ true
unfolding Dict.has
has-get k v d h = rw (Dict.has, h) refl

files_of-if :
    (b : Bool) (d : Dict.Dict Object) (o : Option (Dict.Dict Object))
    → files_of (if b then some d else o) ≡ (if b then d else files_of o)
files_of-if true d o = refl
files_of-if false d o = refl

registry-write_record :
    (k kind name : String) (r : Object) (s : LocalStore)
    → registry k (write_record kind name r s)
      ≡ (if k == kind then Dict.put name r (registry kind s) else registry k s)
unfolding registry write_record
registry-write_record k kind name r s =
    ap files_of (Dict.get-put k kind (Dict.put name r (registry kind s)) s.registries)
    ∙ files_of-if (k == kind) (Dict.put name r (registry kind s)) (Dict.get k s.registries)

module _ (kind name : String) (r : Object) (s : LocalStore) where
  found-written : found (Dict.get name (registry kind (write_record kind name r s))) ≡ inr r
  unfolding found
  found-written =
      ap (λ d. found (Dict.get name d)) (registry-write_record kind kind name r s)
      ∙ (ap
            (λ b.
              found
                (Dict.get name (if b then Dict.put name r (registry kind s) else registry kind s)))
            (==_refl kind)
          ∙ (ap found (Dict.get-put name name r (registry kind s))
              ∙ ap (λ b. found (if b then some r else Dict.get name (registry kind s)))
                  (==_refl name)))

module _ (is_alnum : Char → Bool) where
  get_record-known :
      (kind id name schema : String) (s : LocalStore)
      → Dict.get kind record_schemas ≡ some schema
      → file_of is_alnum id ≡ some name
      → get_record is_alnum kind id s ≡ found (Dict.get name (registry kind s))
  unfolding get_record get_named
  get_record-known kind id name schema s known file =
      ap (λ b. if b then get_named is_alnum kind (file_of is_alnum id) s else inl unknown_kind)
        (has-get kind schema record_schemas known)
      ∙ ap (λ o. get_named is_alnum kind o s) file

  abbrev IsRead : String → String → LocalStore × (StoreError ⊎ Object) → Type 0
  IsRead kind id p = get_record is_alnum kind id p.0 ≡ p.1

  put_named-get :
      (now kind id id' schema : String) (r stored : Object) (s s' : LocalStore)
      (file : Option String)
      → Dict.get kind record_schemas ≡ some schema
      → file_of is_alnum id' ≡ file
      → put_named is_alnum now kind id r schema s file ≡ (s', inr stored)
      → get_record is_alnum kind id' s' ≡ inr stored
  unfolding put_named
  put_named-get now kind id id' schema r stored s s' none known same h = cc
  put_named-get now kind id id' schema r stored s s' (some name) known same h =
      let made = stamped now id schema r in
      subst (λ p. IsRead kind id' p) h
        (get_record-known kind id' name schema (write_record kind name made s) known same
          ∙ found-written kind name made s)

  put_known-get :
      (now kind id id' : String) (r stored : Object) (s s' : LocalStore) (schema : Option String)
      (manifest : Option Object)
      → Dict.get kind record_schemas ≡ schema
      → file_of is_alnum id' ≡ file_of is_alnum id
      → put_known is_alnum now kind id r s schema manifest ≡ (s', inr stored)
      → get_record is_alnum kind id' s' ≡ inr stored
  unfolding put_known
  put_known-get now kind id id' r stored s s' none manifest known same h = cc
  put_known-get now kind id id' r stored s s' (some schema) none known same h = cc
  put_known-get now kind id id' r stored s s' (some schema) (some m) known same h =
      put_named-get now kind id id' schema r stored s s' (file_of is_alnum id) known same h

  -- A record that was put is read back as it was stored, under its id and under every other id that
  -- is cleaned to the same file name.
  pub get-put_record :
      (now kind id id' : String) (r stored : Object) (s s' : LocalStore)
      → file_of is_alnum id' ≡ file_of is_alnum id
      → put_record is_alnum now kind id r s ≡ (s', inr stored)
      → get_record is_alnum kind id' s' ≡ inr stored
  unfolding put_record
  get-put_record now kind id id' r stored s s' same h =
      put_known-get now kind id id' r stored s s' (Dict.get kind record_schemas) s.manifest refl
        same h
