-- ===== src/EventStore/Verified.antt =====
-- The store that the write command fills passes the verification.
use mathlib.Core.Path.{subst}
use sourceos_syncd.Prelude.{
  ℕ, ◌+◌, String, Bool, true, false, Option, List, [], ◌∷◌, ◌++◌, map, ◌≡◌, refl, ap, ◌∙◌, sym, inl,
  inr, contains, string_eq, if◌then◌else◌, Bool-cases,
}
use sourceos_syncd.Json.{Json, Object}
use sourceos_syncd.EventStore.{
  Line, StoreProblem, duplicate, iter_store, line_of, invalids, verify_entries, cmd_verify_store,
  write_all,
}
use sourceos_syncd.EventStore.Firsts.{
  AsksForId, id_of, firsts_from, firsts, stored, iter_stored, load, load-cases, write_all-firsts,
}

module _ (text_of : Json → String) (validate_event_obj : Object → List String) where
  no_problem :
      (b : Bool) (n : ℕ) (id : String) (ms : List String) (seen rest : List StoreProblem)
      → b ≡ false
      → ms ≡ []
      → (if b
          then duplicate n id ∷ (invalids text_of validate_event_obj n ms ++ seen)
          else invalids text_of validate_event_obj n ms ++ rest)
        ≡ rest
  no_problem false n id [] seen rest h clean = refl
  no_problem true n id ms seen rest h clean = cc
  no_problem false n id (m ∷ ms) seen rest h clean = cc

module _ (text_of : Json → String) (validate_event_obj : Object → List String) where
  verify-event :
      (seen : List String) (n : ℕ) (e : Object) (ls : List Line)
      → contains seen (id_of text_of validate_event_obj e) ≡ false
      → validate_event_obj e ≡ []
      → verify_entries text_of validate_event_obj seen (iter_store n (line_of e ∷ ls))
        ≡ verify_entries text_of validate_event_obj
            (id_of text_of validate_event_obj e ∷ seen)
            (iter_store (n + 1) ls)
  unfolding verify_entries
  verify-event seen n e ls new clean =
      ap (verify_entries text_of validate_event_obj seen)
        (iter_stored text_of validate_event_obj n e ls)
      ∙ no_problem text_of validate_event_obj _ n _ (validate_event_obj e) _ _ new clean

  abbrev Clean : List String → ℕ → List Object → Type 0
  Clean seen n es =
      verify_entries text_of validate_event_obj seen
        (iter_store n (stored text_of validate_event_obj es))
      ≡ []

  first_or : Bool → List String → Object → List Json → List Object
  first_or b seen e js =
      let os = map (load text_of validate_event_obj) js in
      if b
      then firsts_from text_of validate_event_obj seen os
      else e ∷ firsts_from text_of validate_event_obj (id_of text_of validate_event_obj e ∷ seen) os

  verify-firsts_from :
      AsksForId text_of validate_event_obj
      → (js : List Json) (seen : List String) (n : ℕ)
      → Clean seen n
          (firsts_from text_of validate_event_obj seen (map (load text_of validate_event_obj) js))
  unfolding firsts_from load first_or iter_store verify_entries
  verify-firsts_from asks [] seen n = refl
  verify-firsts_from asks (j ∷ js) seen n =
      let IsClean : Option Object → Type 0 = λ o. Clean seen n (
        firsts_from text_of validate_event_obj seen
          (o ∷ map (load text_of validate_event_obj) js)) in
      elim (load-cases text_of validate_event_obj j) [
        | inl e ↦ subst IsClean (sym e) (verify-firsts_from asks js seen n)
        | inr (e, loaded, clean) ↦
            subst IsClean (sym loaded)
              (elim (Bool-cases (contains seen (id_of text_of validate_event_obj e))) [
                | inl known ↦
                    subst (λ b. Clean seen n (first_or b seen e js)) (sym known)
                      (verify-firsts_from asks js seen n)
                | inr new ↦
                    subst (λ b. Clean seen n (first_or b seen e js)) (sym new)
                      (verify-event seen n e
                          (stored text_of validate_event_obj (
                            firsts_from text_of validate_event_obj
                              (id_of text_of validate_event_obj e ∷ seen)
                              (map (load text_of validate_event_obj) js)))
                          new clean
                        ∙ verify-firsts_from asks js (id_of text_of validate_event_obj e ∷ seen)
                            (n + 1))
              ])
      ]

  -- After the files that the write command was given one after the other, the verification of the
  -- store finds no error, if the schema asks for an id.
  pub verify-write_all :
      AsksForId text_of validate_event_obj
      → (js : List Json)
      → cmd_verify_store text_of validate_event_obj false
          (write_all text_of validate_event_obj js [])
        ≡ []
  unfolding cmd_verify_store firsts load
  verify-write_all asks js =
      ap (cmd_verify_store text_of validate_event_obj false)
        (write_all-firsts text_of validate_event_obj asks js)
      ∙ ap (λ ps. ps ++ []) (verify-firsts_from asks js [] 1)
