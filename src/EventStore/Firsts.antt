-- ===== src/EventStore/Firsts.antt =====
-- The store that the write command fills, against a list of the events that come first with their id.
use mathlib.Core.Path.{subst}
use sourceos_syncd.Prelude.{
  ℕ, ◌+◌, String, Bool, true, false, ◌||◌, Option, none, some, List, [], ◌∷◌, ◌++◌, map, ◌≡◌, refl,
  ap, ◌∙◌, sym, arith, any_of, ◌==◌, string_eq, contains, if◌then◌else◌, inl, inr, ◌⊎◌,
}
use sourceos_syncd.Prelude.Dict
use sourceos_syncd.Json.{entries-fields, Json, null, str, Object, get_json, is_text, as_object}
use sourceos_syncd.Show.{to_str, str_field}
use sourceos_syncd.EventStore.{
  Exit, Line, event, failed, succeeded, iter_store, find_in, find_event, line_of, append_event,
  is_some, if_valid, if_object, load_valid_event, write_loaded, write_valid, cmd_write, write_all,
}

or_swap : (a b c : Bool) → (a || (b || c)) ≡ b || (a || c)
or_swap a b c = ground arith

append_nil : (es : List Object) → es ++ [] ≡ es
append_nil [] = refl
append_nil (e ∷ es) = ap (λ ds. e ∷ ds) (append_nil es)

append_assoc :
    (es : List Object) (e : Object) (ds : List Object) → (es ++ e ∷ []) ++ ds ≡ es ++ e ∷ ds
append_assoc [] e ds = refl
append_assoc (d ∷ es) e ds = ap (λ xs. d ∷ xs) (append_assoc es e ds)

first_if :
    (b : Bool) (x y : List Line)
    → (if◌then◌else◌ {A = List Line × Exit} b (x, failed) (y, succeeded)).0 ≡ (if b then x else y)
first_if true x y = refl
first_if false x y = refl

==_comm : (s t : String) → (s == t) ≡ (t == s)
==_comm s t = ground arith

pub by_test : (b : Bool) (P : Bool → Type 0) → P true → P false → P b
by_test true P t f = t
by_test false P t f = f

module _ (text_of : Json → String) (validate_event_obj : Object → List String) where
  -- The event schema asks for an id, which is a text: documented in schemas/sourceos.event.v0.1.
  abbrev pub AsksForId : Type 0
  AsksForId =
      (e : Object)
      → validate_event_obj e ≡ []
      → (id : String) × (Dict.get "event_id" e ≡ some (str id))

  abbrev pub id_of : Object → String
  id_of e = str_field text_of "event_id" "" e

  -- Of the valid events, those whose id is not among `seen` and comes for the first time.
  unfoldable pub firsts_from : List String → List (Option Object) → List Object
  unfolding str_field
  firsts_from seen [] = []
  firsts_from seen (none ∷ os) = firsts_from seen os
  firsts_from seen (some e ∷ os) =
      if contains seen (id_of e) then firsts_from seen os else e ∷ firsts_from (id_of e ∷ seen) os

  unfoldable pub firsts : List Json → List Object
  unfolding firsts_from load_valid_event
  firsts js = firsts_from [] (map (load_valid_event text_of validate_event_obj) js)

  abbrev pub stored : List Object → List Line
  stored es = map line_of es

  abbrev has_id : String → Object → Bool
  has_id id e = is_text id (get_json "event_id" e)

  pub iter_stored :
      (n : ℕ) (e : Object) (ls : List Line)
      → iter_store n (line_of e ∷ ls) ≡ event n e ∷ iter_store (n + 1) ls
  unfolding iter_store
  iter_stored n e ls = ap (λ d. event n d ∷ iter_store (n + 1) ls) (entries-fields e)

  find-if :
      (b : Bool) (e : Object) (o : Option Object)
      → is_some (if b then some e else o) ≡ b || is_some o
  find-if true e o = refl
  find-if false e o = refl

  find-any :
      (id : String) (es : List Object) (n : ℕ)
      → is_some (find_in id (iter_store n (stored es))) ≡ any_of (has_id id) es
  unfolding find_in iter_store
  find-any id [] n = refl
  find-any id (e ∷ es) n =
      ap (λ x. is_some (find_in id x)) (iter_stored n e (stored es))
      ∙ find-if (has_id id e) e (find_in id (iter_store (n + 1) (stored es)))
      ∙ ap (λ b. has_id id e || b) (find-any id es (n + 1))

  stored-append :
      (es : List Object) (e : Object) → stored (es ++ e ∷ []) ≡ append_event (stored es) e
  unfolding append_event
  stored-append [] e = refl
  stored-append (d ∷ es) e = ap (λ ls. line_of d ∷ ls) (stored-append es e)

  any_of-append :
      (p : Object → Bool) (es : List Object) (e : Object)
      → any_of p (es ++ e ∷ []) ≡ p e || any_of p es
  any_of-append p [] e = refl
  any_of-append p (d ∷ es) e =
      ap (λ b. p d || b) (any_of-append p es e) ∙ or_swap (p d) (p e) (any_of p es)

  valid-cases :
      (e : Object) (ms : List String)
      → (if_valid text_of validate_event_obj e ms ≡ none)
        ⊎ ((if_valid text_of validate_event_obj e ms ≡ some e) × (ms ≡ []))
  valid-cases e [] = inr (refl, refl)
  valid-cases e (m ∷ ms) = inl refl

  object-cases :
      (o : Option Object)
      → (if_object text_of validate_event_obj o ≡ none)
        ⊎ ((e : Object) × (if_object text_of validate_event_obj o ≡ some e)
            × (validate_event_obj e ≡ []))
  object-cases none = inl refl
  object-cases (some e) = elim (valid-cases e (validate_event_obj e)) [
    | inl h ↦ inl h
    | inr (h, clean) ↦ inr (e, h, clean)
  ]

  pub load-cases :
      (j : Json)
      → (load_valid_event text_of validate_event_obj j ≡ none)
        ⊎ ((e : Object) × (load_valid_event text_of validate_event_obj j ≡ some e)
            × (validate_event_obj e ≡ []))
  unfolding load_valid_event
  load-cases j = object-cases (as_object j)

  pub id_of-text : (e : Object) (id : String) → Dict.get "event_id" e ≡ some (str id) → id_of e ≡ id
  unfolding str_field to_str
  id_of-text e id h = ap (λ o. elim o [ none ↦ "" | some j ↦ to_str text_of j ]) h

  has_id-text :
      (e : Object) (id k : String) → Dict.get "event_id" e ≡ some (str id) → has_id k e ≡ id == k
  unfolding get_json is_text
  has_id-text e id k h = ap (λ o. is_text k (elim o [ none ↦ null | some v ↦ v ])) h

  write_valid-known :
      (es : List Object) (e : Object) (id : String)
      → Dict.get "event_id" e ≡ some (str id)
      → (write_valid text_of validate_event_obj true (stored es) e (Dict.get "event_id" e)).0
        ≡ (if any_of (has_id id) es then stored es else stored (es ++ e ∷ []))
  unfolding write_valid find_event to_str
  write_valid-known es e id h =
      ap (λ o. (write_valid text_of validate_event_obj true (stored es) e o).0) h
      ∙ first_if (is_some (find_event (stored es) id)) (stored es) (append_event (stored es) e)
      ∙ ap (λ b. if b then stored es else append_event (stored es) e) (find-any id es 1)
      ∙ ap (λ ls. if any_of (has_id id) es then stored es else ls) (sym (stored-append es e))

  pub firsts-known :
      (seen : List String) (e : Object) (os : List (Option Object)) (id : String)
      → id_of e ≡ id
      → firsts_from seen (some e ∷ os)
        ≡ (if contains seen id then firsts_from seen os else e ∷ firsts_from (id ∷ seen) os)
  unfolding firsts_from
  firsts-known seen e os id h =
      ap (λ k. if contains seen k then firsts_from seen os else e ∷ firsts_from (k ∷ seen) os) h

  agree-cons :
      (es : List Object) (seen : List String) (e : Object) (id : String)
      → Dict.get "event_id" e ≡ some (str id)
      → ((k : String) → any_of (has_id k) es ≡ contains seen k)
      → (k : String) → any_of (has_id k) (es ++ e ∷ []) ≡ contains (id ∷ seen) k
  agree-cons es seen e id h agree k =
      any_of-append (has_id k) es e
      ∙ ap (λ b. b || any_of (has_id k) es) (has_id-text e id k h ∙ ==_comm id k)
      ∙ ap (λ b. (k == id) || b) (agree k)

  unfoldable pub load : Json → Option Object
  load j = load_valid_event text_of validate_event_obj j

  -- What is written after the events `es`, whose ids are those in `seen`.
  write_all-from :
      AsksForId
      → (js : List Json) (es : List Object) (seen : List String)
      → ((id : String) → any_of (has_id id) es ≡ contains seen id)
      → write_all text_of validate_event_obj js (stored es)
        ≡ stored (es ++ firsts_from seen (map load js))
  unfolding write_all cmd_write firsts_from load
  write_all-from asks [] es seen agree = ap stored (sym (append_nil es))
  write_all-from asks (j ∷ js) es seen agree =
      let IsWritten : Option Object → Type 0 = λ o.
        write_all text_of validate_event_obj js
          (write_loaded text_of validate_event_obj true (stored es) o).0
        ≡ stored (es ++ firsts_from seen (o ∷ map load js)) in
      elim (load-cases j) [
        | inl e ↦ subst IsWritten (sym e) (write_all-from asks js es seen agree)
        | inr (e, loaded, clean) ↦
            let (id, h) = asks e clean in
            subst IsWritten (sym loaded) (
              ap (write_all text_of validate_event_obj js) (
                write_valid-known es e id h
                ∙ ap (λ b. if b then stored es else stored (es ++ e ∷ [])) (agree id))
              ∙ by_test (contains seen id)
                  (λ b.
                    write_all text_of validate_event_obj js
                      (if b then stored es else stored (es ++ e ∷ []))
                    ≡ stored (
                        es
                        ++ (if b
                            then firsts_from seen (map load js)
                            else e ∷ firsts_from (id ∷ seen) (map load js))))
                  (write_all-from asks js es seen agree)
                  (write_all-from asks js (es ++ e ∷ []) (id ∷ seen)
                      (agree-cons es seen e id h agree)
                    ∙ ap stored (append_assoc es e (firsts_from (id ∷ seen) (map load js))))
              ∙ ap (λ ds. stored (es ++ ds))
                  (sym (firsts-known seen e (map load js) id (id_of-text e id h))))
      ]

  -- The files that the write command is given one after the other leave a store with the valid events
  -- among them, each at the first time that its id comes, in the order in which they came; if the
  -- schema asks for an id.
  pub write_all-firsts :
      AsksForId → (js : List Json) → write_all text_of validate_event_obj js [] ≡ stored (firsts js)
  unfolding firsts load
  write_all-firsts asks js = write_all-from asks js [] [] (λ id. refl)
