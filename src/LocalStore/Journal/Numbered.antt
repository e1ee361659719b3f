-- ===== src/LocalStore/Journal/Numbered.antt =====
-- The journal only grows, and numbers its events.
use mathlib.Core.Path.{subst}
use sourceos_syncd.Prelude.{
  ℕ, ◌+◌, String, ◌<>◌, string_eq, Bool, true, false, ◌⊎◌, inl, inr, Option, none, some, List, [],
  ◌∷◌, ◌++◌, map, ◌≡◌, refl, ap, ◌∙◌, sym, length, length-append, contains, if◌then◌else◌,
  Bool-cases,
}
use sourceos_syncd.Prelude.Dict
use sourceos_syncd.Prelude.Signed.{ℤ}
use sourceos_syncd.Json.{Json, str, obj, Object, fields, get_json}
use sourceos_syncd.EventStore.{Line, blank, broken, value}
use sourceos_syncd.LocalStore.{LocalStore}
use sourceos_syncd.LocalStore.Journal.{
  AppendRequest, lane_in, with_journal, iter_lines, iter_events, next_event_id, journal_event,
  next_generation, append_checked, append_in, append_to, append_event, append_all, init,
  corrupt_event, write_line, write_manifest, event_types, JournalError, unknown_event_type,
}

append_assoc : (es : List Json) (e : Json) (ds : List Json) → (es ++ e ∷ []) ++ ds ≡ es ++ e ∷ ds
append_assoc [] e ds = refl
append_assoc (d ∷ es) e ds = ap (λ xs. d ∷ xs) (append_assoc es e ds)

append_nil : (es : List Json) → es ++ [] ≡ es
append_nil [] = refl
append_nil (e ∷ es) = ap (λ ds. e ∷ ds) (append_nil es)

module _ (padded decimal : ℕ → String) (parse_int : String → Option ℤ) (message : ℕ → String)
    (now : String) where
  events : LocalStore → List Json
  events s = iter_events padded decimal parse_int message now s

  lines-append :
      (n : ℕ) (ls : List Line) (j : Json)
      → iter_lines padded decimal parse_int message now n (ls ++ value j ∷ [])
        ≡ iter_lines padded decimal parse_int message now n ls ++ j ∷ []
  unfolding iter_lines
  lines-append n [] j = refl
  lines-append n (blank ∷ ls) j = lines-append (n + 1) ls j
  lines-append n (broken ∷ ls) j =
      ap (λ js. obj (fields (corrupt_event padded decimal parse_int message now n)) ∷ js)
        (lines-append (n + 1) ls j)
  lines-append n (value i ∷ ls) j = ap (λ js. i ∷ js) (lines-append (n + 1) ls j)

  -- The event that a request would write.
  next : AppendRequest → LocalStore → Object
  next q s =
      journal_event padded decimal parse_int message now q
        (next_event_id padded decimal parse_int message now s)

  -- A request leaves the events as they are, or adds its own.
  abbrev Grows : AppendRequest → LocalStore → LocalStore → Type 0
  Grows q s t = (events t ≡ events s) ⊎ (events t ≡ events s ++ obj (fields (next q s)) ∷ [])

  next_generation-journal :
      (e m : Object) (s : LocalStore) (o : Option ℤ)
      → (next_generation padded decimal parse_int message now e m s o).0.journal ≡ s.journal
  unfolding write_manifest
  next_generation-journal e m s none = refl
  next_generation-journal e m s (some g) = refl

  checked-Grows :
      (q : AppendRequest) (m : Object) (s : LocalStore)
      → Grows q s (append_checked padded decimal parse_int message now q m s).0
  unfolding append_checked events next iter_events write_line
  checked-Grows q m s = inr (
      ap (λ j. iter_lines padded decimal parse_int message now 1 (with_journal j))
        (next_generation-journal _ m (write_line padded decimal parse_int message now (next q s) s)
          _)
      ∙ lines-append 1 (with_journal s.journal) (obj (fields (next q s))))

  guarded : Bool → AppendRequest → Object → LocalStore → LocalStore × (JournalError ⊎ Object)
  guarded b q m s =
      if b
      then append_checked padded decimal parse_int message now q m s
      else (s, inl unknown_event_type)

  in-Grows :
      (q : AppendRequest) (m : Object) (s : LocalStore) (o : Option Bool)
      → Grows q s (append_in padded decimal parse_int message now q m s o).0
  unfolding guarded
  in-Grows q m s none = inl refl
  in-Grows q m s (some false) = inl refl
  in-Grows q m s (some true) = elim (Bool-cases (contains event_types q.event_type)) [
    | inl h ↦ subst (λ b. Grows q s (guarded b q m s).0) (sym h) (checked-Grows q m s)
    | inr h ↦ subst (λ b. Grows q s (guarded b q m s).0) (sym h) (inl refl)
  ]

  to-Grows :
      (q : AppendRequest) (s : LocalStore) (o : Option Object)
      → Grows q s (append_to padded decimal parse_int message now q s o).0
  to-Grows q s none = inl refl
  to-Grows q s (some m) = in-Grows q m s (lane_in q.lane (Dict.get "lanes" m))

  append-Grows :
      (q : AppendRequest) (s : LocalStore)
      → Grows q s (append_event padded decimal parse_int message now q s).0
  unfolding append_event
  append-Grows q s = to-Grows q s s.manifest

  -- Events with consecutive numbers in their ids.
  abbrev pub IsNumbered : ℕ → List Object → Type 0
  IsNumbered k [] = Unit
  IsNumbered k (e ∷ es) = (get_json "event_id" e ≡ str ("evt-" <> padded k)) × IsNumbered (k + 1) es

  abbrev pub values : List Object → List Json
  values es = map (λ e. obj (fields e)) es

  next-id :
      (q : AppendRequest) (s : LocalStore)
      → get_json "event_id" (next q s) ≡ str ("evt-" <> padded (length (events s) + 1))
  unfolding next journal_event next_event_id get_json Dict.get string_eq events
  next-id q s = refl

  abbrev Added : List AppendRequest → LocalStore → Type 0
  Added qs s =
      (es : List Object) × (events (append_all padded decimal parse_int message now qs s)
        ≡ events s ++ values es)
      × IsNumbered (length (events s) + 1) es

  append_all-Added : (qs : List AppendRequest) (s : LocalStore) → Added qs s
  unfolding append_all
  append_all-Added [] s = ([], sym (append_nil (events s)), tt)
  append_all-Added (q ∷ qs) s =
      let t = (append_event padded decimal parse_int message now q s).0 in
      let (es, added, numbered) = append_all-Added qs t in
      elim (append-Grows q s) [
        | inl same ↦ (
          es,
          added ∙ ap (λ js. js ++ values es) same,
          subst (λ js. IsNumbered (length js + 1) es) same numbered,
        )
        | inr more ↦ (
          next q s ∷ es,
          added
              ∙ ap (λ js. js ++ values es) more
              ∙ append_assoc (events s) (obj (fields (next q s))) (values es),
          (
            next-id q s,
            subst (λ k. IsNumbered (k + 1) es) (ap length more ∙ length-append (events s) _)
                numbered,
          ),
        )
      ]

  -- Whatever is requested, the events that were in the journal stay in their places, and those that
  -- are added stand behind them, with the numbers after the number of events in their ids.
  pub append_all-IsNumbered :
      (qs : List AppendRequest) (s : LocalStore)
      → (es : List Object) × (iter_events padded decimal parse_int message now
            (append_all padded decimal parse_int message now qs s)
          ≡ iter_events padded decimal parse_int message now s ++ values es)
        × IsNumbered (length (iter_events padded decimal parse_int message now s) + 1) es
  unfolding events
  append_all-IsNumbered qs s = append_all-Added qs s

init-store :
    (now later : String) (m : Option Object) (j : Option (List Line))
    (rs : Dict.Dict (Dict.Dict Object))
    → let s : LocalStore = record { manifest = m; journal = j; registries = rs } in
      init later (init now s) ≡ init now s
unfolding init write_manifest
init-store now later none j rs = refl
init-store now later (some m) j rs = refl

-- Initializing a store twice is initializing it once, at whatever time.
pub init-init : (now later : String) (s : LocalStore) → init later (init now s) ≡ init now s
init-init now later s = init-store now later s.manifest s.journal s.registries
