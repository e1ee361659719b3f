-- ===== src/NoiseBudget/Repeats.antt =====
-- The same event over and over.
use sourceos_syncd.Prelude.{
  zero, suc, map, Option, ℕ, ◌+◌, ◌≤◌, ◌<◌, String, true, false, none, some, List, [], ◌∷◌, ◌≡◌,
  refl, ◌∙◌, ap, arith, leb, string_eq,
}
use sourceos_syncd.Prelude.Dict
use sourceos_syncd.Json.{Object}
use sourceos_syncd.NoiseBudget.{
  CoalescedEvent, NoiseBudgetEngine, NoiseBudgetConfig, new_engine, Ingested, surfaced, suppressed,
  raised, is_critical, see, ingest_seen, ingest_kind, ingest, ingest_all, fresh, again, event_key,
}

-- Calls with one event, at each of the times.
abbrev pub each : Object → List String → List (String × Object)
each event [] = []
each event (now ∷ nows) = (now, event) ∷ each event nows

no_room : ¬ (1 ≤ 0)
no_room = omega arith

limit_met : (m count : ℕ) → m ≤ count → leb m count ≡ true
limit_met m count h = ground arith

limit_open : (m count : ℕ) → count < m → leb m count ≡ false
limit_open m count h = ground arith

-- What a call says: the count of the event that surfaces, or none where it is suppressed.
abbrev pub answer : Ingested → Option ℕ
answer (surfaced c) = some c.count
answer suppressed = none
answer raised = some 0

-- One answer for each time: first as many counts above `count` as there is room, then none.
abbrev pub expected_from : ℕ → ℕ → List String → List (Option ℕ)
expected_from count room [] = []
expected_from count zero (now ∷ nows) = none ∷ expected_from count zero nows
expected_from count (suc room) (now ∷ nows) = some (count + 1) ∷ expected_from (count + 1) room nows

get-put_same :
    (k : String) (c : CoalescedEvent) (d : Dict.Dict CoalescedEvent)
    → Dict.get k (Dict.put k c d) ≡ some c
get-put_same k c d = ground (arith, Dict.get-put k k c d)

module _ (digest : Object → String) (event : Object) where
  abbrev key : String
  key = event_key digest event

  abbrev received : NoiseBudgetEngine → NoiseBudgetEngine
  received e = record e { total_received = e.total_received + 1 }

  abbrev dropped : CoalescedEvent → NoiseBudgetEngine → NoiseBudgetEngine
  dropped c e =
      see key (record c { suppressed_count = c.suppressed_count + 1 })
        (record (received e) { total_suppressed = e.total_suppressed + 1 })

  module _ (now : String) (e : NoiseBudgetEngine)
      (plain : is_critical e.config event ≡ some false) where
    ingest-plain :
        ingest digest now event e ≡ ingest_seen digest now event (received e) (Dict.get key e.seen)
    unfolding ingest ingest_kind
    ingest-plain = rw plain refl

    ingest-first :
        Dict.get key e.seen ≡ none
        → ingest digest now event e
          ≡ (see key (fresh event now key) (received e), surfaced (fresh event now key))
    unfolding ingest_seen
    ingest-first h = ingest-plain ∙ ap (ingest_seen digest now event (received e)) h

    ingest-more :
        (c : CoalescedEvent)
        → Dict.get key e.seen ≡ some c
        → leb e.config.max_duplicates_per_window c.count ≡ false
        → ingest digest now event e
          ≡ (see key (again event now key c) (received e), surfaced (again event now key c))
    unfolding ingest_seen
    ingest-more c h few =
        ingest-plain ∙ (ap (ingest_seen digest now event (received e)) h ∙ rw few refl)

    ingest-full :
        (c : CoalescedEvent)
        → Dict.get key e.seen ≡ some c
        → leb e.config.max_duplicates_per_window c.count ≡ true
        → ingest digest now event e ≡ (dropped c e, suppressed)
    unfolding ingest_seen
    ingest-full c h full =
        ingest-plain ∙ (ap (ingest_seen digest now event (received e)) h ∙ rw full refl)

  see-get : (c : CoalescedEvent) (e : NoiseBudgetEngine) → Dict.get key (see key c e).seen ≡ some c
  unfolding see
  see-get c e = get-put_same key c e.seen

  see-config : (c : CoalescedEvent) (e : NoiseBudgetEngine) → (see key c e).config ≡ e.config
  unfolding see
  see-config c e = refl

  ingest_all-step :
      (now : String) (nows : List String) (e e' : NoiseBudgetEngine) (r : Ingested)
      → ingest digest now event e ≡ (e', r)
      → (ingest_all digest (each event (now ∷ nows)) e).1
        ≡ r ∷ (ingest_all digest (each event nows) e').1
  unfolding ingest_all
  ingest_all-step now nows e e' r h = ap (λ p. p.1 ∷ (ingest_all digest (each event nows) p.0).1) h

  -- The calls behind `c.count` that surfaced, with `room` left below the limit.
  repeats-from :
      (nows : List String) (room : ℕ) (e : NoiseBudgetEngine) (c : CoalescedEvent)
      → c.count + room ≡ e.config.max_duplicates_per_window
      → is_critical e.config event ≡ some false
      → Dict.get key e.seen ≡ some c
      → map answer (ingest_all digest (each event nows) e).1 ≡ expected_from c.count room nows
  unfolding ingest_all see
  repeats-from [] room e c lim plain h = refl
  repeats-from (now ∷ nows) zero e c lim plain h =
      let c' = record c { suppressed_count = c.suppressed_count + 1 } in
      ap (map answer) (
        ingest_all-step now nows e (dropped c e) suppressed
          (ingest-full now e plain c h (limit_met _ _ (omega (arith, lim)))))
      ∙ ap (λ rs. none ∷ rs)
          (repeats-from nows zero (dropped c e) c' lim plain (get-put_same key c' e.seen))
  repeats-from (now ∷ nows) (suc room) e c lim plain h =
      let c' = again event now key c in
      let e' = see key c' (received e) in
      ap (map answer) (
        ingest_all-step now nows e e' (surfaced c')
          (ingest-more now e plain c h (limit_open _ _ (omega (arith, lim)))))
      ∙ ap (λ rs. some (c.count + 1) ∷ rs)
          (repeats-from nows room e' c' (omega (arith, lim)) plain (get-put_same key c' e.seen))

  repeats-start :
      (config : NoiseBudgetConfig) (m : ℕ) (nows : List String)
      → is_critical config event ≡ some false
      → config.max_duplicates_per_window ≡ m
      → 1 ≤ m
      → map answer (ingest_all digest (each event nows) (new_engine config)).1
        ≡ expected_from 0 m nows
  unfolding ingest_all see Dict.get
  repeats-start config m [] plain lim pos = refl
  repeats-start config zero (now ∷ nows) plain lim pos = elim (no_room pos) [ ]
  repeats-start config (suc room) (now ∷ nows) plain lim pos =
      let c = fresh event now key in
      let e = new_engine config in
      let e' = see key c (received e) in
      ap (map answer) (ingest_all-step now nows e e' (surfaced c) (ingest-first now e plain refl))
      ∙ ap (λ rs. some 1 ∷ rs)
          (repeats-from nows room e' c (omega (arith, lim)) plain (get-put_same key c []))

  -- Where the configuration allows at least one event for each window, of any number of calls with the
  -- same event that is not critical, at whatever times they come, a new engine surfaces exactly the first
  -- `max_duplicates_per_window`, with the counts 1, 2 and so on, and suppresses all that follow.
  pub ingest_all-repeats :
      (config : NoiseBudgetConfig) (nows : List String)
      → is_critical config event ≡ some false
      → 1 ≤ config.max_duplicates_per_window
      → map answer (ingest_all digest (each event nows) (new_engine config)).1
        ≡ expected_from 0 config.max_duplicates_per_window nows
  ingest_all-repeats config nows plain pos =
      repeats-start config config.max_duplicates_per_window nows plain refl pos
