-- ===== src/NoiseBudget.antt =====
-- src/sourceos_syncd/noise_budget.py: the engine that drops repeated events. `digest` is the
-- shortened SHA-256 of the JSON text of the key fields.
pub mod Accounting
pub mod Repeats
use sourceos_syncd.Prelude.{
  ℕ, ◌+◌, suc, max, String, Bool, true, false, ◌||◌, Option, none, some, List, [], ◌∷◌, contains,
  length, leb, if◌then◌else◌, string_eq,
}
use sourceos_syncd.Prelude.Dict
use sourceos_syncd.Prelude.Dict.{Dict}
use sourceos_syncd.Json.{Json, in_set, null, bool, int, float, str, arr, obj, Object}

pub record NoiseBudgetConfig : Type 0 where
  pub max_duplicates_per_window : ℕ
  pub window_seconds : ℕ
  pub critical_kinds : List String
  pub exempt_sources : List String

abbrev pub default_config : NoiseBudgetConfig
default_config = record {
  max_duplicates_per_window = 10;
  window_seconds = 300;
  critical_kinds =
      "state-integrity-violation" ∷ "policy-violation" ∷ "repair-required" ∷ "conflict-detected"
      ∷ "identity-loss" ∷ [];
  exempt_sources = [];
}

pub record CoalescedEvent : Type 0 where
  pub event : Object
  pub count : ℕ
  pub first_seen : String
  pub last_seen : String
  pub suppressed_count : ℕ
  pub key : String

-- `utilization` is the fraction of the two numbers, before it is rounded.
pub record BudgetReport : Type 0 where
  pub window_seconds : ℕ
  pub total_events_received : ℕ
  pub unique_events : ℕ
  pub suppressed_events : ℕ
  pub utilization : ℕ × ℕ
  pub critical_events_passed : ℕ

pub record NoiseBudgetEngine : Type 0 where
  pub config : NoiseBudgetConfig
  pub seen : Dict CoalescedEvent
  pub total_received : ℕ
  pub total_suppressed : ℕ
  pub critical_passed : ℕ

abbrev pub new_engine : NoiseBudgetConfig → NoiseBudgetEngine
new_engine config = record {
  config = config;
  seen = [];
  total_received = 0;
  total_suppressed = 0;
  critical_passed = 0;
}

-- What `ingest` returns; `raised` is the `TypeError` of a list or a dict looked up in a set.
pub data Ingested : Type 0 where
  surfaced : CoalescedEvent → Ingested
  suppressed raised : Ingested

-- `event.get(k, default)`
unfoldable pub field_or : String → Json → Object → Json
unfolding Dict.get
field_or k default event = elim (Dict.get k event) [ none ↦ default | some j ↦ j ]

-- `kind in critical_kinds or source in exempt_sources`
unfoldable pub either_in : Option Bool → Option Bool → Option Bool
either_in none source = none
either_in (some true) source = some true
either_in (some false) source = source

unfoldable pub is_critical : NoiseBudgetConfig → Object → Option Bool
unfolding either_in in_set field_or
is_critical config event =
    either_in (in_set config.critical_kinds (field_or "kind" (str "") event))
      (in_set config.exempt_sources (field_or "source" (str "") event))

abbrev pub fresh : Object → String → String → CoalescedEvent
fresh event now key = record {
  event = event;
  count = 1;
  first_seen = now;
  last_seen = now;
  suppressed_count = 0;
  key = key;
}

unfoldable pub see : String → CoalescedEvent → NoiseBudgetEngine → NoiseBudgetEngine
see key c e = record e { seen = Dict.put key c e.seen }

abbrev pub again : Object → String → String → CoalescedEvent → CoalescedEvent
again event now key existing = record {
  event = event;
  count = existing.count + 1;
  first_seen = existing.first_seen;
  last_seen = now;
  suppressed_count = existing.suppressed_count;
  key = key;
}

module _ (digest : Object → String) where
  unfoldable pub event_key : Object → String
  unfolding field_or
  event_key event = digest (
      ("kind", field_or "kind" (str "") event)
      ∷ ("source", field_or "source" (str "") event)
      ∷ ("subject_ref", field_or "subjectRef" (field_or "subject_ref" (str "") event) event)
      ∷ [])

  -- An event that is not critical, with what the engine has seen under its key.
  unfoldable pub ingest_seen :
      String → Object → NoiseBudgetEngine → Option CoalescedEvent → NoiseBudgetEngine × Ingested
  unfolding see
  ingest_seen now event e none =
      let c = fresh event now (event_key event) in (see (event_key event) c e, surfaced c)
  ingest_seen now event e (some existing) =
      let key = event_key event in
      let c = again event now key existing in
      if leb e.config.max_duplicates_per_window existing.count
      then (
        see key (record existing { suppressed_count = existing.suppressed_count + 1 })
            (record e { total_suppressed = e.total_suppressed + 1 }),
        suppressed,
      )
      else (see key c e, surfaced c)

  unfoldable pub ingest_kind :
      String → Object → NoiseBudgetEngine → Option Bool → NoiseBudgetEngine × Ingested
  unfolding ingest_seen
  ingest_kind now event e none = (e, raised)
  ingest_kind now event e (some true) =
      let c = fresh event now (event_key event) in
      (see (event_key event) c (record e { critical_passed = e.critical_passed + 1 }), surfaced c)
  ingest_kind now event e (some false) = ingest_seen now event e (Dict.get (event_key event) e.seen)

  unfoldable pub ingest : String → Object → NoiseBudgetEngine → NoiseBudgetEngine × Ingested
  unfolding ingest_kind
  ingest now event e =
      ingest_kind now event (record e { total_received = e.total_received + 1 })
        (is_critical e.config event)

  -- A sequence of calls, each at its time.
  unfoldable pub ingest_all :
      List (String × Object) → NoiseBudgetEngine → NoiseBudgetEngine × List Ingested
  ingest_all [] e = (e, [])
  ingest_all ((now, event) ∷ calls) e =
      let (e', r) = ingest now event e in let (final, rs) = ingest_all calls e' in (final, r ∷ rs)

unfoldable pub budget_report : NoiseBudgetEngine → BudgetReport
budget_report e = record {
  window_seconds = e.config.window_seconds;
  total_events_received = e.total_received;
  unique_events = length e.seen;
  suppressed_events = e.total_suppressed;
  utilization = (e.total_suppressed, max e.total_received 1);
  critical_events_passed = e.critical_passed;
}

unfoldable pub flush : NoiseBudgetEngine → NoiseBudgetEngine
flush e = new_engine e.config
