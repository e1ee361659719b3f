-- ===== src/NoiseBudget/Accounting.antt =====
-- The counters of the engine against the results that its callers see.
use sourceos_syncd.Prelude.{
  ℕ, ◌+◌, ◌≤◌, suc, String, Bool, true, false, Option, none, some, List, [], ◌∷◌, ◌≡◌, refl, arith,
  leb, length, Bool-cases, inl, inr,
}
use sourceos_syncd.Prelude.Dict
use sourceos_syncd.Json.{Object}
use sourceos_syncd.NoiseBudget.{
  CoalescedEvent, NoiseBudgetEngine, NoiseBudgetConfig, new_engine, Ingested, surfaced, suppressed,
  raised, is_critical, see, ingest_seen, ingest_kind, ingest, ingest_all, budget_report, fresh,
  event_key,
}

abbrev pub count_suppressed : List Ingested → ℕ
count_suppressed [] = 0
count_suppressed (suppressed ∷ rs) = suc (count_suppressed rs)
count_suppressed (surfaced c ∷ rs) = count_suppressed rs
count_suppressed (raised ∷ rs) = count_suppressed rs

abbrev weight : Ingested → ℕ
weight suppressed = 1
weight (surfaced c) = 0
weight raised = 0

count_suppressed-cons :
    (r : Ingested) (rs : List Ingested) → count_suppressed (r ∷ rs) ≡ weight r + count_suppressed rs
count_suppressed-cons suppressed rs = omega arith
count_suppressed-cons (surfaced c) rs = omega arith
count_suppressed-cons raised rs = omega arith

weight_le : (r : Ingested) → weight r ≤ 1
weight_le suppressed = omega arith
weight_le (surfaced c) = omega arith
weight_le raised = omega arith

module _ (digest : Object → String) where
  ingest_seen-counts :
      (now : String) (event : Object) (e : NoiseBudgetEngine) (o : Option CoalescedEvent)
      → let p = ingest_seen digest now event e o in
        (p.0.total_received ≡ e.total_received)
        × (p.0.total_suppressed ≡ e.total_suppressed + weight p.1)
  unfolding ingest_seen see
  ingest_seen-counts now event e none = (refl, omega arith)
  ingest_seen-counts now event e (some existing) =
      elim (Bool-cases (leb e.config.max_duplicates_per_window existing.count)) [
        | inl h ↦ rw h (refl, omega arith)
        | inr h ↦ rw h (refl, omega arith)
      ]

  ingest_kind-counts :
      (now : String) (event : Object) (e : NoiseBudgetEngine) (o : Option Bool)
      → let p = ingest_kind digest now event e o in
        (p.0.total_received ≡ e.total_received)
        × (p.0.total_suppressed ≡ e.total_suppressed + weight p.1)
  unfolding ingest_kind see
  ingest_kind-counts now event e none = (refl, omega arith)
  ingest_kind-counts now event e (some true) = (refl, omega arith)
  ingest_kind-counts now event e (some false) =
      ingest_seen-counts now event e (Dict.get (event_key digest event) e.seen)

  ingest-counts :
      (now : String) (event : Object) (e : NoiseBudgetEngine)
      → let p = ingest digest now event e in
        (p.0.total_received ≡ suc e.total_received)
        × (p.0.total_suppressed ≡ e.total_suppressed + weight p.1)
  unfolding ingest
  ingest-counts now event e =
      let counted : NoiseBudgetEngine = record e { total_received = e.total_received + 1 } in
      let (a, b) = ingest_kind-counts now event counted (is_critical e.config event) in
      (omega (arith, a), b)

  -- After any calls, the engine has received as many events as there were calls, and has suppressed as
  -- many as there were calls that returned nothing.
  pub ingest_all-counts :
      (calls : List (String × Object)) (e : NoiseBudgetEngine)
      → let p = ingest_all digest calls e in
        (p.0.total_received ≡ e.total_received + length calls)
        × (p.0.total_suppressed ≡ e.total_suppressed + count_suppressed p.1)
  unfolding ingest_all
  ingest_all-counts [] e = (omega arith, omega arith)
  ingest_all-counts ((now, event) ∷ calls) e =
      let (e', r) = ingest digest now event e in
      let (a, b) = ingest-counts now event e in
      let (c, d) = ingest_all-counts calls e' in
      let w = count_suppressed-cons r (ingest_all digest calls e').1 in
      (omega (arith, a, c), omega (arith, b, d, w))

  count_suppressed_le :
      (calls : List (String × Object)) (e : NoiseBudgetEngine)
      → count_suppressed (ingest_all digest calls e).1 ≤ length calls
  unfolding ingest_all
  count_suppressed_le [] e = omega arith
  count_suppressed_le ((now, event) ∷ calls) e =
      let (e', r) = ingest digest now event e in
      let rest = count_suppressed_le calls e' in
      let w = count_suppressed-cons r (ingest_all digest calls e').1 in
      omega (arith, rest, w, weight_le r)

  -- The utilization that a report shows after any calls on a new engine is at most one.
  pub budget_report-bounded :
      (config : NoiseBudgetConfig) (calls : List (String × Object))
      → let report = budget_report (ingest_all digest calls (new_engine config)).0 in
        report.utilization.0 ≤ report.utilization.1
  unfolding budget_report
  budget_report-bounded config calls =
      let (a, b) = ingest_all-counts calls (new_engine config) in
      let c = count_suppressed_le calls (new_engine config) in omega (arith, a, b, c)

  -- A critical event always surfaces, with the count 1, whatever the engine has seen.
  pub ingest-critical :
      (now : String) (event : Object) (e : NoiseBudgetEngine)
      → is_critical e.config event ≡ some true
      → (ingest digest now event e).1 ≡ surfaced (fresh event now (event_key digest event))
  unfolding ingest ingest_kind
  ingest-critical now event e h = rw h refl
