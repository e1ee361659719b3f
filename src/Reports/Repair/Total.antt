-- ===== src/Reports/Repair/Total.antt =====
-- An accepted report has a diagnosis and a plan.
use sourceos_syncd.Prelude.{String, string_eq, Bool, some, List, [], ◌∷◌, ◌≡◌, refl, ap, All}
use sourceos_syncd.Json.{Json, str, Object}
use sourceos_syncd.Reports.Checks.{Library, bind_some, sub_dict, dicts_of, parse_text}
use sourceos_syncd.Reports.Validation.{validate_report}
use sourceos_syncd.Reports.Verify.Total.{Sections, validate-Sections, ComparesTimes, verify-total}
use sourceos_syncd.Reports.Verify.Total.Lanes.{LaneReads}
use sourceos_syncd.Reports.Verify.Total.Stores.{in_set-of}
use sourceos_syncd.Reports.Diagnosis.{
  Diagnosis, unhealthy_statuses, is_affected, affected_names, disk_pressure_of, diagnose,
}
use sourceos_syncd.Reports.Repair.{repair_plan}
use sourceos_syncd.Reports.Repair.Check.{validate_repair_plan}
use sourceos_syncd.Reports.Repair.Valid.{repair_plan-validate}

module _ (lib : Library) where
  affected-total :
      (lane : Object) → LaneReads lib lane → (b : Bool) × (is_affected lib lane ≡ some b)
  unfolding is_affected
  affected-total lane ((a, is_a), (b, is_b), _, (t, is_t)) = (
    _,
    bind_some _ is_a (bind_some _ is_b (bind_some _ (in_set-of unhealthy_statuses is_t) refl)),
  )

  affected_names-total :
      (lanes : List Object)
      → All (LaneReads lib) lanes
      → (names : List Json) × (affected_names lib lanes ≡ some names)
  unfolding affected_names
  affected_names-total [] _ = ([], refl)
  affected_names-total (lane ∷ lanes) (reads, hs) =
      let (b, is_b) = affected-total lane reads in
      let (names, is_names) = affected_names-total lanes hs in
      (_, bind_some _ is_b (bind_some _ is_names refl))

module _ (lib : Library) (r : Object) where
  -- The names of the affected lanes can be sorted.
  abbrev pub SortsNames : Type 0
  SortsNames =
      (lanes : List Object) (names : List Json)
      → dicts_of "lanes" r ≡ some lanes
      → affected_names lib lanes ≡ some names
      → (sorted : List Json) × (lib.sort_names names ≡ some sorted)

  pressure_of-total : Sections lib r → (t : String) × (disk_pressure_of r ≡ some (str t))
  unfolding disk_pressure_of sub_dict
  pressure_of-total read =
      let (resources, is_resources, (disk, is_disk, (t, is_t))) = read.resources in
      (t, bind_some _ is_resources (bind_some _ is_disk (ap some is_t)))

  -- An accepted report can be diagnosed, if its times can be compared and its lanes' names sorted.
  pub diagnose-total :
      validate_report lib r ≡ some []
      → ComparesTimes lib r
      → SortsNames
      → (d : Diagnosis) × (diagnose lib r ≡ some d)
  unfolding diagnose
  diagnose-total accepted dates sorts =
      let read = validate-Sections lib r accepted in
      let (v, is_v) = verify-total lib r accepted dates in
      let (lanes, is_lanes, reads) = read.lanes in
      let (names, is_names) = affected_names-total lib lanes reads in
      let (sorted, is_sorted) = sorts lanes names is_lanes is_names in
      let (collection, is_collection) = read.collection in
      let (t, is_t) = pressure_of-total read in
      (
        _,
        bind_some _ is_v (
            bind_some _ is_lanes (
              bind_some _ is_names (
                bind_some _ is_sorted (
                  bind_some _ is_collection (
                    bind_some _ is_t
                      (bind_some _ (in_set-of ("warning" ∷ "critical" ∷ []) refl) refl)))))),
      )

  -- For an accepted report there is a plan, and it passes `validate_repair_plan`, if the report's
  -- times can be compared, the names of its affected lanes sorted and the present time read.
  pub repair_plan-total :
      (plan_id : Diagnosis → String) (now instant : String)
      → validate_report lib r ≡ some []
      → ComparesTimes lib r
      → SortsNames
      → parse_text lib now ≡ some instant
      → (plan : Object) × (repair_plan lib plan_id now r ≡ some plan)
        × (validate_repair_plan lib plan ≡ some [])
  unfolding repair_plan
  repair_plan-total plan_id now instant accepted dates sorts hnow =
      let read = validate-Sections lib r accepted in
      let (d, is_d) = diagnose-total accepted dates sorts in
      let (t, is_t) = pressure_of-total read in
      let (identity, is_identity) = read.identity in
      let (policy, is_policy) = read.policy in
      let is_plan = bind_some _ is_d (
        bind_some _ is_t (
          bind_some _ (in_set-of ("watch" ∷ "warning" ∷ "critical" ∷ []) refl)
            (bind_some _ is_identity (bind_some _ is_policy refl)))) in
      (_, is_plan, repair_plan-validate lib plan_id now r _ instant hnow is_plan)
