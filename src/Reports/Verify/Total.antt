-- ===== src/Reports/Verify/Total.antt =====
-- A report that `validate_report` accepts can be verified: what each check establishes is what the
-- invariants read.
pub mod Lanes
pub mod Stores
pub mod Times
use mathlib.Core.Option
use sourceos_syncd.Prelude.{
  ℕ, String, Bool, true, Option, none, some, List, [], ◌∷◌, ◌≡◌, refl, ap, ◌∙◌, sym, All,
}
use sourceos_syncd.Prelude.Dict
use sourceos_syncd.Prelude.Signed.{pos}
use sourceos_syncd.Json.{
  Json, null, bool, int, float, str, arr, obj, Object, items, entries, get_json, as_object,
}
use sourceos_syncd.Reports.Checks.{
  Library, Found, is_obj, also_split, bind_some, ◌>>=◌, object_or_empty, sub_dict, looped, dicts,
  dicts_of, parse_instant,
}
use sourceos_syncd.Reports.Sections.{check_stores, check_lanes, check_collection, check_identity}
use sourceos_syncd.Reports.Resources.{check_policy}
use sourceos_syncd.Reports.Validation.{
  after_shape, listed, check_generated_at, validate_sections, validate_report,
}
use sourceos_syncd.Reports.Verify.{
  Verification, age_since, heartbeat_age_ms, Invariant, heartbeat_invariant, lag_invariant,
  shadow_invariant, disk_invariant, disk_values, dirty_open_invariant, verify,
}
use sourceos_syncd.Reports.Verify.Total.Lanes.{
  LaneReads, lanes-Read, heartbeat_slas-total, lag_sums-total,
}
use sourceos_syncd.Reports.Verify.Total.Stores.{
  StoreReads, stores-Read, shadow_failures-total, in_set-of, DiskReads, resources-Read,
  disk_values-text,
}
use sourceos_syncd.Reports.Verify.Total.Times.{ReadsTime, no_instant-clean, runtime-Reads}

after_shape-clean : (a b : Found) → after_shape a b ≡ some [] → b ≡ some []
after_shape-clean none b h = cc
after_shape-clean (some []) b h = h
after_shape-clean (some (c ∷ cs)) b h = cc

listed-looped :
    (part : String) (check : List Json → Found) (o : Option Json)
    → listed part check (elim o [ none ↦ null | some v ↦ v ]) ≡ some []
    → (js : List Json) × (looped o ≡ some js) × (check js ≡ some [])
unfolding looped
listed-looped part check (some (arr xs)) h = (items xs, refl, h)
listed-looped part check none h = cc
listed-looped part check (some null) h = cc
listed-looped part check (some (bool b)) h = cc
listed-looped part check (some (int z)) h = cc
listed-looped part check (some (float m e)) h = cc
listed-looped part check (some (str s)) h = cc
listed-looped part check (some (obj fs)) h = cc

check_identity-obj : (lib : Library) (j : Json) → check_identity lib j ≡ some [] → is_obj j ≡ true
unfolding check_identity is_obj
check_identity-obj lib (obj fs) h = refl
check_identity-obj lib _ h = cc

check_collection-obj : (j : Json) → check_collection j ≡ some [] → is_obj j ≡ true
unfolding check_collection is_obj
check_collection-obj (obj fs) h = refl
check_collection-obj _ h = cc

check_policy-obj : (j : Json) → check_policy j ≡ some [] → is_obj j ≡ true
unfolding check_policy is_obj
check_policy-obj (obj fs) h = refl
check_policy-obj _ h = cc

object-Read :
    (o : Option Json)
    → is_obj (elim o [ none ↦ null | some v ↦ v ]) ≡ true
    → (d : Object) × (object_or_empty o ≡ some d)
unfolding is_obj as_object
object-Read (some (obj fs)) h = (entries fs, refl)
object-Read (some _) h = cc
object-Read none h = cc

module _ (lib : Library) (r : Object) where
  -- What is read of an accepted report.
  pub record Sections : Type 0 where
    pub generated : ReadsTime lib (get_json "generated_at" r)
    pub identity : (d : Object) × (sub_dict "identity" r ≡ some d)
    pub collection : (d : Object) × (sub_dict "collection" r ≡ some d)
    pub runtime :
        (d : Object) × (sub_dict "runtime" r ≡ some d)
        × ReadsTime lib (get_json "last_heartbeat_at" d)
    pub stores : (ds : List Object) × (dicts_of "stores" r ≡ some ds) × All StoreReads ds
    pub lanes : (ds : List Object) × (dicts_of "lanes" r ≡ some ds) × All (LaneReads lib) ds
    pub resources : (d : Object) × (sub_dict "resources" r ≡ some d) × DiskReads (Dict.get "disk" d)
    pub policy : (d : Object) × (sub_dict "policy" r ≡ some d)

  pub validate-Sections : validate_report lib r ≡ some [] → Sections
  unfolding validate_report validate_sections get_json sub_dict dicts_of check_generated_at
  validate-Sections h =
      let (generated, h1) = also_split (after_shape-clean _ _ h) in
      let (identity, h2) = also_split h1 in
      let (collection, h3) = also_split h2 in
      let (runtime, h4) = also_split h3 in
      let (stores, h5) = also_split h4 in
      let (lanes, h6) = also_split h5 in
      let (resources, h7) = also_split h6 in
      let (policy, _) = also_split h7 in
      let (ss, is_ss, ok_ss) =
        listed-looped "stores" (check_stores 0 []) (Dict.get "stores" r) stores in
      let (ls, is_ls, ok_ls) = listed-looped "lanes" check_lanes (Dict.get "lanes" r) lanes in
      record {
        generated = no_instant-clean lib _ _ generated;
        identity = object-Read (Dict.get "identity" r) (check_identity-obj lib _ identity);
        collection = object-Read (Dict.get "collection" r) (check_collection-obj _ collection);
        runtime = runtime-Reads lib (Dict.get "runtime" r) runtime;
        stores = (dicts ss, bind_some _ is_ss refl, stores-Read ss 0 [] ok_ss);
        lanes = (dicts ls, bind_some _ is_ls refl, lanes-Read lib ls ok_ls);
        resources = resources-Read (Dict.get "resources" r) resources;
        policy = object-Read (Dict.get "policy" r) (check_policy-obj _ policy);
      }

  ages :
      (generated last : Option String)
      → ((l : String) → last ≡ some l → (age : ℕ) × (lib.elapsed_ms generated l ≡ some age))
      → (age : Option ℕ) × (age_since lib generated last ≡ some age)
  ages generated none h = (none, refl)
  ages generated (some l) h = let (age, e) = h l refl in (some age, bind_some _ e refl)

  -- The times of the heartbeat and of the report can be subtracted.
  abbrev pub ComparesTimes : Type 0
  ComparesTimes =
      (generated : Option String) (last : String) (runtime : Object)
      → sub_dict "runtime" r ≡ some runtime
      → parse_instant lib (get_json "generated_at" r) ≡ some generated
      → parse_instant lib (get_json "last_heartbeat_at" runtime) ≡ some (some last)
      → (age : ℕ) × (lib.elapsed_ms generated last ≡ some age)

  module _ (accepted : validate_report lib r ≡ some []) (dates : ComparesTimes) where
    read : Sections
    read = validate-Sections accepted

    heartbeat_age_ms-total : (age : Option ℕ) × (heartbeat_age_ms lib r ≡ some age)
    unfolding heartbeat_age_ms
    heartbeat_age_ms-total =
        let (d, is_d, (last, is_last)) = read.runtime in
        let (generated, is_generated) = read.generated in
        let (age, is_age) =
          ages generated last
            (λ l e. dates generated l d is_d is_generated (is_last ∙ ap some e)) in
        (age, bind_some _ is_d (bind_some _ is_last (bind_some _ is_generated is_age)))

    heartbeat-total : (i : Invariant) × (heartbeat_invariant lib r ≡ some i)
    unfolding heartbeat_invariant
    heartbeat-total =
        let (age, is_age) = heartbeat_age_ms-total in
        let (ls, is_ls, reads) = read.lanes in
        let (slas, is_slas) = heartbeat_slas-total lib ls reads in
        (_, bind_some _ is_age (bind_some _ is_ls (bind_some _ is_slas refl)))

    lag-total : (i : Invariant) × (lag_invariant lib r ≡ some i)
    unfolding lag_invariant
    lag-total =
        let (ls, is_ls, reads) = read.lanes in
        let (sums, is_sums) = lag_sums-total lib ls (pos 0, pos 0) reads in
        (_, bind_some _ is_ls (bind_some _ is_sums refl))

    shadow-total : (i : Invariant) × (shadow_invariant r ≡ some i)
    unfolding shadow_invariant
    shadow-total =
        let (ss, is_ss, reads) = read.stores in
        let (names, is_names) = shadow_failures-total ss reads in
        (_, bind_some _ is_ss (bind_some _ is_names refl))

    disk-total : (i : Invariant) × (disk_invariant r ≡ some i)
    unfolding disk_invariant
    disk-total =
        let (d, is_d, reads) = read.resources in
        let (t, is_t) = disk_values-text (Dict.get "disk" d) reads in
        (_, bind_some _ is_d (bind_some _ (in_set-of ("critical" ∷ "unknown" ∷ []) is_t) refl))

    dirty_open-total : (i : Invariant) × (dirty_open_invariant r ≡ some i)
    unfolding dirty_open_invariant
    dirty_open-total = let (d, is_d, _) = read.runtime in (_, bind_some _ is_d refl)

    -- A report that `validate_report` accepts can be verified, if its times can be compared.
    pub verify-total : (v : Verification) × (verify lib r ≡ some v)
    unfolding verify
    verify-total =
        let (i2, e2) = heartbeat-total in
        let (i3, e3) = lag-total in
        let (i4, e4) = shadow-total in
        let (i5, e5) = disk-total in
        let (i6, e6) = dirty_open-total in
        (
          _,
          bind_some _ accepted (
              bind_some _ e2
                (bind_some _ e3 (bind_some _ e4 (bind_some _ e5 (bind_some _ e6 refl))))),
        )
