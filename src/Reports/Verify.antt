-- ===== src/Reports/Verify.antt =====
-- `heartbeat_age_ms` and `verify`: the six invariants of a report.
pub mod Total
use sourceos_syncd.Prelude.{
  ℕ, ◌+◌, String, Bool, true, false, not, ◌&&◌, ◌||◌, Option, none, some, List, [], ◌∷◌, ◌++◌, ◌==◌,
  string_eq, contains, leb, if◌then◌else◌, any_of, all_of, keep,
}
use sourceos_syncd.Prelude.Dict
use sourceos_syncd.Prelude.Signed.{ℤ, pos, negsuc, leb_ℤ, min_ℤ, ◌+ℤ◌}
use sourceos_syncd.Json.{
  Json, null, str, obj, Object, entries, get_json, in_set, is_text, truthy, as_object,
}
use sourceos_syncd.NoiseBudget.{field_or}
use sourceos_syncd.Reports.Checks.{
  Library, Found, Complaint, ◌>>=◌, as_int, object_or_empty, sub_dict, dicts_of, parse_instant,
  int_or_zero,
}
use sourceos_syncd.Reports.Validation.{validate_report}

pub data Status : Type 0 where
  pass warn fail : Status

pub data Severity : Type 0 where
  info warning error critical : Severity

-- The evidence of each invariant.
pub data Evidence : Type 0 where
  contract : List Complaint → Evidence
  heartbeat : Option ℕ → ℤ → Evidence
  lag : ℤ → ℤ → Evidence
  shadows : List Json → Evidence
  disk : Json → Json → Evidence
  dirty_open : Json → Evidence

pub record Invariant : Type 0 where
  pub id : String
  pub status : Status
  pub severity : Severity
  pub evidence : Evidence
  pub remediation : String

-- An invariant that holds passes; otherwise it has the given status and severity.
unfoldable pub judged : String → Bool → Status → Severity → Evidence → String → Invariant
judged id holds status severity evidence remediation = record {
  id = id;
  status = if holds then pass else status;
  severity = if holds then info else severity;
  evidence = evidence;
  remediation = remediation;
}

abbrev pub is_nil {ℓ} : {A : Type ℓ} → List A → Bool
is_nil [] = true
is_nil (_ ∷ _) = false

-- The age, if there is a last heartbeat.
abbrev pub age_since : Library → Option String → Option String → Option (Option ℕ)
age_since lib generated none = some none
age_since lib generated (some last) = lib.elapsed_ms generated last >>= λ age. some (some age)

unfoldable pub heartbeat_age_ms : Library → Object → Option (Option ℕ)
unfolding sub_dict parse_instant get_json
heartbeat_age_ms lib r = do
  runtime ← sub_dict "runtime" r
  last ← parse_instant lib (get_json "last_heartbeat_at" runtime)
  generated ← parse_instant lib (get_json "generated_at" r)
  age_since lib generated last

-- The numbers among `lane.get("sla", {}).get("max_heartbeat_age_ms")`.
unfoldable pub heartbeat_slas : List Object → Option (List ℤ)
unfolding sub_dict as_int get_json
heartbeat_slas [] = some []
heartbeat_slas (lane ∷ lanes) = do
  sla ← sub_dict "sla" lane
  rest ← heartbeat_slas lanes
  some (elim (as_int (get_json "max_heartbeat_age_ms" sla)) [ none ↦ rest | some z ↦ z ∷ rest ])

abbrev pub least : ℤ → List ℤ → ℤ
least z [] = z
least z (y ∷ ys) = least (min_ℤ z y) ys

abbrev pub max_age_of : List ℤ → ℤ
max_age_of [] = pos 30000
max_age_of (z ∷ zs) = least z zs

-- `int(lane.get(section, {}).get(key) or 0)`
unfoldable pub lane_number : Library → String → String → Object → Option ℤ
unfolding sub_dict int_or_zero get_json
lane_number lib part k lane = do values ← sub_dict part lane; int_or_zero lib (get_json k values)

unfoldable pub lag_of : Library → Object → Option ℤ
unfolding lane_number
lag_of lib lane = lane_number lib "journal" "replay_lag_events" lane

unfoldable pub allowed_lag_of : Library → Object → Option ℤ
unfolding lane_number
allowed_lag_of lib lane = lane_number lib "sla" "max_replay_lag_events" lane

-- The sums of both over the lanes.
unfoldable pub lag_sums : Library → List Object → ℤ × ℤ → Option (ℤ × ℤ)
unfolding lag_of allowed_lag_of
lag_sums lib [] sums = some sums
lag_sums lib (lane ∷ lanes) sums = do
  behind ← lag_of lib lane
  allowed ← allowed_lag_of lib lane
  lag_sums lib lanes (sums.0 +ℤ behind, sums.1 +ℤ allowed)

-- `store.get("role") == "active" and store.get("shadow_present")` and an unverified checksum.
unfoldable pub is_unverified : Object → Option Bool
unfolding in_set is_text truthy get_json
is_unverified store =
    if is_text "active" (get_json "role" store) && truthy (get_json "shadow_present" store)
    then in_set ("verified" ∷ "unsupported" ∷ []) (get_json "checksum_state" store)
      >>= (λ b. some (not b))
    else some false

unfoldable pub shadow_failures : List Object → Option (List Json)
unfolding is_unverified field_or
shadow_failures [] = some []
shadow_failures (store ∷ stores) = do
  fails ← is_unverified store
  rest ← shadow_failures stores
  some (if fails then field_or "name" (str "unknown") store ∷ rest else rest)

-- The pressure and the free ratio; a disk that is no dict has none.
abbrev pub disk_values : Option Json → Json × Json
disk_values none = (str "unknown", null)
disk_values (some (obj fs)) =
    (field_or "pressure" (str "unknown") (entries fs), get_json "free_ratio" (entries fs))
disk_values (some _) = (str "unknown", null)

-- The checks that `verify` makes one after the other, each with what it computes.
unfoldable pub contract_invariant : List Complaint → Invariant
contract_invariant errors =
    judged "report.contract_valid" (is_nil errors) fail critical (contract errors)
      "fix_report_contract"

abbrev pub within : Option ℕ → ℤ → Bool
within none max_age = false
within (some age) max_age = leb_ℤ (pos age) max_age

unfoldable pub heartbeat_invariant : Library → Object → Option Invariant
unfolding heartbeat_age_ms dicts_of heartbeat_slas
heartbeat_invariant lib r = do
  age ← heartbeat_age_ms lib r
  lanes ← dicts_of "lanes" r
  slas ← heartbeat_slas lanes
  some (
      judged "heartbeat.within_sla" (within age (max_age_of slas)) fail error
        (heartbeat age (max_age_of slas)) "restart_or_mark_stale")

unfoldable pub lag_invariant : Library → Object → Option Invariant
unfolding dicts_of lag_sums
lag_invariant lib r = do
  lanes ← dicts_of "lanes" r
  sums ← lag_sums lib lanes (pos 0, pos 0)
  some (
      judged "journal.replay_lag_within_sla" (leb_ℤ sums.0 sums.1) fail error (lag sums.0 sums.1)
        "run_replay")

unfoldable pub shadow_invariant : Object → Option Invariant
unfolding dicts_of shadow_failures
shadow_invariant r = do
  stores ← dicts_of "stores" r
  names ← shadow_failures stores
  some (
      judged "store.shadow_verified_when_present" (is_nil names) warn warning (shadows names)
        "verify_or_rebuild_shadow")

unfoldable pub disk_invariant : Object → Option Invariant
unfolding sub_dict in_set Dict.get
disk_invariant r = do
  resources ← sub_dict "resources" r
  let values = disk_values (Dict.get "disk" resources)
  bad ← in_set ("critical" ∷ "unknown" ∷ []) values.0
  some (
      judged "resources.disk_pressure_below_critical" (not bad) fail critical
        (disk values.0 values.1) "compact_or_purge_preview")

unfoldable pub dirty_open_invariant : Object → Option Invariant
unfolding sub_dict truthy get_json
dirty_open_invariant r = do
  runtime ← sub_dict "runtime" r
  let opened = get_json "last_dirty_open_at" runtime
  some (
      judged "runtime.no_unrecovered_dirty_open" (not (truthy opened)) warn warning
        (dirty_open opened) "verify_before_ready")

pub record Verification : Type 0 where
  pub status : Status
  pub invariants : List Invariant

-- The greater of two statuses.
abbrev pub worse : Status → Status → Status
worse fail s = fail
worse warn fail = fail
worse warn _ = warn
worse pass s = s

unfoldable pub worst : List Invariant → Status
worst [] = pass
worst (i ∷ is) = worse i.status (worst is)

unfoldable pub verify : Library → Object → Option Verification
unfolding validate_report contract_invariant heartbeat_invariant lag_invariant shadow_invariant
    disk_invariant dirty_open_invariant worst
verify lib r = do
  errors ← validate_report lib r
  i2 ← heartbeat_invariant lib r
  i3 ← lag_invariant lib r
  i4 ← shadow_invariant r
  i5 ← disk_invariant r
  i6 ← dirty_open_invariant r
  let all = contract_invariant errors ∷ i2 ∷ i3 ∷ i4 ∷ i5 ∷ i6 ∷ []
  some (record { status = worst all; invariants = all })
