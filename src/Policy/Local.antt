-- ===== src/Policy/Local.antt =====
-- What the local policy lets through.
use sourceos_syncd.Prelude.{
  String, ◌≡◌, refl, ◌≢◌, ◌⊎◌, ◌↔◌, true, arith, string_eq, contains, differ,
}
use sourceos_syncd.Json.{Json, Object}
use sourceos_syncd.Policy.{
  PolicyRequest, PolicyDecision, Fetched, actions, local_verdict, evaluate_locally,
}

-- The request leaves the device or gives an agent access.
abbrev pub IsOutward : PolicyRequest → Type 0
IsOutward r = (r.action ≡ "replicate") ⊎ (r.action ≡ "agent_access")

abbrev pub IsSensitive : PolicyRequest → Type 0
IsSensitive r = (r.data_class ≡ "secret") ⊎ (r.data_class ≡ "credential")

denied_apart : ◌≢◌ {A = String} "denied" "allowed"
unfolding string_eq
denied_apart = differ "denied" "allowed" refl

redacted_apart : ◌≢◌ {A = String} "redacted" "allowed"
unfolding string_eq
redacted_apart = differ "redacted" "allowed" refl

deferred_apart : ◌≢◌ {A = String} "deferred" "allowed"
unfolding string_eq
deferred_apart = differ "deferred" "allowed" refl

-- The rules that a request which the local policy allows satisfies.
pub record IsPermitted (r : PolicyRequest) : Type 0 where
  pub known : contains actions r.action ≡ true
  pub secure : r.lane ≡ "secure" → ¬ (IsOutward r ⊎ (r.action ≡ "index"))
  pub repair : r.lane ≡ "repair" → ¬ ((r.action ≡ "agent_access") ⊎ (r.action ≡ "write"))
  pub ephemeral : r.lane ≡ "ephemeral" → r.action ≢ "retain"
  pub sensitive : IsSensitive r → ¬ IsOutward r

module _ (r : PolicyRequest) where
  allowed-IsPermitted : (local_verdict r).0 ≡ "allowed" → IsPermitted r
  unfolding local_verdict
  allowed-IsPermitted h =
      let a = denied_apart in
      let b = redacted_apart in
      let c = deferred_apart in
      record {
        known = ground arith;
        secure = ground arith;
        repair = ground arith;
        ephemeral = ground arith;
        sensitive = ground arith;
      }

  IsPermitted-allowed : IsPermitted r → (local_verdict r).0 ≡ "allowed"
  unfolding local_verdict
  IsPermitted-allowed p =
      let a = p.known in
      let b = p.secure in
      let c = p.repair in let d = p.ephemeral in let e = p.sensitive in ground arith

module _ (digest : Object → String) (text_of : Json → String)
    (fetch : String → PolicyRequest → Fetched) (now : String) (r : PolicyRequest) where
  abbrev local : PolicyDecision
  local = evaluate_locally digest text_of fetch now r

  -- The local policy allows exactly the requests that satisfy its rules: a known action, nothing
  -- outward or indexed from the secure lane, no agent and no write in the repair lane, nothing
  -- retained from the ephemeral lane, and no outward action on secrets or credentials.
  pub evaluate_locally-allowed_iff : (local.status ≡ "allowed") ↔ IsPermitted r
  unfolding evaluate_locally
  evaluate_locally-allowed_iff = (allowed-IsPermitted r, IsPermitted-allowed r)
