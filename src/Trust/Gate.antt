-- ===== src/Trust/Gate.antt =====
-- What a report is like whose use is permitted.
use mathlib.Core.Option
use sourceos_syncd.Prelude.{
  String, Bool, true, false, not, ◌&&◌, ◌||◌, Option, none, some, List, [], ◌∷◌, ◌≡◌, refl, ap, ◌∙◌,
  sym, arith, ◌⊎◌, inl, inr, if◌then◌else◌,
}
use sourceos_syncd.Json.{Json, Object}
use sourceos_syncd.Reports.Checks.{Library, Complaint, bind_elim, ◌>>=◌}
use sourceos_syncd.Reports.Validation.{validate_report}
use sourceos_syncd.Reports.Verify.{Invariant, disk_invariant}
use sourceos_syncd.Reports.Diagnosis.{
  is_healthy, is_unsafe, Health, healthy, degraded, unsafe, Diagnosis, is_fail, diagnose,
}
use sourceos_syncd.Reports.Diagnosis.Soundness.{diagnose-grave_if_failed}
use sourceos_syncd.Trust.{
  TrustRequest, TrustStatus, Reason, blocked, policy_counts_indicate_restricted_lane, TrustDecision,
  lane_names, has_lane, is_attested, report_verdict, policy_counts, counts_denied, is_permitted,
  is_restricted, restrict, decision_of, evaluate_trust,
}

-- A healthy report, or a degraded one if the request allows it.
abbrev pub is_trusted : TrustRequest → Health → Bool
is_trusted q state = is_healthy state || (not (is_unsafe state) && q.allow_degraded)

verdict-permitted :
    (q : TrustRequest) (errors : List Complaint) (has attested : Bool) (state : Health)
    → is_permitted (report_verdict q errors has attested state).0 ≡ true
    → (errors ≡ [])
      × (has ≡ true)
      × ((not q.require_attestation || attested) ≡ true)
      × (is_trusted q state ≡ true)
unfolding report_verdict
verdict-permitted q (c ∷ cs) has attested state h = cc
verdict-permitted q [] false attested state h = cc
verdict-permitted q [] true attested unsafe h = ground arith
verdict-permitted q [] true attested degraded h = ground arith
verdict-permitted q [] true attested healthy h = ground arith

unrestricted : (a b : Bool) → a ≡ true → (a && b) ≡ false → b ≡ false
unrestricted true b h e = e
unrestricted false b h e = cc

-- The conditional of `restrict`, by its test and by what was denied.
restrict_if :
    (b : Bool) (denied : Option Bool) (v w : TrustStatus × Reason)
    → (if b
        then denied
          >>= (λ d. some (if d then (blocked, policy_counts_indicate_restricted_lane) else v))
        else some v)
      ≡ some w
    → is_permitted w.0 ≡ true
    → (v ≡ w) × ((b ≡ false) ⊎ (denied ≡ some false))
unfolding ◌>>=◌
restrict_if false denied v w h p = (Option.some-injective _ _ h, inl refl)
restrict_if true none v w h p = cc
restrict_if true (some false) v w h p = (Option.some-injective _ _ h, inr refl)
restrict_if true (some true) v w h p =
    cc (sym p ∙ ap (λ x. is_permitted x.0) (sym (Option.some-injective _ _ h)))

-- A permitted verdict was permitted before, and nothing was denied if the lane is restricted.
restrict-permitted :
    (q : TrustRequest) (counts : Json) (v w : TrustStatus × Reason)
    → restrict q counts v ≡ some w
    → is_permitted w.0 ≡ true
    → (v ≡ w) × ((is_restricted q ≡ false) ⊎ (counts_denied counts ≡ some false))
unfolding restrict
restrict-permitted q counts v w h p =
    let (same, clear) =
      restrict_if (is_permitted v.0 && is_restricted q) (counts_denied counts) v w h p in
    (
      same,
      elim clear [
        | inl none_tested ↦ inl (unrestricted _ _ (ap (λ x. is_permitted x.0) same ∙ p) none_tested)
        | inr none_denied ↦ inr none_denied
      ],
    )

module _ (lib : Library) (now : String) (r : Object) (q : TrustRequest) (d : TrustDecision) where
  -- A use of the state is permitted, degraded or not, only if the report is valid and has the lane,
  -- is attested where the request asks for that, is diagnosed as healthy, or as degraded and the
  -- request allows that, and the policy has denied nothing where the lane is a restricted one.
  pub evaluate_trust-permitted :
      evaluate_trust lib now r q ≡ some d
      → is_permitted d.status ≡ true
      → (validate_report lib r ≡ some [])
        × ((names : List Json) × (lane_names r ≡ some names) × (has_lane q.lane names ≡ true))
        × ((not q.require_attestation || is_attested r) ≡ true)
        × ((g : Diagnosis) × (diagnose lib r ≡ some g) × (is_trusted q g.status ≡ true))
        × ((is_restricted q ≡ false) ⊎ (counts_denied (policy_counts r) ≡ some false))
  unfolding evaluate_trust decision_of
  evaluate_trust-permitted h p = bind_elim h λ errors is_errors h1. bind_elim h1 λ g is_g h2.
      bind_elim h2 λ names is_names h3. bind_elim h3 λ v is_v h4.
        let made = Option.some-injective _ _ h4 in
        let ok = ap (λ x. is_permitted x.status) made ∙ p in
        let (same, clear) = restrict-permitted q (policy_counts r) _ v is_v ok in
        let (valid, has, attested, trusted) =
          verdict-permitted q errors (has_lane q.lane names) (is_attested r) g.status
            (ap (λ x. is_permitted x.0) same ∙ ok) in
        (is_errors ∙ ap some valid, (names, is_names, has), attested, (g, is_g, trusted), clear)

  trusted-not_unsafe : (state : Health) → is_trusted q state ≡ true → is_unsafe state ≡ false
  trusted-not_unsafe healthy h = refl
  trusted-not_unsafe degraded h = refl
  trusted-not_unsafe unsafe h = cc

  -- A permitted use has a disk whose pressure is known and not critical.
  pub evaluate_trust-disk :
      (pressure : Invariant)
      → disk_invariant r ≡ some pressure
      → evaluate_trust lib now r q ≡ some d
      → is_permitted d.status ≡ true
      → is_fail pressure.status ≡ false
  evaluate_trust-disk pressure hp h p =
      let (valid, _, _, (g, is_g, trusted), _) = evaluate_trust-permitted h p in
      sym (diagnose-grave_if_failed lib r g [] pressure valid hp is_g)
      ∙ trusted-not_unsafe g.status trusted
