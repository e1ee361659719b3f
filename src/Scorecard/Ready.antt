-- ===== src/Scorecard/Ready.antt =====
-- What a report is like whose scorecard is ready.
use mathlib.Core.Path.{subst}
use Prim.Native.Nat.{◌*◌}
use sourceos_syncd.Prelude.{
  ℕ, String, ◌+◌, ◌≤◌, min, Bool, false, some, List, ◌≡◌, refl, ◌∙◌, sym, arith, any_of,
}
use sourceos_syncd.Prelude.Signed.{ℤ, pos, negsuc, sub_ℕ}
use sourceos_syncd.Json.{Json, Object}
use sourceos_syncd.Reports.Checks.{Library}
use sourceos_syncd.Scorecard.Parts.{evaluate_scorecard-Parts}
use sourceos_syncd.Scorecard.{
  ready, Gate, Scorecard, deductions, clamped, score_of, fails, status_of, evaluate_scorecard,
}

status_of-ready :
    (gates : List Gate) (score : ℕ)
    → status_of gates score ≡ ready
    → (any_of fails gates ≡ false) × (90 ≤ score)
unfolding status_of
status_of-ready gates score h = ground arith

small : (total : ℕ) (z : ℤ) → z ≡ sub_ℕ 100 total → 90 ≤ clamped z → total ≤ 10
small total (pos n) e h = ground arith
small total (negsuc n) e h = omega arith

score_of-high : (total : ℕ) → 90 ≤ score_of total → total ≤ 10
unfolding score_of
score_of-high total h = small total (sub_ℕ 100 total) refl h

-- The first three deductions of a small sum.
first_three :
    (c f w a b d e : ℕ)
    → min 40 (c * 20) + min 30 (f * 10) + min 15 (w * 5) + a + b + d + e ≤ 10
    → (c ≡ 0) × (f ≤ 1) × (f + f + w ≤ 2)
first_three c f w a b d e h = (omega arith, omega arith, omega arith)

deductions-small :
    (c f w : ℕ) (lag : ℤ) (disk : Json) (attested : Bool)
    → deductions c f w lag disk attested ≤ 10
    → (c ≡ 0) × (f ≤ 1) × (f + f + w ≤ 2)
unfolding deductions
deductions-small c f w lag disk attested h = first_three c f w _ _ _ _ h

-- A ready scorecard has no failed gate, no critical failure and at most one failed invariant, which
-- then leaves no warning; there are at most two warnings.
pub evaluate_scorecard-ready :
    (lib : Library) (now : String) (r : Object) (card : Scorecard)
    → evaluate_scorecard lib now r ≡ some card
    → card.status ≡ ready
    → let d = card.dimensions in
      (any_of fails card.gates ≡ false)
      × (d.critical_failures ≡ 0)
      × (d.invariant_failures ≤ 1)
      × (d.invariant_failures + d.invariant_failures + d.invariant_warnings ≤ 2)
evaluate_scorecard-ready lib now r card h is_ready =
    let parts = evaluate_scorecard-Parts lib now r card h in
    let (gates, high) = status_of-ready card.gates card.score (sym parts.is_status ∙ is_ready) in
    let (critical_none, few, both) =
      deductions-small _ _ _ parts.lag parts.disk parts.attested
        (score_of-high _ (subst (λ n. 90 ≤ n) parts.is_score high)) in
    (gates, critical_none, few, both)
