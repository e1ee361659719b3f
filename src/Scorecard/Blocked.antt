-- ===== src/Scorecard/Blocked.antt =====
-- When a scorecard is blocked.
use mathlib.Core.Option
use sourceos_syncd.Prelude.{
  ℕ, String, string_eq, Bool, true, false, not, ◌||◌, Option, none, some, List, [], ◌∷◌, ◌≡◌, refl,
  ap, ◌∙◌, sym, arith, any_of, nat_beq,
}
use sourceos_syncd.Prelude.Dict
use sourceos_syncd.Json.{Json, null, str, obj, Object, get_json, in_set, is_text, as_object}
use sourceos_syncd.NoiseBudget.{field_or}
use sourceos_syncd.Reports.Checks.{Library, Complaint, ◌>>=◌, bind_elim, sub_dict, object_or_empty}
use sourceos_syncd.Reports.Verify.{
  fail, critical, Evidence, Invariant, is_nil, judged, disk_values, disk_invariant,
}
use sourceos_syncd.Reports.Diagnosis.Soundness.{
  verify-disk, diagnose-grave, diagnose-grave_if_failed,
}
use sourceos_syncd.Reports.Diagnosis.{Diagnosis, is_unsafe, failed, failed_gravely, diagnose}
use sourceos_syncd.Scorecard.Parts.{Parts, evaluate_scorecard-Parts}
use sourceos_syncd.Scorecard.{
  ScoreStatus, ready, watch, low, blocked, count, Gate, gates_of, fails, status_of, Scorecard,
  disk_pressure, pressure_in, evaluate_scorecard,
}

abbrev pub is_blocked : ScoreStatus → Bool
is_blocked blocked = true
is_blocked ready = false
is_blocked watch = false
is_blocked low = false

status_of-blocked :
    (gates : List Gate) (score : ℕ) → is_blocked (status_of gates score) ≡ any_of fails gates
unfolding status_of
status_of-blocked gates score = ground arith

count_zero :
    (p : Invariant → Bool) (is : List Invariant) → not (nat_beq (count p is) 0) ≡ any_of p is
unfolding count
count_zero p [] = refl
count_zero p (i ∷ is) = ground (arith, count_zero p is)

-- The three other gates fail only if the second one does.
one_gate :
    (a u c t : Bool)
    → (a ≡ true → u ≡ true)
    → c ≡ u
    → (t ≡ true → u ≡ true)
    → (a || (u || (c || (t || false)))) ≡ u
one_gate a u c t ha hc ht = ground arith

abbrev refused : List String
refused = "critical" ∷ "unknown" ∷ []

critical_text : (j : Json) → is_text "critical" j ≡ true → in_set refused j ≡ some true
unfolding is_text in_set
critical_text (str t) h = ground arith
critical_text _ h = cc

critical_disk :
    (o : Option Json) (j : Json)
    → (object_or_empty o >>= (λ d. some (field_or "pressure" (str "unknown") d))) ≡ some j
    → is_text "critical" j ≡ true
    → in_set refused (disk_values o).0 ≡ some true
unfolding as_object ◌>>=◌ in_set string_eq
critical_disk none j h t = refl
critical_disk (some (obj fs)) j h t =
    ap (in_set refused) (Option.some-injective _ _ h) ∙ critical_text j t
critical_disk (some _) j h t = refl

critical_resources :
    (o : Option Json) (resources : Object) (j : Json)
    → pressure_in (as_object (elim o [ none ↦ null | some v ↦ v ])) ≡ some j
    → is_text "critical" j ≡ true
    → object_or_empty o ≡ some resources
    → in_set refused (disk_values (Dict.get "disk" resources)).0 ≡ some true
unfolding as_object sub_dict ◌>>=◌ field_or
critical_resources none resources j h t e =
    critical_disk (Dict.get "disk" resources) j
      (ap (λ x. sub_dict "disk" x >>= (λ d. some (field_or "pressure" (str "unknown") d)))
          (sym (Option.some-injective _ _ e))
        ∙ h)
      t
critical_resources (some (obj fs)) resources j h t e =
    let same = Option.some-injective _ _ e in
    critical_disk (Dict.get "disk" resources) j (ap (λ x. pressure_in (some x)) (sym same) ∙ h) t
critical_resources (some _) resources j h t e = cc

judged_bad :
    (id : String) (bad : Bool) (evidence : Evidence) (remediation : String) (i : Invariant)
    → bad ≡ true
    → some (judged id (not bad) fail critical evidence remediation) ≡ some i
    → failed i ≡ true
unfolding judged
judged_bad id true evidence remediation i e h = ap failed (sym (Option.some-injective _ _ h))
judged_bad id false evidence remediation i e h = cc

-- A critical pressure is one that the invariant on the disk refuses.
disk-critical :
    (r : Object) (i : Invariant) (j : Json)
    → disk_invariant r ≡ some i
    → disk_pressure r ≡ some j
    → is_text "critical" j ≡ true
    → failed i ≡ true
unfolding disk_invariant disk_pressure sub_dict get_json
disk-critical r i j hi hd h = bind_elim hi λ resources is_resources h1.
    bind_elim h1 λ bad is_bad h2.
      judged_bad _ bad _ _ i
        (Option.some-injective _ _
          (sym is_bad ∙ critical_resources (Dict.get "resources" r) resources j hd h is_resources))
        h2

not_nil :
    (errors : List Complaint)
    → not (is_nil errors) ≡ true
    → (b : Bool) → (not (is_nil errors) || b) ≡ true
not_nil errors h b = rw h refl

or_right : (a b : Bool) → b ≡ true → (a || b) ≡ true
or_right a b h = ground arith

twice : (b : Bool) → not (not b) ≡ b
twice true = refl
twice false = refl

module _ (lib : Library) (now : String) (r : Object) (card : Scorecard) (g : Diagnosis) where
  gates_of-fail :
      (parts : Parts lib now r card)
      → any_of fails (
          gates_of parts.errors parts.diagnosis.status
            (count failed_gravely parts.verification.invariants)
            parts.disk)
        ≡ is_unsafe parts.diagnosis.status
  unfolding gates_of
  gates_of-fail parts =
      let (i, is_i) = verify-disk lib r parts.diagnosis parts.is_verification in
      let unsafe_if =
        diagnose-grave_if_failed lib r parts.diagnosis parts.errors i parts.is_errors is_i
          parts.is_diagnosis in
      ap
        (λ b.
          not (is_nil parts.errors)
          || (b
              || (not (nat_beq (count failed_gravely parts.verification.invariants) 0)
                  || (not (not (is_text "critical" parts.disk)) || false))))
        (twice (is_unsafe parts.diagnosis.status))
      ∙ one_gate _ (is_unsafe parts.diagnosis.status) _ _
          (λ e. unsafe_if ∙ not_nil parts.errors e _)
          (count_zero failed_gravely parts.verification.invariants
            ∙ sym (diagnose-grave lib r parts.diagnosis parts.is_verification parts.is_diagnosis))
          (λ e.
            unsafe_if
            ∙ or_right _ _ (disk-critical r i parts.disk is_i parts.is_disk (sym (twice _) ∙ e)))

  -- A scorecard is blocked exactly if the diagnosis of the report is unsafe: the other gates, on the
  -- contract, on critical invariants and on the disk, fail in no other case.
  pub evaluate_scorecard-blocked :
      evaluate_scorecard lib now r ≡ some card
      → diagnose lib r ≡ some g
      → is_blocked card.status ≡ is_unsafe g.status
  evaluate_scorecard-blocked h hg =
      let parts = evaluate_scorecard-Parts lib now r card h in
      let same = Option.some-injective _ _ (sym parts.is_diagnosis ∙ hg) in
      ap is_blocked parts.is_status
      ∙ status_of-blocked card.gates card.score
      ∙ ap (any_of fails) parts.is_gates
      ∙ gates_of-fail parts
      ∙ ap (λ x. is_unsafe x.status) same
