-- ===== src/ContentSync/Execute/FailClosed.antt =====
-- The loop of `execute` stops at the first step that fails or times out.
use sourceos_syncd.Prelude.{
  String, ◌≡◌, refl, Bool, true, false, List, [], ◌∷◌, ◌++◌, inl, inr, arith, Bool-cases,
  snoc_split, snoc_last, nil-ne_middle, sym, ◌∙◌, if◌then◌else◌,
}
use sourceos_syncd.ContentSync.{ContentSyncPlan, ContentViewSyncer}
use sourceos_syncd.ContentSync.Execute.{
  Process, returned, expired, crashed, Machine, lacks_tool, Progress, plain, dry_run, skipped,
  record_process, run_step, run_steps, start, Stamp, finished, is_allowed, execute,
}
use sourceos_syncd.ContentSync.Execute.Safety.{exited_zero}

module _ (h : Machine) where
  -- A command that another follows has exited with 0, and so has the last one of a run that is not
  -- aborted.
  record IsFailClosed (p : Progress) : Type 0 where
    followed :
        (pre : List String) (c d : String) (post : List String)
        → p.ran ≡ pre ++ c ∷ d ∷ post
        → exited_zero (h.shell pre c) ≡ true
    last :
        (pre : List String) (c : String)
        → p.aborted ≡ false
        → p.ran ≡ pre ++ c ∷ []
        → exited_zero (h.shell pre c) ≡ true

  ran-record_process :
      (s : String) (process : Process) (p : Progress)
      → (record_process s process p).ran ≡ p.ran ++ s ∷ []
  unfolding record_process
  ran-record_process s (returned code out err) p = refl
  ran-record_process s expired p = refl
  ran-record_process s crashed p = refl

  aborted-record_process :
      (s : String) (process : Process) (p : Progress)
      → (record_process s process p).aborted ≡ false
      → exited_zero process ≡ true
  unfolding record_process
  aborted-record_process s (returned code out err) p e = ground arith
  aborted-record_process s expired p e = cc
  aborted-record_process s crashed p e = cc

  record_process-IsFailClosed :
      (s : String) (p : Progress)
      → p.aborted ≡ false
      → IsFailClosed p
      → IsFailClosed (record_process s (h.shell p.ran s) p)
  record_process-IsFailClosed s p a v = record {
    followed = λ pre c d post e.
        elim (snoc_split p.ran s pre c d post (sym (ran-record_process s _ p) ∙ e)) [
          | inl f ↦ v.last pre c a f
          | inr (rest, f) ↦ v.followed pre c d rest f
        ];
    last = λ pre c not_aborted e.
        let (f, g) = snoc_last p.ran s pre c (sym (ran-record_process s _ p) ∙ e) in
        cc (aborted-record_process s (h.shell p.ran s) p not_aborted, f, g);
  }

  run_step-IsFailClosed :
      (dry : Bool) (s : String) (p : Progress) → IsFailClosed p → IsFailClosed (run_step h dry s p)
  unfolding run_step
  run_step-IsFailClosed dry s p v = elim (Bool-cases p.aborted) [
    | inl a ↦ simp a (record { followed = v.followed; last = λ pre c b e. cc })
    | inr a ↦ simp a (not_aborted dry (lacks_tool h s) a)
  ]
    where
      not_aborted :
          (dry lacks : Bool)
          → p.aborted ≡ false
          → IsFailClosed (
              if dry
              then record p { results = p.results ++ plain s dry_run ∷ []; aborted = false }
              else if lacks
              then record p { results = p.results ++ plain s skipped ∷ []; aborted = false }
              else record_process s (h.shell p.ran s) p)
      not_aborted true lacks a = record {
        followed = v.followed;
        last = λ pre c b e. v.last pre c a e;
      }
      not_aborted false true a = record {
        followed = v.followed;
        last = λ pre c b e. v.last pre c a e;
      }
      not_aborted false false a = record_process-IsFailClosed s p a v

  run_steps-IsFailClosed :
      (dry : Bool) (steps : List String) (p : Progress)
      → IsFailClosed p
      → IsFailClosed (run_steps h dry steps p)
  unfolding run_steps
  run_steps-IsFailClosed dry [] p v = v
  run_steps-IsFailClosed dry (s ∷ steps) p v =
      run_steps-IsFailClosed dry steps _ (run_step-IsFailClosed dry s p v)

-- Of the commands of a run, dry or not, each one that another follows has exited with 0: behind a
-- step that failed or timed out nothing is run, above all not the switch.
pub execute-fail_closed :
    (h : Machine) (s : ContentViewSyncer) (stamp : Stamp) (dry : Bool) (plan : ContentSyncPlan)
    (pre : List String) (c d : String) (post : List String)
    → (execute h s stamp dry plan).ran ≡ pre ++ c ∷ d ∷ post
    → exited_zero (h.shell pre c) ≡ true
unfolding execute finished
execute-fail_closed h s stamp dry plan pre c d post e =
    elim (Bool-cases (is_allowed plan.policy_gate)) [
      | inl a ↦ loop.followed pre c d post (rw a at e)
      | inr a ↦ absurd (nil-ne_middle pre c (d ∷ post) (rw a at e))
    ]
  where
    loop : IsFailClosed h (run_steps h dry plan.steps start)
    loop = run_steps-IsFailClosed h dry plan.steps start (record {
      followed = λ p x y q e. absurd (nil-ne_middle p x (y ∷ q) e);
      last = λ p x b e. absurd (nil-ne_middle p x [] e);
    })
