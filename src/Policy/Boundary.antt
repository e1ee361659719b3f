-- ===== src/Policy/Boundary.antt =====
-- Every decision of the evaluator passes the boundary that the reports enforce.
use mathlib.Core.Path.{subst}
use sourceos_syncd.Text.{rstrip}
use sourceos_syncd.Prelude.{
  ◌≢◌, Bool-cases, inl, inr, ◌==◌, string_eq, ℕ, ◌+◌, ◌*◌, suc, String, true, Option, none, some,
  List, [], ◌∷◌, ◌++◌, ◌≡◌, refl, ap, arith, length, length-append, All, string_eq,
}
use sourceos_syncd.Prelude.Dict
use sourceos_syncd.Json.{Json, Object, get_json, as_object, entries, fields, is_text, is_false}
use sourceos_syncd.Show.{str_field}
use sourceos_syncd.Policy.Report.{
  report_actions, report_request, Counts, no_counts, count_status, total, checked, checked_decision,
  join, count_from, decision_counts, lane_decisions, evaluate_report_policy,
}
use sourceos_syncd.Policy.{
  PolicyRequest, PolicyDecision, Fetched, malformed, failed, replied, Asked, raises, silent,
  decided, answered, is_slash, evaluate_fetched, default_boundary, boundary_dict, decision_dict,
  is_boundary, validate_decision_boundary, evaluate_locally, remote_decision, evaluate_remotely,
  evaluate_policy, both, remote_fields, or_locally, ask_service,
}

-- A list of decisions was made, each passes the boundary, and there are that many.
abbrev pub IsReport : ℕ → Option (List Object) → Type 0
IsReport n none = ⊥
IsReport n (some ds) = All (λ d. validate_decision_boundary d ≡ true) ds × (length ds ≡ n)

module _ (digest : Object → String) (text_of : Json → String)
    (fetch : String → PolicyRequest → Fetched) (now : String) (url : Option String) where
  decision_dict-boundary :
      (d : PolicyDecision)
      → d.boundary ≡ default_boundary
      → validate_decision_boundary (decision_dict d) ≡ true
  unfolding validate_decision_boundary decision_dict boundary_dict is_boundary get_json as_object
      entries fields Dict.get is_text is_false string_eq
  decision_dict-boundary d h = simp h refl

  abbrev IsBounded : Option PolicyDecision → Type 0
  IsBounded none = Unit
  IsBounded (some d) = d.boundary ≡ default_boundary

  remote_fields-IsBounded :
      (base : String) (r : PolicyRequest) (answer : Object)
      (keys : Option ((Json × Json) × (Json × Json)))
      → IsBounded (remote_fields digest text_of fetch now base r answer keys)
  unfolding remote_fields
  remote_fields-IsBounded base r answer none = tt
  remote_fields-IsBounded base r answer (some ((id, action), (lane, status))) = refl

  remote_decision-IsBounded :
      (base : String) (r : PolicyRequest) (answer : Option Object)
      → IsBounded (remote_decision digest text_of fetch now base r answer)
  unfolding remote_decision
  remote_decision-IsBounded base r none = tt
  remote_decision-IsBounded base r (some answer) = remote_fields-IsBounded base r answer (
      both (both (Dict.get "decision_id" answer) (Dict.get "action" answer))
        (both (Dict.get "lane" answer) (Dict.get "status" answer)))

  -- The service raises nothing, and what it decides keeps the boundary.
  abbrev IsUsable : Asked → Type 0
  IsUsable raises = ⊥
  IsUsable silent = Unit
  IsUsable (decided d) = d.boundary ≡ default_boundary

  answered-IsUsable : (o : Option PolicyDecision) → IsBounded o → IsUsable (answered o)
  answered-IsUsable none h = tt
  answered-IsUsable (some d) h = h

  evaluate_fetched-IsUsable :
      (base : String) (r : PolicyRequest) (f : Fetched)
      → f ≢ malformed
      → IsUsable (evaluate_fetched digest text_of fetch now base r f)
  unfolding evaluate_fetched
  evaluate_fetched-IsUsable base r malformed h = elim (h refl) [ ]
  evaluate_fetched-IsUsable base r failed h = tt
  evaluate_fetched-IsUsable base r (replied j) h =
      answered-IsUsable _ (remote_decision-IsBounded base r (as_object j))

  -- No request to the URL fails in the making.
  abbrev pub IsWellFormed : Option String → Type 0
  IsWellFormed none = Unit
  IsWellFormed (some u) = (r : PolicyRequest) → fetch (rstrip is_slash u) r ≢ malformed

  ask_service-IsUsable :
      (u : Option String) (r : PolicyRequest)
      → IsWellFormed u
      → IsUsable (ask_service digest text_of fetch now u r)
  unfolding ask_service evaluate_remotely
  ask_service-IsUsable none r h = tt
  ask_service-IsUsable (some base) r h = elim (Bool-cases (base == "")) [
    | inl e ↦ rw e tt
    | inr e ↦ rw e (evaluate_fetched-IsUsable _ r _ (h r))
  ]

  -- A decision was made, with the boundary of the class.
  abbrev IsMade : Option PolicyDecision → Type 0
  IsMade none = ⊥
  IsMade (some d) = d.boundary ≡ default_boundary

  or_locally-IsMade :
      (r : PolicyRequest) (asked : Asked)
      → IsUsable asked
      → IsMade (or_locally digest text_of fetch now r asked)
  unfolding or_locally evaluate_locally
  or_locally-IsMade r raises h = h
  or_locally-IsMade r silent h = refl
  or_locally-IsMade r (decided d) h = h

  evaluate_policy-IsMade :
      (u : Option String) (r : PolicyRequest)
      → IsWellFormed u
      → IsMade (evaluate_policy digest text_of fetch now u r)
  unfolding evaluate_policy
  evaluate_policy-IsMade u r h =
      or_locally-IsMade r (ask_service digest text_of fetch now u r) (ask_service-IsUsable u r h)

  checked-IsReport :
      (d : Object) (n : ℕ) (o : Option (List Object))
      → validate_decision_boundary d ≡ true
      → IsReport n o
      → IsReport (suc n) (checked d o)
  unfolding checked
  checked-IsReport d n none h k = elim k [ ]
  checked-IsReport d n (some ds) h (all, len) = rw h ((h, all), ap suc len)

  checked_decision-IsReport :
      (m : Option PolicyDecision) (n : ℕ) (o : Option (List Object))
      → IsMade m
      → IsReport n o
      → IsReport (suc n) (checked_decision m o)
  unfolding checked_decision
  checked_decision-IsReport none n o h k = elim h [ ]
  checked_decision-IsReport (some d) n o h k =
      checked-IsReport (decision_dict d) n o (decision_dict-boundary d h) k

  lane_decisions-IsReport :
      (lane subject : String) (names : List String)
      → IsWellFormed url
      → IsReport (length names) (lane_decisions digest text_of fetch now url lane subject names)
  unfolding lane_decisions
  lane_decisions-IsReport lane subject [] h = (tt, refl)
  lane_decisions-IsReport lane subject (action ∷ rest) h =
      checked_decision-IsReport
        (evaluate_policy digest text_of fetch now url (report_request action lane subject))
        (length rest) (lane_decisions digest text_of fetch now url lane subject rest)
        (evaluate_policy-IsMade url (report_request action lane subject) h)
        (lane_decisions-IsReport lane subject rest h)

  All-append {ℓ} :
      (P : Object → Type ℓ) (xs ys : List Object) → All P xs → All P ys → All P (xs ++ ys)
  All-append P [] ys a b = b
  All-append P (x ∷ xs) ys (p, a) b = (p, All-append P xs ys a b)

  join-IsReport :
      (m n : ℕ) (a b : Option (List Object))
      → IsReport m a
      → IsReport n b
      → IsReport (m + n) (join a b)
  join-IsReport m n none b k l = elim k [ ]
  join-IsReport m n (some ds) none k l = elim l [ ]
  join-IsReport m n (some ds) (some es) (all, len) (all', len') = (
    All-append (λ d. validate_decision_boundary d ≡ true) ds es all all',
    omega (arith, length-append ds es, len, len'),
  )

  -- A report on any lanes, whatever the remote service answers or fails to answer, has four decisions for
  -- each lane, and each of them passes the boundary check: nothing is raised, if the service's URL is not
  -- one for which the making of the request raises.
  pub evaluate_report_policy-IsReport :
      (lanes : List Object) (subject : String)
      → IsWellFormed url
      → IsReport
          (4 * length lanes)
          (evaluate_report_policy digest text_of fetch now url lanes subject)
  unfolding evaluate_report_policy
  evaluate_report_policy-IsReport [] subject h = (tt, refl)
  evaluate_report_policy-IsReport (lane ∷ lanes) subject h =
      let name = str_field text_of "name" "normal" lane in
      subst
        (λ n.
          IsReport n (evaluate_report_policy digest text_of fetch now url (lane ∷ lanes) subject))
        (omega arith)
        (join-IsReport 4 (4 * length lanes)
          (lane_decisions digest text_of fetch now url name subject report_actions)
          (evaluate_report_policy digest text_of fetch now url lanes subject)
          (lane_decisions-IsReport name subject report_actions h)
          (evaluate_report_policy-IsReport lanes subject h))

-- The counts grow by one for each decision.
module _ (text_of : Json → String) where
  count_status-total :
      (status : String) (c : Counts) → total (count_status status c) ≡ suc (total c)
  unfolding count_status
  count_status-total status c = ground arith

  count_from-total :
      (ds : List Object) (c : Counts)
      → All (λ d. validate_decision_boundary d ≡ true) ds
      → (final : Counts) × (count_from text_of ds c ≡ some final)
        × (total final ≡ total c + length ds)
  unfolding count_from
  count_from-total [] c h = (c, refl, omega arith)
  count_from-total (d ∷ ds) c (h, hs) =
      let next = count_status (str_field text_of "status" "deferred" d) c in
      let (final, e, t) = count_from-total ds next hs in
      (
        final,
        rw h e,
        omega (arith, t, count_status-total (str_field text_of "status" "deferred" d) c),
      )

  -- Decisions that all pass the boundary are counted without an error, each of them once: the four
  -- counts add up to their number.
  pub decision_counts-total :
      (ds : List Object)
      → All (λ d. validate_decision_boundary d ≡ true) ds
      → (c : Counts) × (decision_counts text_of ds ≡ some c) × (total c ≡ length ds)
  unfolding decision_counts
  decision_counts-total ds h =
      let (c, e, t) = count_from-total ds no_counts h in (c, e, omega (arith, t))
