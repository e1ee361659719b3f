-- ===== src/Reports/Verify/Total/Lanes.antt =====
-- What the checks of the lanes establish.
use mathlib.Core.Option
use mathlib.Core.Path.{subst}
use sourceos_syncd.Prelude.{
  ℕ, String, Bool, true, false, not, ◌&&◌, Option, none, some, List, [], ◌∷◌, ◌++◌, ◌≡◌, refl, sym,
  string_eq, All, inl, inr,
}
use sourceos_syncd.Prelude.Dict
use sourceos_syncd.Prelude.Signed.{ℤ, pos, ◌+ℤ◌}
use sourceos_syncd.Json.{
  Json, null, bool, int, float, str, arr, obj, Object, entries, get_json, get_json-cons,
  get_json-nil, in_set, as_object, truthy,
}
use sourceos_syncd.Reports.Checks.{
  Library, Complaint, at, also_split, bind_some, complain, outside, is_nonnegative_int, as_int,
  object_or_empty, sub_dict, int_or_zero, dicts,
}
use sourceos_syncd.Reports.Shape.{lane_statuses}
use sourceos_syncd.Reports.Sections.{
  check_numbers, check_counts, check_keys, check_journal, journal_keys, check_lane,
  check_lanes_from, check_lanes,
}
use sourceos_syncd.Reports.Verify.{heartbeat_slas, lane_number, lag_of, allowed_lag_of, lag_sums}

append_nil : {A : Type 0} (xs ys : List A) → xs ++ ys ≡ [] → (xs ≡ []) × (ys ≡ [])
append_nil [] ys h = (refl, h)
append_nil (x ∷ xs) ys h = cc

no_complaint : (b : Bool) (c : Complaint) → complain (not b) c ≡ [] → b ≡ true
no_complaint true c h = refl
no_complaint false c h = cc

-- A non-negative number and a missing one can be read as numbers.
number_reads :
    (lib : Library) (j : Json)
    → is_nonnegative_int j ≡ true
    → (z : ℤ) × (int_or_zero lib j ≡ some z)
unfolding is_nonnegative_int as_int int_or_zero truthy
number_reads lib (int z) h = (z, refl)
number_reads lib (bool true) h = (pos 1, refl)
number_reads lib (bool false) h = (pos 0, refl)
number_reads lib null h = cc
number_reads lib (float m e) h = cc
number_reads lib (str s) h = cc
number_reads lib (arr xs) h = cc
number_reads lib (obj fs) h = cc

unflagged : (b : Bool) (c : Complaint) → complain b c ≡ [] → b ≡ false
unflagged true c h = cc
unflagged false c h = refl

not-false : (b : Bool) → not b ≡ false → b ≡ true
not-false true h = refl
not-false false h = cc

-- What is in a set of texts is a text.
pub in_set-text :
    (set : List String) (j : Json) (c : Complaint)
    → outside (in_set set j) c ≡ some []
    → (t : String) × (j ≡ str t)
unfolding outside in_set
in_set-text set (str t) c h = (t, refl)
in_set-text set null c h = cc
in_set-text set (bool b) c h = cc
in_set-text set (int z) c h = cc
in_set-text set (float m e) c h = cc
in_set-text set (arr xs) c h = cc
in_set-text set (obj fs) c h = cc

module _ (lib : Library) where
  abbrev pub Reads : Json → Type 0
  Reads j = (z : ℤ) × (int_or_zero lib j ≡ some z)

  null-Reads : Reads null
  unfolding int_or_zero truthy
  null-Reads = (pos 0, refl)

  -- Every value of the dict is a number.
  check_numbers-Reads :
      (complaint : String → Complaint) (k : String) (d : Object)
      → check_numbers complaint d ≡ []
      → Reads (get_json k d)
  unfolding check_numbers
  check_numbers-Reads complaint k [] h = subst Reads (sym (get_json-nil k)) null-Reads
  check_numbers-Reads complaint k ((i, j) ∷ d) h =
      let (first, rest) = append_nil (complain (not (is_nonnegative_int j)) (complaint i)) _ h in
      elim (get_json-cons k i j d) [
        | inl (_, e) ↦ subst Reads (sym e) (number_reads lib j (no_complaint _ (complaint i) first))
        | inr e ↦ subst Reads (sym e) (check_numbers-Reads complaint k d rest)
      ]

  counts-Reads :
      (index : ℕ) (k : String) (o : Option Json)
      → check_counts index o ≡ []
      → (d : Object) × (object_or_empty o ≡ some d) × Reads (get_json k d)
  unfolding as_object get_json
  counts-Reads index k none h = ([], refl, null-Reads)
  counts-Reads index k (some (obj fs)) h =
      (entries fs, refl, check_numbers-Reads (at "lanes" index) k (entries fs) h)
  counts-Reads index k (some null) h = cc
  counts-Reads index k (some (bool b)) h = cc
  counts-Reads index k (some (int z)) h = cc
  counts-Reads index k (some (float m e)) h = cc
  counts-Reads index k (some (str s)) h = cc
  counts-Reads index k (some (arr xs)) h = cc

  value-Reads :
      (o : Option Json)
      → (elim o [ none ↦ false | some _ ↦ true ]
          && not (is_nonnegative_int (elim o [ none ↦ null | some v ↦ v ])))
        ≡ false
      → Reads (elim o [ none ↦ null | some v ↦ v ])
  value-Reads none h = null-Reads
  value-Reads (some j) h = number_reads lib j (not-false _ h)

  -- Of each key, the value is missing or a number.
  check_keys-Reads :
      (complaint : String → Complaint) (ks : List String) (d : Object)
      → check_keys complaint ks d ≡ []
      → All (λ k. Reads (get_json k d)) ks
  unfolding check_keys get_json Dict.has
  check_keys-Reads complaint [] d h = tt
  check_keys-Reads complaint (k ∷ ks) d h =
      let (first, rest) = append_nil _ _ h in
      (value-Reads (Dict.get k d) (unflagged _ _ first), check_keys-Reads complaint ks d rest)

  journal-Reads :
      (index : ℕ) (o : Option Json)
      → check_journal index o ≡ []
      → (d : Object) × (object_or_empty o ≡ some d) × Reads (get_json "replay_lag_events" d)
  unfolding as_object get_json
  journal-Reads index none h = ([], refl, null-Reads)
  journal-Reads index (some (obj fs)) h = (
    entries fs,
    refl,
    (check_keys-Reads (at "lanes" index) journal_keys (entries fs) h).1.1.1.1.0,
  )
  journal-Reads index (some null) h = cc
  journal-Reads index (some (bool b)) h = cc
  journal-Reads index (some (int z)) h = cc
  journal-Reads index (some (float m e)) h = cc
  journal-Reads index (some (str s)) h = cc
  journal-Reads index (some (arr xs)) h = cc

  -- What the invariants and a diagnosis read of a lane is there.
  abbrev pub LaneReads : Object → Type 0
  LaneReads lane =
      ((a : ℤ) × (lag_of lib lane ≡ some a))
      × ((b : ℤ) × (allowed_lag_of lib lane ≡ some b))
      × ((s : Object) × (sub_dict "sla" lane ≡ some s))
      × ((t : String) × (get_json "status" lane ≡ str t))

  lane-Reads :
      (index : ℕ) (seen : List String) (lane : Object)
      → check_lane index seen lane ≡ some []
      → LaneReads lane
  unfolding check_lane lag_of allowed_lag_of lane_number sub_dict
  lane-Reads index seen lane h =
      let (_, h1) = also_split h in
      let (_, h2) = also_split h1 in
      let (status, h3) = also_split h2 in
      let (sla, h4) = also_split h3 in
      let (_, journal) = also_split h4 in
      let (d, is_d, reads_d) =
        counts-Reads index "max_replay_lag_events" (Dict.get "sla" lane)
          (Option.some-injective _ _ sla) in
      let (e, is_e, reads_e) =
        journal-Reads index (Dict.get "journal" lane) (Option.some-injective _ _ journal) in
      (
        (reads_e.0, bind_some _ is_e reads_e.1),
        (reads_d.0, bind_some _ is_d reads_d.1),
        (d, is_d),
        in_set-text lane_statuses (get_json "status" lane) _ status,
      )

  lanes_from-Read :
      (js : List Json) (index : ℕ) (seen : List String)
      → check_lanes_from index seen js ≡ some []
      → All LaneReads (dicts js)
  unfolding check_lanes_from
  lanes_from-Read [] index seen h = tt
  lanes_from-Read (obj fs ∷ js) index seen h =
      let (first, rest) = also_split h in
      (lane-Reads index seen (entries fs) first, lanes_from-Read js _ _ rest)
  lanes_from-Read (null ∷ js) index seen h = lanes_from-Read js _ _ (also_split h).1
  lanes_from-Read (bool b ∷ js) index seen h = lanes_from-Read js _ _ (also_split h).1
  lanes_from-Read (int z ∷ js) index seen h = lanes_from-Read js _ _ (also_split h).1
  lanes_from-Read (float m e ∷ js) index seen h = lanes_from-Read js _ _ (also_split h).1
  lanes_from-Read (str s ∷ js) index seen h = lanes_from-Read js _ _ (also_split h).1
  lanes_from-Read (arr xs ∷ js) index seen h = lanes_from-Read js _ _ (also_split h).1

  pub lanes-Read : (js : List Json) → check_lanes js ≡ some [] → All LaneReads (dicts js)
  unfolding check_lanes
  lanes-Read [] h = cc
  lanes-Read (j ∷ js) h = lanes_from-Read (j ∷ js) 0 [] h

  pub heartbeat_slas-total :
      (lanes : List Object) → All LaneReads lanes → (zs : List ℤ) × (heartbeat_slas lanes ≡ some zs)
  unfolding heartbeat_slas
  heartbeat_slas-total [] _ = ([], refl)
  heartbeat_slas-total (lane ∷ lanes) ((_, _, (s, is_s), _), hs) =
      let (zs, is_zs) = heartbeat_slas-total lanes hs in
      (_, bind_some _ is_s (bind_some _ is_zs refl))

  pub lag_sums-total :
      (lanes : List Object) (sums : ℤ × ℤ)
      → All LaneReads lanes
      → (p : ℤ × ℤ) × (lag_sums lib lanes sums ≡ some p)
  unfolding lag_sums
  lag_sums-total [] sums _ = (sums, refl)
  lag_sums-total (lane ∷ lanes) sums (((a, is_a), (b, is_b), _, _), hs) =
      let (p, is_p) = lag_sums-total lanes (sums.0 +ℤ a, sums.1 +ℤ b) hs in
      (p, bind_some _ is_a (bind_some _ is_b is_p))
