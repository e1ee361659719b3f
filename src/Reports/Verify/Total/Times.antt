-- ===== src/Reports/Verify/Total/Times.antt =====
-- What the checks of the times establish.
use mathlib.Core.Path.{subst}
use sourceos_syncd.Prelude.{
  String, string_eq, true, Option, none, some, [], ◌∷◌, ◌≡◌, refl, ap, ◌∙◌, sym, inl, inr,
  if◌then◌else◌,
}
use sourceos_syncd.Json.{
  Json, null, bool, int, float, str, arr, obj, Object, entries, get_json, get_json-cons,
  get_json-nil, as_object, truthy,
}
use sourceos_syncd.Reports.Checks.{Library, Complaint, also_split, object_or_empty, parse_instant}
use sourceos_syncd.Reports.Shape.{has_suffix}
use sourceos_syncd.Reports.Sections.{no_instant, check_time, check_times, check_runtime}

module _ (lib : Library) where
  abbrev pub ReadsTime : Json → Type 0
  ReadsTime j = (o : Option String) × (parse_instant lib j ≡ some o)

  null-ReadsTime : ReadsTime null
  unfolding parse_instant truthy
  null-ReadsTime = (none, refl)

  pub no_instant-clean :
      (p : Option (Option String)) (c : Complaint)
      → no_instant p c ≡ some []
      → (o : Option String) × (p ≡ some o)
  no_instant-clean none c h = cc
  no_instant-clean (some none) c h = cc
  no_instant-clean (some (some t)) c h = (some t, refl)

  time-Reads : (k : String) (j : Json) → check_time lib k j ≡ some [] → ReadsTime j
  unfolding check_time
  time-Reads k null h = null-ReadsTime
  time-Reads k (bool b) h = no_instant-clean _ _ h
  time-Reads k (int z) h = no_instant-clean _ _ h
  time-Reads k (float m e) h = no_instant-clean _ _ h
  time-Reads k (str s) h = no_instant-clean _ _ h
  time-Reads k (arr xs) h = no_instant-clean _ _ h
  time-Reads k (obj fs) h = no_instant-clean _ _ h

  -- What is under a key that ends in `_at` can be read as a time.
  times-Read :
      (k : String)
      → has_suffix "_at" k ≡ true
      → (d : Object) → check_times lib d ≡ some []
      → ReadsTime (get_json k d)
  unfolding check_times
  times-Read k suffix [] h = subst ReadsTime (sym (get_json-nil k)) null-ReadsTime
  times-Read k suffix ((i, j) ∷ d) h =
      let (first, rest) = also_split h in
      elim (get_json-cons k i j d) [
        | inl (same, e) ↦
            let checked =
              ap (λ b. if b then check_time lib i j else some [])
                (ap (has_suffix "_at") (sym same) ∙ suffix) in
            subst ReadsTime (sym e) (time-Reads i j (sym checked ∙ first))
        | inr e ↦ subst ReadsTime (sym e) (times-Read k suffix d rest)
      ]

  pub runtime-Reads :
      (o : Option Json)
      → check_runtime lib (elim o [ none ↦ null | some v ↦ v ]) ≡ some []
      → (d : Object) × (object_or_empty o ≡ some d) × ReadsTime (get_json "last_heartbeat_at" d)
  unfolding check_runtime as_object has_suffix string_eq
  runtime-Reads (some (obj fs)) h =
      (entries fs, refl, times-Read "last_heartbeat_at" refl (entries fs) h)
  runtime-Reads none h = cc
  runtime-Reads (some null) h = cc
  runtime-Reads (some (bool b)) h = cc
  runtime-Reads (some (int z)) h = cc
  runtime-Reads (some (float m e)) h = cc
  runtime-Reads (some (str s)) h = cc
  runtime-Reads (some (arr xs)) h = cc
