-- ===== src/Spec/Rules/Computed.antt =====
-- ComputeFeatures as a whole: which features it enables, and when it fails.
use mathlib.Core.Option
use apigear_cli.Base.{
  ◌≡◌, refl, ◌∙◌, ◌⊎◌, inl, inr, ◌↔◌, String, Bool, true, false, Option, none, some, List, [], ◌∷◌,
  suc, ◌<◌, arith, Bool-cases, Option-cases, not, ap,
}
use apigear_cli.Base.Lists.{length, contains, contains-head, contains-tail, contains-cases}
use apigear_cli.Spec.Rules.{
  FeatureRule, feature_by_name, FeatureError, unknown_wanted, not_found, out_of_fuel, Walk, walked,
  failed, with_skip, skip_all, enable_all, enable_walked, first_unknown, compute_features,
}
use apigear_cli.Spec.Rules.Walking.{open_count, open_count-le-length}
use apigear_cli.Spec.Rules.Enabling.{feature_by_name-skip_all, enable_all_lem}
use apigear_cli.Spec.Rules.Skips.{
  feature_by_name-skip_all_back, Needed-skip_all, skip_all-Needed, length-skip_all,
}
use apigear_cli.Spec.Rules.Features.{
  Needed, Collected, Gathered, walk_wanted-Gathered, collected-Closed, collected-Needed,
}

first_unknown-none :
    (features : List FeatureRule) (wanted : List String)
    → first_unknown features wanted ≡ none
    → (v : String) → contains wanted v ≡ true
    → (f : FeatureRule) × (feature_by_name features v ≡ some f)
unfolding first_unknown
first_unknown-none features [] e v h = unfold contains in cc
first_unknown-none features (name ∷ wanted) e v h =
    elim (Option-cases (feature_by_name features name)) [
      | inl missing ↦ absurd (ground arith)
      | inr (f, found) ↦ elim (contains-cases name wanted v h) [
        | inl same ↦ (f, rw (← same) found)
        | inr r ↦ first_unknown-none features wanted (ground arith) v r
      ]
    ]

first_unknown-some :
    (features : List FeatureRule) (wanted : List String) {m : String}
    → first_unknown features wanted ≡ some m
    → (contains wanted m ≡ true) × (feature_by_name features m ≡ none)
unfolding first_unknown
first_unknown-some features [] e = absurd (ground arith)
first_unknown-some features (name ∷ wanted) {m} e =
    elim (Option-cases (feature_by_name features name)) [
      | inl missing ↦
          let same : name ≡ m = ground arith in
          (rw (← same) (contains-head name wanted), rw (← same) missing)
      | inr (f, found) ↦
          let (h, missing) = first_unknown-some features wanted (ground arith) in
          (contains-tail name wanted m h, missing)
    ]

-- A feature that a wish asks for or needs.
abbrev pub IsNeeded : List FeatureRule → List String → String → Type 0
IsNeeded features wanted n = (contains wanted "all" ≡ true) ⊎ Needed features wanted n

-- The features after a success: FeatureByName finds what it found before, up to the Skip flag, and
-- the flag is cleared exactly where the feature is needed.
abbrev pub Enabled : List FeatureRule → List String → List FeatureRule → Type 0
Enabled features wanted features' =
    (n : String) (f : FeatureRule)
    → feature_by_name features n ≡ some f
    → (skip : Bool) × (feature_by_name features' n ≡ some (with_skip skip f))
      × ((skip ≡ false) ↔ IsNeeded features wanted n)

-- The verdict below, with the features that a success leaves.
abbrev Answer : List FeatureRule → List String → Option FeatureError × List FeatureRule → Type 0
Answer features wanted (none, features') =
    Enabled features wanted features'
    × ((n : String)
        → Needed features wanted n ⊎ (contains wanted n ≡ true)
        → (f : FeatureRule) × (feature_by_name features n ≡ some f))
Answer features wanted (some (unknown_wanted m), features') =
    (contains wanted m ≡ true) × (feature_by_name features m ≡ none)
Answer features wanted (some (not_found m), features') =
    Needed features wanted m × (feature_by_name features m ≡ none)
Answer features wanted (some out_of_fuel, features') = ⊥

-- What ComputeFeatures may answer, without "all": a success, where all that is wanted or needed
-- exists, or the name of a feature that is wanted or needed and does not exist.
abbrev pub Verdict : List FeatureRule → List String → Option FeatureError → Type 0
Verdict features wanted none =
    (n : String)
    → Needed features wanted n ⊎ (contains wanted n ≡ true)
    → (f : FeatureRule) × (feature_by_name features n ≡ some f)
Verdict features wanted (some (unknown_wanted m)) =
    (contains wanted m ≡ true) × (feature_by_name features m ≡ none)
Verdict features wanted (some (not_found m)) =
    Needed features wanted m × (feature_by_name features m ≡ none)
Verdict features wanted (some out_of_fuel) = ⊥

module _ (features : List FeatureRule) (wanted : List String) where
  feature_by_name_of_none :
      (m : String)
      → feature_by_name (skip_all true features) m ≡ none
      → feature_by_name features m ≡ none
  feature_by_name_of_none m missing = elim (Option-cases (feature_by_name features m)) [
    | inl e ↦ e
    | inr (f, found) ↦
        cc (
          missing,
          feature_by_name-skip_all true features m,
          ap (Option.map (with_skip true)) found,
        )
  ]

  known_of_skip_all :
      (n : String)
      → (g : FeatureRule) × (feature_by_name (skip_all true features) n ≡ some g)
      → (f : FeatureRule) × (feature_by_name features n ≡ some f)
  known_of_skip_all n (g, e) =
      let (f, found, same) = feature_by_name-skip_all_back true features wanted n e in (f, found)

  Answer-walked :
      (out : List String)
      → contains wanted "all" ≡ false
      → ((v : String)
          → contains wanted v ≡ true
          → (f : FeatureRule) × (feature_by_name (skip_all true features) v ≡ some f))
      → Collected (skip_all true features) wanted (skip_all true features) [] out
      → Answer features wanted (enable_all out (skip_all true features))
  Answer-walked out some_only known o =
      let closed = collected-Closed (skip_all true features) wanted out o known in
      let needed = collected-Needed (skip_all true features) wanted out o known in
      let needed' = λ (n : String) (p : Needed features wanted n).
        needed n (Needed-skip_all true features wanted n p) in
      let exists = λ (v : String) (h : contains out v ≡ true).
        let (_, f, e, _) = closed v h in
        let r : (f : FeatureRule) × (feature_by_name (skip_all true features) v ≡ some f) =
          (f, e) in
        r in
      let (features', done, lookups) = enable_all_lem out (skip_all true features) exists in
      rw done (
        λ n f found. (
          not (contains out n),
          lookups n ∙ rw (feature_by_name-skip_all true features n, found) (ground arith),
          (
            λ h. inr (skip_all-Needed true features wanted n (closed n (ground arith)).0),
            λ h. elim h [ inl all ↦ cc (all, some_only) | inr p ↦ rw (needed' n p) ],
          ),
        ),
        λ n h. elim h [
          | inl p ↦ known_of_skip_all n (exists n (needed' n p))
          | inr w ↦ known_of_skip_all n (known n w)
        ],
      )

  enable_walked-Answer :
      (w : Walk)
      → contains wanted "all" ≡ false
      → ((v : String)
          → contains wanted v ≡ true
          → (f : FeatureRule) × (feature_by_name (skip_all true features) v ≡ some f))
      → Gathered (skip_all true features) wanted (skip_all true features) [] w
      → Answer features wanted (enable_walked (skip_all true features) w)
  enable_walked-Answer (walked out) some_only known o = Answer-walked out some_only known o
  enable_walked-Answer (failed (not_found m)) some_only known (p, missing) =
      (skip_all-Needed true features wanted m p, feature_by_name_of_none m missing)
  enable_walked-Answer (failed (unknown_wanted m)) some_only known o = absurd o
  enable_walked-Answer (failed out_of_fuel) some_only known o = o

  compute_features-Answer :
      contains wanted "all" ≡ false → Answer features wanted (compute_features wanted features)
  unfolding compute_features
  compute_features-Answer some_only =
      elim (Option-cases (first_unknown (skip_all true features) wanted)) [
        | inl e ↦
            let few : open_count (skip_all true features) [] < suc (length features) = omega (
              arith,
              open_count-le-length (skip_all true features) [],
              length-skip_all true features,
            ) in
            rw (some_only, e)
              (enable_walked-Answer _ some_only (first_unknown-none _ wanted e) (
                walk_wanted-Gathered (skip_all true features) wanted (suc (length features))
                  (skip_all true features) [] few (λ f h. h)))
        | inr (m, e) ↦
            let (h, missing) = first_unknown-some _ wanted e in
            rw (some_only, e) (h, feature_by_name_of_none m missing)
      ]

  all-Enabled :
      contains wanted "all" ≡ true → Enabled features wanted (compute_features wanted features).1
  unfolding compute_features
  all-Enabled all = rw all λ n f found.
      (false, rw (feature_by_name-skip_all false features n, found), (λ _. inl refl, λ _. refl))

  Answer-Enabled :
      (r : Option FeatureError × List FeatureRule)
      → Answer features wanted r
      → r.0 ≡ none
      → Enabled features wanted r.1
  Answer-Enabled (none, features') a e = a.0
  Answer-Enabled (some err, features') a e = cc e

  Answer-Verdict :
      (r : Option FeatureError × List FeatureRule)
      → Answer features wanted r
      → Verdict features wanted r.0
  Answer-Verdict (none, features') a = a.1
  Answer-Verdict (some (unknown_wanted m), features') a = a
  Answer-Verdict (some (not_found m), features') a = a
  Answer-Verdict (some out_of_fuel, features') a = a

  -- If ComputeFeatures returns no error, then FeatureByName finds what it found before, up to the
  -- Skip flag, and that flag is cleared exactly on the features that are needed: all of them if
  -- "all" is wanted, and else the wanted ones with what these require, directly or not.
  pub compute_features-Enabled :
      (compute_features wanted features).0 ≡ none
      → Enabled features wanted (compute_features wanted features).1
  compute_features-Enabled done = elim (Bool-cases (contains wanted "all")) [
    | inl all ↦ all-Enabled all
    | inr some_only ↦ Answer-Enabled _ (compute_features-Answer some_only) done
  ]

  -- Without "all" among the wanted names, ComputeFeatures answers in one of three ways: with
  -- success, and then every feature that is wanted or needed exists; with the name of a wanted
  -- feature that does not exist; or with that of a needed one that does not exist. The recursion
  -- always ends, also where features require one another in a cycle.
  pub compute_features-Verdict :
      contains wanted "all" ≡ false → Verdict features wanted (compute_features wanted features).0
  compute_features-Verdict some_only = Answer-Verdict _ (compute_features-Answer some_only)
