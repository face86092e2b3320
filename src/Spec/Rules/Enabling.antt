-- ===== src/Spec/Rules/Enabling.antt =====
-- The loops of ComputeFeatures that write the Skip flags, as seen by FeatureByName.
use mathlib.Core.Option
use apigear_cli.Base.{
  ◌≡◌, refl, ◌∙◌, String, Bool, true, false, none, some, List, [], ◌∷◌, arith, if◌then◌else◌,
  Bool-cases, Option-cases, ◌==◌, eq_iff, inl, inr,
}
use apigear_cli.Base.Lists.{Elem, contains, contains-head, contains-tail, contains-cons}
use apigear_cli.Spec.Rules.{FeatureRule, feature_by_name, with_skip, skip_all, enable, enable_all}

-- FeatureByName after a loop that sets every flag.
pub feature_by_name-skip_all :
    (skip : Bool) (features : List FeatureRule) (n : String)
    → feature_by_name (skip_all skip features) n
      ≡ Option.map (with_skip skip) (feature_by_name features n)
unfolding feature_by_name skip_all
feature_by_name-skip_all skip [] n = refl
feature_by_name-skip_all skip (f ∷ features) n =
    ground (arith, feature_by_name-skip_all skip features n)

-- The feature that FeatureByName returns has the name asked for.
pub feature_by_name-name :
    (features : List FeatureRule) (n : String) {f : FeatureRule}
    → feature_by_name features n ≡ some f
    → f.name ≡ n
unfolding feature_by_name
feature_by_name-name [] n found = ground arith
feature_by_name-name (g ∷ features) n {f} found = ground (
  arith,
  eq_iff g.name n,
  λ (e : feature_by_name features n ≡ some f). feature_by_name-name features n e,
)

-- It is a feature of the document.
pub feature_by_name-Elem :
    (features : List FeatureRule) (n : String) {f : FeatureRule}
    → feature_by_name features n ≡ some f
    → Elem f features
unfolding feature_by_name
feature_by_name-Elem [] n found = ground arith
feature_by_name-Elem (g ∷ features) n {f} found = elim (Bool-cases (g.name == n)) [
  | inl here ↦ inl (ground arith)
  | inr later ↦ inr (feature_by_name-Elem features n (rw later at found))
]

abbrev pub enabled_if : Bool → FeatureRule → FeatureRule
enabled_if b f = if b then with_skip false f else f

-- A name that a feature has can be enabled.
enable-total :
    (name : String) (features : List FeatureRule) {f : FeatureRule}
    → feature_by_name features name ≡ some f
    → (features' : List FeatureRule) × (enable name features ≡ some features')
unfolding feature_by_name enable
enable-total name [] found = absurd (ground arith)
enable-total name (g ∷ features) {f} found = elim (Bool-cases (g.name == name)) [
  | inl here ↦ (with_skip false g ∷ features, rw here)
  | inr later ↦
      let (features', e) = enable-total name features (rw later at found) in
      (g ∷ features', rw later (rw e))
]

-- FeatureByName then returns that feature enabled, and every other feature as it was.
feature_by_name-enable :
    (name : String) (features : List FeatureRule) {features' : List FeatureRule}
    → enable name features ≡ some features'
    → (n : String)
    → feature_by_name features' n ≡ Option.map (enabled_if (name == n)) (feature_by_name features n)
unfolding feature_by_name enable
feature_by_name-enable name [] done n = absurd (ground arith)
feature_by_name-enable name (g ∷ features) {features'} done n = elim (Bool-cases (g.name == name)) [
  | inl here ↦ ground (arith, eq_iff g.name name, eq_iff g.name n, eq_iff name n)
  | inr later ↦ elim (Option-cases (enable name features)) [
    | inl e ↦ absurd (ground arith)
    | inr (rest, e) ↦ ground (
      arith,
      eq_iff g.name name,
      eq_iff g.name n,
      eq_iff name n,
      feature_by_name-enable name features e n,
    )
  ]
]

-- The last loop of ComputeFeatures succeeds if every name has a feature, and enables, of the
-- features that FeatureByName returns, those that are named; the order of the names is not seen.
pub enable_all_lem :
    (names : List String) (features : List FeatureRule)
    → ((v : String)
        → contains names v ≡ true
        → (f : FeatureRule) × (feature_by_name features v ≡ some f))
    → (features' : List FeatureRule) × (enable_all names features ≡ (none, features'))
      × ((n : String)
          → feature_by_name features' n
            ≡ Option.map (enabled_if (contains names n)) (feature_by_name features n))
unfolding enable_all
enable_all_lem [] features known = (features, refl, λ n. unfold contains in ground arith)
enable_all_lem (name ∷ names) features known =
    let (f, found) = known name (contains-head name names) in
    let (rest, e) = enable-total name features found in
    let after = feature_by_name-enable name features e in
    let (features', all, lookups) = enable_all_lem names rest (λ v h.
      let (g, eg) = known v (contains-tail name names v h) in
      (enabled_if (name == v) g, after v ∙ rw eg)) in
    (features', rw (e, enable_all) all, λ n. lookups n ∙ rw (after n, contains-cons) (ground arith))
