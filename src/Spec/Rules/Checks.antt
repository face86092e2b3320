-- ===== src/Spec/Rules/Checks.antt =====
-- The Validate methods of pkg/spec/rules.go, and FeatureNamesMap. A document that Validate visits is
-- a copy, so what it writes to the copy's Preserve is lost; only its error is used.
use mathlib.Core.Option
use apigear_cli.Base.{
  ◌≡◌, refl, ◌∙◌, ◌↔◌, String, Bool, false, not, ◌&&◌, Option, none, some, List, [], ◌∷◌, arith,
  if◌then◌else◌, ◌==◌, eq_iff,
}
use apigear_cli.Base.Loop.{first_error, All, first_error-none_iff}
use apigear_cli.Base.Dict.{Dict, lookup, lookup-insert}
use apigear_cli.Spec.Rules.{
  DocumentRule, ScopeRule, FeatureRule, feature_names_onto, feature_names_map,
}

-- DocumentRule.Validate: the error, and the rule as it leaves it.
unfoldable pub document_validate : DocumentRule → Option String × DocumentRule
document_validate r =
    if r.force
    then if r.preserve
      then (some "force and preserve are mutually exclusive", r)
      else (none, record r { preserve = false })
    else (none, r)

-- ScopeRule.Validate
unfoldable pub scope_validate : ScopeRule → Option String
unfolding document_validate
scope_validate r = first_error (λ d. (document_validate d).0) r.documents

-- FeatureRule.Validate
unfoldable pub feature_validate : FeatureRule → Option String
unfolding scope_validate
feature_validate r = first_error scope_validate r.scopes

-- RulesDoc.Validate
unfoldable pub rules_validate : List FeatureRule → Option String
unfolding feature_validate
rules_validate features = first_error feature_validate features

-- A document that the rules accept.
abbrev pub IsConsistent : DocumentRule → Type 0
IsConsistent d = (d.force && d.preserve) ≡ false

document_validate-none_iff : (d : DocumentRule) → ((document_validate d).0 ≡ none) ↔ IsConsistent d
unfolding document_validate
document_validate-none_iff d = ground arith

scope_validate-none_iff : (s : ScopeRule) → (scope_validate s ≡ none) ↔ All IsConsistent s.documents
unfolding scope_validate
scope_validate-none_iff s =
    first_error-none_iff _ IsConsistent document_validate-none_iff s.documents

feature_validate-none_iff :
    (f : FeatureRule)
    → (feature_validate f ≡ none) ↔ All (λ s. All IsConsistent s.documents) f.scopes
unfolding feature_validate
feature_validate-none_iff f = first_error-none_iff _ _ scope_validate-none_iff f.scopes

-- RulesDoc.Validate accepts a document exactly if no document rule of it, in any feature and any
-- scope, asks both to force and to preserve.
pub rules_validate-none_iff :
    (features : List FeatureRule)
    → (rules_validate features ≡ none)
      ↔ All (λ f. All (λ s. All IsConsistent s.documents) f.scopes) features
unfolding rules_validate
rules_validate-none_iff features = first_error-none_iff _ _ feature_validate-none_iff features

-- The last feature of a name.
pub last_by_name : List FeatureRule → String → Option FeatureRule
last_by_name [] n = none
last_by_name (f ∷ features) n = elim (last_by_name features n) [
  | some g ↦ some g
  | none ↦ if f.name == n then some f else none
]

lookup-feature_names_onto :
    (features : List FeatureRule) (m : Dict Bool) (n : String)
    → lookup n (feature_names_onto features m)
      ≡ elim (last_by_name features n) [ some f ↦ some (not f.skip) | none ↦ lookup n m ]
unfolding feature_names_onto last_by_name
lookup-feature_names_onto [] m n = refl
lookup-feature_names_onto (f ∷ features) m n =
    lookup-feature_names_onto features _ n
    ∙ ground (arith, lookup-insert f.name n (not f.skip) m, eq_iff f.name n, eq_iff n f.name)

-- FeatureNamesMap has, for a name, whether the last feature of that name is enabled, and nothing
-- for a name that no feature has.
pub lookup-feature_names_map :
    (features : List FeatureRule) (n : String)
    → lookup n (feature_names_map features)
      ≡ Option.map (λ (f : FeatureRule). not f.skip) (last_by_name features n)
unfolding feature_names_map lookup
lookup-feature_names_map features n = lookup-feature_names_onto features [] n ∙ ground arith
