-- ===== src/Tests/RulesRuns.antt =====
-- The theorems on pkg/spec/rules.go at a small rules document.
use mathlib.Core.Option
use apigear_cli.Base.{◌≡◌, refl, ◌↔◌, ◌⊎◌, inl, String, true, false, not, none, List, [], ◌∷◌, map}
use apigear_cli.Base.Lists.{contains}
use apigear_cli.Base.Loop.{All}
use apigear_cli.Base.Dict.{lookup}
use apigear_cli.Spec.Rules.{
  DocumentRule, ScopeRule, FeatureRule, Engines, scope_module, feature_by_name, first_unknown,
  skip_all, walk_wanted, walk_required, enable_all, enable, compute_features, feature_names_map,
}
use apigear_cli.Spec.Rules.Computed.{
  Enabled, Verdict, compute_features-Enabled, compute_features-Verdict,
}
use apigear_cli.Spec.Rules.Checks.{
  IsConsistent, rules_validate, rules_validate-none_iff, last_by_name, lookup-feature_names_map,
}
use apigear_cli.Spec.Rules.Versions.{SemVer, check_engines, Satisfies, check_engines-true_iff}

abbrev header : DocumentRule
header = record { source = "a.h.tpl"; target = "a.h"; raw = false; force = false; preserve = true }

abbrev per_module : ScopeRule
per_module = record { match = scope_module; prefix = "src/"; documents = header ∷ [] }

abbrev core : FeatureRule
core = record { name = "core"; requires = []; scopes = per_module ∷ []; skip = false }

abbrev api : FeatureRule
api = record { name = "api"; requires = "core" ∷ []; scopes = []; skip = false }

abbrev monitor : FeatureRule
monitor = record { name = "monitor"; requires = "api" ∷ "monitor" ∷ []; scopes = []; skip = false }

abbrev features : List FeatureRule
features = core ∷ api ∷ monitor ∷ []

abbrev wish : List String
wish = "api" ∷ []

wish_done : (compute_features wish features).0 ≡ none
unfolding compute_features contains first_unknown feature_by_name skip_all walk_wanted walk_required
    enable_all enable
wish_done = refl

wish_leaves : map (λ f. f.skip) (compute_features wish features).1 ≡ false ∷ false ∷ true ∷ []
unfolding compute_features contains first_unknown feature_by_name skip_all walk_wanted walk_required
    enable_all enable
wish_leaves = refl

compute_features-Enabled_example : Enabled features wish (compute_features wish features).1
compute_features-Enabled_example = compute_features-Enabled features wish wish_done

not_all : contains wish "all" ≡ false
unfolding contains
not_all = refl

compute_features-Verdict_example : Verdict features wish (compute_features wish features).0
compute_features-Verdict_example = compute_features-Verdict features wish not_all

rules_validate-none_iff_example :
    (rules_validate features ≡ none)
    ↔ All (λ f. All (λ s. All IsConsistent s.documents) f.scopes) features
rules_validate-none_iff_example = rules_validate-none_iff features

-- Two features of one name, of which the first is enabled.
abbrev twice : List FeatureRule
twice =
    record { name = "api"; requires = []; scopes = []; skip = false }
    ∷ record { name = "core"; requires = []; scopes = []; skip = false }
    ∷ record { name = "api"; requires = []; scopes = []; skip = true }
    ∷ []

lookup-feature_names_map_example :
    lookup "api" (feature_names_map twice)
    ≡ Option.map (λ (f : FeatureRule). not f.skip) (last_by_name twice "api")
lookup-feature_names_map_example = lookup-feature_names_map twice "api"

-- A semver of one version.
abbrev one_version : SemVer
one_version = record {
  Constraint = Unit {0};
  Version = Unit {0};
  new_constraint = λ text. inl tt;
  new_version = λ text. inl tt;
  validate = λ c v. (true, []);
}

abbrev needs_cli : Engines
needs_cli = record { cli = ">= 1.0" }

abbrev version : String
version = "1.0"

check_engines-true_iff_example : ((check_engines one_version needs_cli version).0 ≡ true) ↔ (
    (needs_cli.cli ≡ "")
    ⊎ ((version ≡ "(devel)") ⊎ ((version ≡ "") ⊎ Satisfies one_version needs_cli.cli version)))
check_engines-true_iff_example = check_engines-true_iff one_version needs_cli version
