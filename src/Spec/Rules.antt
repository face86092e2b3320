-- ===== src/Spec/Rules.antt =====
-- pkg/spec/rules.go: a rules document, its validation, and the features that it enables.
-- A nil slice and an empty slice are both the empty list, so the branches of Validate that replace
-- one by the other are not seen. The set `features map[string]bool` is the list of its names.
pub mod Walking
pub mod Enabling
pub mod Features
pub mod Computed
mod Skips
pub mod Versions
pub mod Checks
use apigear_cli.Base.{
  String, Bool, true, false, not, Option, none, some, List, [], ◌∷◌, ℕ, zero, suc, ◌==◌, map,
  if◌then◌else◌,
}
use apigear_cli.Base.Lists.{contains, length}
use apigear_cli.Base.Dict.{Dict, insert}

-- ScopeType
abbrev pub ScopeType : Type 0
ScopeType = String

abbrev pub scope_system : ScopeType
scope_system = "system"

abbrev pub scope_module : ScopeType
scope_module = "module"

abbrev pub scope_interface : ScopeType
scope_interface = "interface"

abbrev pub scope_struct : ScopeType
scope_struct = "struct"

abbrev pub scope_enum : ScopeType
scope_enum = "enum"

pub record DocumentRule : Type 0 where
  pub source : String
  pub target : String
  pub raw : Bool
  pub force : Bool
  pub preserve : Bool

pub record ScopeRule : Type 0 where
  pub match : ScopeType
  pub prefix : String
  pub documents : List DocumentRule

pub record FeatureRule : Type 0 where
  pub name : String
  pub requires : List String
  pub scopes : List ScopeRule
  pub skip : Bool

pub record Engines : Type 0 where
  pub cli : String

pub record RulesDoc : Type 0 where
  pub name : String
  pub engines : Engines
  pub languages : List String
  pub features : List FeatureRule

-- RulesDoc.FeatureByName
unfoldable pub feature_by_name : List FeatureRule → String → Option FeatureRule
feature_by_name [] name = none
feature_by_name (f ∷ features) name =
    if f.name == name then some f else feature_by_name features name

-- What ComputeFeatures can fail with. `out_of_fuel` is the model's own.
pub data FeatureError : Type 0 where
  unknown_wanted : String → FeatureError
  not_found : String → FeatureError
  out_of_fuel : FeatureError

-- The set of enabled names when a walk returns, or its error.
pub data Walk : Type 0 where
  walked : List String → Walk
  failed : FeatureError → Walk

abbrev pub and_then : Walk → (List String → Walk) → Walk
and_then (walked names) next = next names
and_then (failed e) next = failed e

-- RulesDoc.walkRequired. The fuel bounds the depth of the recursion.
unfoldable pub walk_required : ℕ → List FeatureRule → List String → List String → Walk
walk_required zero features required names = failed out_of_fuel
walk_required (suc fuel) features [] names = walked names
walk_required (suc fuel) features (name ∷ required) names = elim (contains names name) [
  | true ↦ walk_required (suc fuel) features required names
  | false ↦ elim (feature_by_name features name) [
    | none ↦ failed (not_found name)
    | some f ↦
        and_then (walk_required fuel features f.requires (name ∷ names))
          (λ names'. walk_required (suc fuel) features required names')
  ]
]

-- The loop of ComputeFeatures over the document's features.
unfoldable pub walk_wanted :
    ℕ → List FeatureRule → List String → List FeatureRule → List String → Walk
walk_wanted fuel features wanted [] names = walked names
walk_wanted fuel features wanted (f ∷ rest) names = elim (contains wanted f.name) [
  | false ↦ walk_wanted fuel features wanted rest names
  | true ↦
      and_then (walk_required fuel features f.requires (f.name ∷ names))
        (λ names'. walk_wanted fuel features wanted rest names')
]

abbrev pub with_skip : Bool → FeatureRule → FeatureRule
with_skip skip f = record f { skip = skip }

-- `f.Skip = skip` for every feature.
unfoldable pub skip_all : Bool → List FeatureRule → List FeatureRule
skip_all skip = map (with_skip skip)

-- `r.FeatureByName(name).Skip = false`; `none` if there is no such feature.
unfoldable pub enable : String → List FeatureRule → Option (List FeatureRule)
enable name [] = none
enable name (f ∷ features) =
    let rest = enable name features in
    if f.name == name
    then some (with_skip false f ∷ features)
    else elim rest [ none ↦ none | some features' ↦ some (f ∷ features') ]

-- The last loop of ComputeFeatures, over the names of the set.
unfoldable pub enable_all : List String → List FeatureRule → Option FeatureError × List FeatureRule
enable_all [] features = (none, features)
enable_all (name ∷ names) features = elim (enable name features) [
  | none ↦ (some (not_found name), features)
  | some features' ↦ enable_all names features'
]

-- The first wanted name that no feature has.
unfoldable pub first_unknown : List FeatureRule → List String → Option String
first_unknown features [] = none
first_unknown features (name ∷ wanted) = elim (feature_by_name features name) [
  | none ↦ some name
  | some f ↦ first_unknown features wanted
]

abbrev pub enable_walked : List FeatureRule → Walk → Option FeatureError × List FeatureRule
enable_walked features (failed e) = (some e, features)
enable_walked features (walked names) = enable_all names features

-- RulesDoc.ComputeFeatures: the error, and the features as it leaves them.
unfoldable pub compute_features :
    List String → List FeatureRule → Option FeatureError × List FeatureRule
compute_features wanted features =
    let skipped = skip_all true features in
    if contains wanted "all"
    then (none, skip_all false features)
    else elim (first_unknown skipped wanted) [
      | some name ↦ (some (unknown_wanted name), skipped)
      | none ↦ enable_walked skipped (walk_wanted (suc (length features)) skipped wanted skipped [])
    ]

-- FeatureRule.FindScopesByMatch
unfoldable pub find_scopes_by_match : ScopeType → List ScopeRule → List ScopeRule
find_scopes_by_match match [] = []
find_scopes_by_match match (scope ∷ scopes) =
    let rest = find_scopes_by_match match scopes in
    if scope.match == match then scope ∷ rest else rest

-- The loop of RulesDoc.FeatureNamesMap: a later feature overwrites an earlier one of its name.
unfoldable pub feature_names_onto : List FeatureRule → Dict Bool → Dict Bool
feature_names_onto [] m = m
feature_names_onto (f ∷ features) m = feature_names_onto features (insert f.name (not f.skip) m)

-- RulesDoc.FeatureNamesMap
unfoldable pub feature_names_map : List FeatureRule → Dict Bool
unfolding feature_names_onto
feature_names_map features = feature_names_onto features []
