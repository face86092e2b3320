-- ===== src/Spec/Solution.antt =====
-- The solution document and its targets: pkg/spec/soldoc.go and soltarget.go. Meta and the imported
-- documents are left out. A slice that is nil is `none` where the code tests for it. What the file system, the
-- cache of templates and the schema checks of pkg/spec/check.go answer is a World, which is the same
-- throughout, with a template that is to be installed counted as installed.
pub mod Valid
pub mod Again
use apigear_cli.Base.{
  String, ◌<>◌, Bool, true, false, not, Option, none, some, List, [], ◌∷◌, ◌++◌, ◌⊎◌, inl, inr,
  ◌==◌, if◌then◌else◌,
}
use apigear_cli.Base.Loop.{each, concat_map}

pub record World : Type 0 where
  -- helper.Join
  pub join : String → String → String
  -- helper.IsDir
  pub is_dir : String → Bool
  -- helper.IsFile
  pub is_file : String → Bool
  -- helper.ExpandInputs, from the root directory; an error or the files.
  pub expand_inputs : String → List String → String ⊎ List String
  -- CheckFile; an error, or whether the file is valid.
  pub check_file : String → String ⊎ Bool
  -- repos.GetOrInstallTemplateFromRepoID; an error or the id.
  pub install_template : String → String ⊎ String
  -- repos.Cache.GetTemplateDir; an error or the directory.
  pub template_dir_of : String → String ⊎ String

-- SolutionTarget. A nil slice of inputs, dependencies or expanded inputs is empty.
pub record SolutionTarget : Type 0 where
  pub name : String
  pub description : String
  pub inputs : List String
  pub output : String
  pub template : String
  pub features : Option (List String)
  pub force : Bool
  pub computed : Bool
  pub expanded_inputs : List String
  pub dependencies : List String
  pub template_dir : String
  pub templates_dir : String
  pub rules_file : String

-- SolutionDoc
pub record SolutionDoc : Type 0 where
  pub version : String
  pub name : String
  pub description : String
  pub root_dir : String
  pub layers : List SolutionTarget
  pub targets : List SolutionTarget
  pub computed : Bool

abbrev pub features_or_all : Option (List String) → Option (List String)
features_or_all none = some ("all" ∷ [])
features_or_all (some features) = some features

abbrev unless_empty : String → List String
unless_empty s = if s == "" then [] else s ∷ []

abbrev pub recorded : SolutionTarget → List String → SolutionTarget
recorded l [] = record l {
  dependencies = unless_empty l.templates_dir ++ (unless_empty l.rules_file ++ l.expanded_inputs);
}
recorded l (d ∷ ds) = l

-- The dependencies, if none are recorded.
unfoldable pub record_dependencies : SolutionTarget → SolutionTarget
record_dependencies l = recorded l l.dependencies

abbrev pub after_expand : Option String × SolutionTarget → Option String × SolutionTarget
after_expand (some err, l) = (some err, l)
after_expand (none, l) =
    (none, record l { dependencies = l.dependencies ++ l.expanded_inputs; computed = true })

-- SolutionDoc.compute
unfoldable pub doc_compute : SolutionDoc → SolutionDoc
doc_compute s =
    if s.computed
    then s
    else record s { targets = s.targets ++ s.layers; layers = []; computed = true }

abbrev pub target_error : SolutionTarget → String → Option String
target_error l what = some ("target " <> (l.name <> (": " <> what)))

module _ (w : World) where
  -- SolutionTarget.GetOutputDir
  abbrev pub get_output_dir : String → SolutionTarget → String
  get_output_dir root_dir l = w.join root_dir l.output

  abbrev pub located : String → SolutionTarget → SolutionTarget
  located tpl_dir l = record l {
    template_dir = tpl_dir;
    templates_dir = w.join tpl_dir "templates";
    rules_file = w.join tpl_dir "rules.yaml";
  }

  abbrev pub from_cache : String → SolutionTarget → String ⊎ String → Option String × SolutionTarget
  from_cache repo_id l (inl err) = (some err, l)
  from_cache repo_id l (inr tpl_dir) = (none, located tpl_dir (record l { template = repo_id }))

  abbrev pub installed : SolutionTarget → String ⊎ String → Option String × SolutionTarget
  installed l (inl err) = (some err, l)
  installed l (inr repo_id) = from_cache repo_id l (w.template_dir_of repo_id)

  -- The first step of SolutionTarget.compute.
  unfoldable pub locate : SolutionDoc → SolutionTarget → Option String × SolutionTarget
  locate doc l =
      let tpl_dir = w.join doc.root_dir l.template in
      if w.is_dir tpl_dir
      then (none, located tpl_dir l)
      else installed l (w.install_template l.template)

  abbrev pub expanded : SolutionTarget → String ⊎ List String → Option String × SolutionTarget
  expanded l (inl err) = (some err, l)
  expanded l (inr files) = (none, record l { expanded_inputs = files })

  abbrev pub expand_from :
      SolutionDoc → SolutionTarget → List String → Option String × SolutionTarget
  expand_from doc l [] = expanded l (w.expand_inputs doc.root_dir l.inputs)
  expand_from doc l (i ∷ is) = (none, l)

  -- The expanded inputs, if there are none.
  unfoldable pub expand : SolutionDoc → SolutionTarget → Option String × SolutionTarget
  expand doc l = expand_from doc l l.expanded_inputs

  abbrev pub after_locate :
      SolutionDoc → Option String × SolutionTarget → Option String × SolutionTarget
  after_locate doc (some err, l) = (some err, l)
  after_locate doc (none, l) = after_expand (expand doc (record_dependencies l))

  -- SolutionTarget.compute
  unfoldable pub target_compute : SolutionDoc → SolutionTarget → Option String × SolutionTarget
  unfolding locate
  target_compute doc l = if l.computed then (none, l) else after_locate doc (locate doc l)

  abbrev pub checked : SolutionTarget → String → String ⊎ Bool → Option String → Option String
  checked l input (inl err) rest = some err
  checked l input (inr valid) rest =
      if valid then rest else some ("target " <> (l.name <> (": invalid file: " <> input)))

  -- The loop of SolutionTarget.Validate over the expanded inputs.
  unfoldable pub check_inputs : SolutionTarget → List String → Option String
  check_inputs l [] = none
  check_inputs l (input ∷ inputs) = checked l input (w.check_file input) (check_inputs l inputs)

  -- SolutionTarget.Validate after compute.
  unfoldable pub extended_validate : SolutionTarget → Option String
  unfolding check_inputs
  extended_validate l =
      if not (w.is_dir l.template_dir)
      then target_error l ("template dir not found: " <> l.template_dir)
      else if not (w.is_dir l.templates_dir)
      then target_error l ("templates dir not found: " <> l.templates_dir)
      else if not (w.is_file l.rules_file)
      then target_error l ("rules file not found: " <> l.rules_file)
      else check_inputs l l.expanded_inputs

  abbrev pub after_compute : Option String × SolutionTarget → Option String × SolutionTarget
  after_compute (some err, l) = (some err, l)
  after_compute (none, l) = (extended_validate l, l)

  -- SolutionTarget.Validate
  unfoldable pub target_validate : SolutionDoc → SolutionTarget → Option String × SolutionTarget
  unfolding target_compute extended_validate
  target_validate doc l =
      if l.output == ""
      then (target_error l "output is required", l)
      else if l.template == ""
      then (target_error l "template is required", l)
      else after_compute (target_compute doc (record l { features = features_or_all l.features }))

  abbrev pub validate_one :
      SolutionDoc → SolutionTarget → Unit {0} → Option String × SolutionTarget × Unit {0}
  validate_one doc l s = ((target_validate doc l).0, (target_validate doc l).1, s)

  -- The loop of SolutionDoc.Validate over the targets.
  unfoldable pub validate_targets :
      SolutionDoc → List SolutionTarget → Option String × List SolutionTarget × Unit {0}
  validate_targets doc ls = each (validate_one doc) ls tt

  abbrev pub with_targets :
      SolutionDoc → Option String × List SolutionTarget × Unit {0} → Option String × SolutionDoc
  with_targets s (err, targets, unit) = (err, record s { targets = targets })

  -- SolutionDoc.Validate
  unfoldable pub solution_validate : SolutionDoc → Option String × SolutionDoc
  unfolding doc_compute
  solution_validate s =
      with_targets (doc_compute s) (validate_targets (doc_compute s) (doc_compute s).targets)

-- SolutionDoc.AggregateDependencies, with SolutionTarget.Dependencies
unfoldable pub aggregate_dependencies : SolutionDoc → List String
aggregate_dependencies s = concat_map (λ l. l.dependencies) s.targets
