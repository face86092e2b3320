-- ===== src/Gen/Generator.antt =====
-- pkg/gen/generator.go: the operations of the generator. The state is the statistics, the computed
-- features and the disk. The templates (text/template), filepath, the test for a file and the output
-- writer are the fields of `World`. Log lines are not modelled.
pub mod Work
pub mod Disk
pub mod Counts
pub mod Twice
use apigear_cli.Base.{
  ℕ, suc, ◌+◌, String, Bool, true, false, Option, none, some, List, [], ◌∷◌, ◌++◌, ◌⊎◌, inl, inr,
  ◌==◌, ◌<>◌, if◌then◌else◌,
}
use apigear_cli.Base.Dict.{Dict}
use apigear_cli.Base.Loop.{then_do, do_all}
use apigear_cli.Model.Data.{Interface, Struct, Enum, Module, System}
use apigear_cli.Spec.Rules.{
  DocumentRule, ScopeRule, FeatureRule, FeatureError, scope_system, scope_module, scope_interface,
  scope_struct, scope_enum, find_scopes_by_match, compute_features, feature_names_map,
}
use apigear_cli.Spec.Rules.Checks.{rules_validate}
use apigear_cli.Gen.State.{
  GenError, Generator, GeneratorStats, Options, OutputWriter, Scope, Subject, World, count_copied,
  count_written, features_failed, message, new, no_stats, on_disk, skip_file, the_enum,
  the_interface, the_module, the_struct, the_system, total_files, touch, with_features,
}

module _ {Meta Bytes Disk : Type 0} (w : World Meta Bytes Disk) (opts : Options Meta) where
  -- helper.Join, of two paths
  abbrev pub join : String → String → String
  join dir path = if w.is_abs path then path else w.join_paths dir path

  -- generator.CopyFile
  unfoldable pub copy_file : String → String → Generator Disk → Option String × Generator Disk
  copy_file source target g =
      let g' = count_copied g in
      if opts.dry_run
      then (none, touch target g')
      else on_disk (w.output.copy (join opts.templates_dir source) (join opts.output_dir target)) g'

  -- generator.WriteToOutput
  unfoldable pub write_to_output : Bytes → String → Generator Disk → Option String × Generator Disk
  write_to_output input target g =
      let g' = count_written (touch target g) in
      if opts.dry_run then (none, g') else on_disk (w.output.write input target) g'

  -- The end of WriteFile, for a target that is a file.
  abbrev pub write_compared :
      Bytes → String → Generator Disk → String ⊎ Bool → Option String × Generator Disk
  write_compared input target g (inl e) = (some e, g)
  write_compared input target g (inr true) = (none, skip_file g)
  write_compared input target g (inr false) = write_to_output input target g

  -- generator.WriteFile
  unfoldable pub write_file :
      Bytes → String → Bool → Generator Disk → Option String × Generator Disk
  unfolding write_to_output
  write_file input path preserve g =
      let target = join opts.output_dir path in
      if opts.force
      then write_to_output input target g
      else if w.is_file target g.disk
      then if preserve
        then (none, skip_file g)
        else write_compared input target g (w.output.compare input target g.disk)
      else write_to_output input target g

  abbrev pub render_failed : String → String → String
  render_failed source e = "render template " <> source <> ": " <> e

  abbrev pub write_failed : String → Option String × Generator Disk → Option String × Generator Disk
  write_failed target (none, g) = (none, g)
  write_failed target (some e, g) = (some ("write file " <> target <> ": " <> e), g)

  abbrev pub write_rendered :
      String → String → Bool → Generator Disk → String ⊎ Bytes → Option String × Generator Disk
  write_rendered source target preserve g (inl e) = (some (render_failed source e), g)
  write_rendered source target preserve g (inr bytes) =
      write_failed target (write_file bytes target preserve g)

  -- generator.RenderFile
  unfoldable pub render_file :
      String → String → Scope Meta → Bool → Generator Disk → Option String × Generator Disk
  unfolding write_file
  render_file source target ctx preserve g =
      write_rendered source target preserve g (w.execute source ctx)

  -- The rest of processDocument, with the rendered name of the target.
  abbrev pub process_target :
      DocumentRule → Scope Meta → Generator Disk → String ⊎ String → Option String × Generator Disk
  process_target doc ctx g (inl e) =
      (some ("render rules target " <> w.clean doc.target <> ": " <> e), g)
  process_target doc ctx g (inr target) =
      if doc.raw
      then copy_file (w.clean doc.source) target g
      else render_file (w.clean doc.source) target ctx doc.preserve g

  -- generator.processDocument
  unfoldable pub process_document :
      DocumentRule → Scope Meta → Generator Disk → Option String × Generator Disk
  unfolding copy_file render_file
  process_document doc ctx g = process_target doc ctx g (w.render_string (w.clean doc.target) ctx)

  -- The target that processScope gives to its copy of a document.
  abbrev pub with_target : String → DocumentRule → DocumentRule
  with_target prefix doc =
      let target = if doc.target == "" then doc.source else doc.target in
      record doc { target = if prefix == "" then target else prefix <> target }

  -- generator.processScope
  unfoldable pub process_scope :
      Scope Meta → ScopeRule → Generator Disk → Option String × Generator Disk
  unfolding process_document
  process_scope ctx scope g =
      do_all (λ doc. process_document (with_target scope.prefix doc) ctx) scope.documents g

  module _ (sys : System) where
    abbrev pub scope_of : Subject → Generator Disk → Scope Meta
    scope_of subject g = record {
      system = sys;
      subject = subject;
      features = g.computed_features;
      meta = opts.meta;
    }

    -- The scopes of a feature that match, for one subject.
    unfoldable pub process_subject :
        String → FeatureRule → Subject → Generator Disk → Option String × Generator Disk
    unfolding process_scope
    process_subject match f subject g =
        do_all (process_scope (scope_of subject g)) (find_scopes_by_match match f.scopes) g

    -- The body of processFeature's loop over the modules.
    unfoldable pub process_module :
        FeatureRule → Module → Generator Disk → Option String × Generator Disk
    unfolding process_subject
    process_module f m g =
        then_do
          (λ g.
            then_do
              (λ g.
                then_do (do_all (λ e. process_subject scope_enum f (the_enum m e)) m.enums)
                  (do_all (λ s. process_subject scope_struct f (the_struct m s)) m.structs g))
              (do_all (λ i. process_subject scope_interface f (the_interface m i)) m.interfaces g))
          (process_subject scope_module f (the_module m) g)

    -- generator.processFeature
    unfoldable pub process_feature : FeatureRule → Generator Disk → Option String × Generator Disk
    unfolding process_module
    process_feature f g =
        then_do (do_all (process_module f) sys.modules)
          (process_subject scope_system f the_system g)

    -- The last loop of ProcessRules.
    unfoldable pub process_features :
        List FeatureRule → Generator Disk → Option String × Generator Disk
    unfolding process_feature
    process_features = do_all (λ f g. if f.skip then (none, g) else process_feature f g)

  abbrev pub failed_with : Option String × Generator Disk → Option GenError × Generator Disk
  failed_with (none, g) = (none, g)
  failed_with (some e, g) = (some (message e), g)

  abbrev pub process_computed :
      System
      → Option FeatureError × List FeatureRule
      → Generator Disk
      → Option GenError × List FeatureRule × Generator Disk
  process_computed sys (some e, features) g = (some (features_failed e), features, g)
  process_computed sys (none, features) g =
      let g' = record g { computed_features = feature_names_map features } in
      let (e, done) = failed_with (process_features sys features g') in (e, features, done)

  abbrev pub process_with :
      Option System
      → List FeatureRule
      → Generator Disk
      → Option GenError × List FeatureRule × Generator Disk
  process_with none features g = (some (message "system is nil"), features, g)
  process_with (some sys) features g =
      process_computed sys (compute_features opts.features features) g

  abbrev pub process_valid :
      List FeatureRule
      → Option String
      → Generator Disk
      → Option GenError × List FeatureRule × Generator Disk
  process_valid features (some e) g = (some (message e), features, g)
  process_valid features none g =
      let g' = record g { stats = no_stats } in process_with opts.system features g'

  -- generator.ProcessRules, for the features of a document: the error, the features as it leaves
  -- them, and the generator.
  unfoldable pub process_rules :
      List FeatureRule → Generator Disk → Option GenError × List FeatureRule × Generator Disk
  unfolding process_features rules_validate compute_features feature_names_map
  process_rules features g = process_valid features (rules_validate features) g
