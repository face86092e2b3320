-- ===== src/Gen/Generator/Disk.antt =====
-- What ProcessRules does to the disk, and to the list of touched files.
use apigear_cli.Base.{
  ◌≡◌, refl, ◌∙◌, ap, ◌⊎◌, inl, inr, ◌+◌, String, Bool, true, false, Option, none, some, List, [],
  ◌∷◌, arith, if◌then◌else◌, Bool-cases, Option-cases,
}
use apigear_cli.Base.Lists.{length, length-append}
use apigear_cli.Base.Loop.{All-always}
use apigear_cli.Base.Dict.{Dict}
use apigear_cli.Model.Data.{System}
use apigear_cli.Spec.Rules.{
  DocumentRule, FeatureRule, FeatureError, compute_features, feature_names_map,
}
use apigear_cli.Spec.Rules.Checks.{rules_validate}
use apigear_cli.Gen.State.{Options, World, Scope, Generator, no_stats, skip_file}
use apigear_cli.Gen.Generator.{
  with_target, join, copy_file, write_to_output, write_compared, write_file, write_failed,
  write_rendered, render_file, process_target, process_document, failed_with, process_computed,
  process_with, process_rules,
}
use apigear_cli.Gen.Generator.Work.{process_features-keeps}

module _ {Meta Bytes Disk : Type 0} (w : World Meta Bytes Disk) (opts : Options Meta) where
  -- A relation that the three changes of the state by a document keep, processDocument keeps.
  module _ (R : Generator Disk → Generator Disk → Type 0) (same : (g : Generator Disk) → R g g)
      (copies : (source target : String) (g : Generator Disk)
        → R g (copy_file w opts source target g).1)
      (writes : (input : Bytes) (target : String) (preserve : Bool) (g : Generator Disk)
        → R g (write_file w opts input target preserve g).1) where
    render_file-keeps :
        (source target : String) (ctx : Scope Meta) (preserve : Bool) (g : Generator Disk)
        → R g (render_file w opts source target ctx preserve g).1
    unfolding render_file
    render_file-keeps source target ctx preserve g = rendered (w.execute source ctx)
      where
        failed :
            (r : Option String × Generator Disk) → R g r.1 → R g (write_failed w opts target r).1
        failed (none, g') kept = kept
        failed (some e, g') kept = kept

        rendered : (r : String ⊎ Bytes) → R g (write_rendered w opts source target preserve g r).1
        rendered (inl e) = same g
        rendered (inr bytes) = failed _ (writes bytes target preserve g)

    pub process_document-keeps :
        (doc : DocumentRule) (ctx : Scope Meta) (g : Generator Disk)
        → R g (process_document w opts doc ctx g).1
    unfolding process_document
    process_document-keeps doc ctx g = targeted (w.render_string (w.clean doc.target) ctx)
      where
        chosen :
            (b : Bool) (r s : Option String × Generator Disk)
            → R g r.1
            → R g s.1
            → R g (if b then r else s).1
        chosen true r s p q = p
        chosen false r s p q = q

        targeted : (t : String ⊎ String) → R g (process_target w opts doc ctx g t).1
        targeted (inl e) = same g
        targeted (inr target) =
            chosen doc.raw _ _ (copies (w.clean doc.source) target g)
              (render_file-keeps (w.clean doc.source) target ctx doc.preserve g)

    module _ (chain : (a b c : Generator Disk) → R a b → R b c → R a c)
        (computes : (m : Dict Bool) (g : Generator Disk)
          → R g (record g { computed_features = m })) where
      processed :
          (sys : System) (r : Option FeatureError × List FeatureRule) (g : Generator Disk)
          → R g (process_computed w opts sys r g).2
      processed sys (some e, features) g = same g
      processed sys (none, features) g = chain _ _ _ (computes (feature_names_map features) g) (
          done _ _ (
            process_features-keeps w opts sys R same chain (λ _. Unit {0})
              (λ prefix doc ctx g p. process_document-keeps (with_target w opts prefix doc) ctx g)
              features
              (All-always _ (λ f. All-always _ (λ s. All-always _ (λ d. tt) s.documents) f.scopes)
                features)
              _))
        where
          done :
              (g : Generator Disk) (r : Option String × Generator Disk)
              → R g r.1
              → R g (failed_with w opts r).1
          done g (none, g') kept = kept
          done g (some e, g') kept = kept

      -- So does ProcessRules, from the state in which it has reset the statistics.
      pub process_rules-keeps :
          (features : List FeatureRule) (g : Generator Disk)
          → rules_validate features ≡ none
          → R (record g { stats = no_stats }) (process_rules w opts features g).2
      unfolding process_rules
      process_rules-keeps features g valid =
          rw valid (with_system opts.system (record g { stats = no_stats }))
        where
          with_system :
              (sys : Option System) (g : Generator Disk)
              → R g (process_with w opts sys features g).2
          with_system none g = same g
          with_system (some sys) g = processed sys (compute_features opts.features features) g

  -- WriteFile writes the target, or it only counts a skipped file, or it fails.
  write_file-cases :
      (R : Generator Disk → Generator Disk → Type 0)
      → ((g : Generator Disk) → R g (skip_file g))
      → ((g : Generator Disk) → R g g)
      → ((input : Bytes) (target : String) (g : Generator Disk)
          → R g (write_to_output w opts input target g).1)
      → (input : Bytes) (target : String) (preserve : Bool) (g : Generator Disk)
      → R g (write_file w opts input target preserve g).1
  unfolding write_file
  write_file-cases R skips same writes input path preserve g = elim (Bool-cases opts.force) [
    | inl e ↦ rw e (writes input target g)
    | inr e ↦ rw e (elim (Bool-cases (w.is_file target g.disk)) [
      | inr f ↦ rw f (writes input target g)
      | inl f ↦ rw f (elim (Bool-cases preserve) [
        | inl p ↦ rw p (skips g)
        | inr p ↦ rw p (compared (w.output.compare input target g.disk))
      ])
    ])
  ]
    where
      target : String
      target = join w opts opts.output_dir path

      compared : (r : String ⊎ Bool) → R g (write_compared w opts input target g r).1
      compared (inl e) = same g
      compared (inr true) = skips g
      compared (inr false) = writes input target g

  process_rules-invalid :
      (features : List FeatureRule) (g : Generator Disk) {e : String}
      → rules_validate features ≡ some e
      → (process_rules w opts features g).2 ≡ g
  unfolding process_rules
  process_rules-invalid features g invalid = rw invalid refl

  write_to_output-dry :
      opts.dry_run ≡ true
      → (input : Bytes) (target : String) (g : Generator Disk)
      → (write_to_output w opts input target g).1.disk ≡ g.disk
  unfolding write_to_output
  write_to_output-dry dry input target g = rw dry refl

  write_file-dry :
      opts.dry_run ≡ true
      → (input : Bytes) (target : String) (preserve : Bool) (g : Generator Disk)
      → (write_file w opts input target preserve g).1.disk ≡ g.disk
  write_file-dry dry =
      write_file-cases (λ a b. b.disk ≡ a.disk) (λ g. refl) (λ g. refl) (write_to_output-dry dry)

  -- A dry run leaves the disk as it is, whatever the rules and however it ends.
  pub process_rules-dry_run :
      opts.dry_run ≡ true
      → (features : List FeatureRule) (g : Generator Disk)
      → (process_rules w opts features g).2.disk ≡ g.disk
  process_rules-dry_run dry features g = elim (Option-cases (rules_validate features)) [
    | inr (e, invalid) ↦
        ap (λ (g : Generator Disk). g.disk) (process_rules-invalid features g invalid)
    | inl valid ↦
        process_rules-keeps (λ a b. b.disk ≡ a.disk) (λ a. refl)
          (λ source target a. unfold copy_file in ground arith) (write_file-dry dry)
          (λ a b c p q. q ∙ p) (λ m a. refl) features g valid
  ]

  -- The files that the list of touched files has.
  abbrev Touched : Generator Disk → Type 0
  Touched g = length g.stats.files_touched ≡ (
      if opts.dry_run then g.stats.files_written + g.stats.files_copied else g.stats.files_written)

  copy_file-Touched :
      (source target : String) (g : Generator Disk)
      → Touched g
      → Touched (copy_file w opts source target g).1
  unfolding copy_file
  copy_file-Touched source target g h = elim (Bool-cases opts.dry_run) [
    | inl e ↦
        rw e
          (let n = length-append g.stats.files_touched (target ∷ []) in omega (arith, n, rw e at h))
    | inr e ↦ rw e (rw e at h)
  ]

  write_to_output-Touched :
      (input : Bytes) (target : String) (g : Generator Disk)
      → Touched g
      → Touched (write_to_output w opts input target g).1
  unfolding write_to_output
  write_to_output-Touched input target g h = elim (Bool-cases opts.dry_run) [
    | inl e ↦
        rw e
          (let n = length-append g.stats.files_touched (target ∷ []) in omega (arith, n, rw e at h))
    | inr e ↦
        rw e
          (let n = length-append g.stats.files_touched (target ∷ []) in omega (arith, n, rw e at h))
  ]

  -- After the rules of a valid document, however they end, FilesTouched has as many entries as files
  -- were written, and in a dry run, but only then, also one for each file copied.
  pub process_rules-Touched :
      (features : List FeatureRule) (g : Generator Disk)
      → rules_validate features ≡ none
      → length (process_rules w opts features g).2.stats.files_touched ≡ (
          if opts.dry_run
          then (process_rules w opts features g).2.stats.files_written
            + (process_rules w opts features g).2.stats.files_copied
          else (process_rules w opts features g).2.stats.files_written)
  process_rules-Touched features g valid =
      process_rules-keeps (λ a b. Touched a → Touched b) (λ a h. h) copy_file-Touched
        (write_file-cases (λ a b. Touched a → Touched b) (λ g h. h) (λ g h. h)
          write_to_output-Touched)
        (λ a b c p q h. q (p h)) (λ m a h. h) features g valid (ground arith)
