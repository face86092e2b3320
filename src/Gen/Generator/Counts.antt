-- ===== src/Gen/Generator/Counts.antt =====
-- How many files ProcessRules counts.
use apigear_cli.Base.{
  ◌≡◌, refl, ◌∙◌, inl, inr, ℕ, ◌+◌, [], ◌∷◌, String, Bool, true, false, Option, none, some, List,
  ◌⊎◌, arith, if◌then◌else◌, Bool-cases,
}
use apigear_cli.Base.Lists.{length, sum}
use apigear_cli.Base.Loop.{then_do, do_all, Adds, then_do-Adds, do_all-Adds}
use apigear_cli.Model.Data.{Module, System}
use apigear_cli.Spec.Rules.{
  DocumentRule, ScopeRule, FeatureRule, FeatureError, scope_system, scope_module, scope_interface,
  scope_struct, scope_enum, find_scopes_by_match, compute_features, feature_names_map,
}
use apigear_cli.Spec.Rules.Checks.{rules_validate}
use apigear_cli.Gen.State.{
  Options, World, Scope, Generator, Subject, the_system, the_module, the_interface, the_struct,
  the_enum, total_files, no_stats,
}
use apigear_cli.Gen.Generator.{
  with_target, copy_file, write_to_output, write_compared, write_file, write_failed, write_rendered,
  render_file, process_target, process_document, process_scope, process_subject, process_module,
  process_feature, process_features, failed_with, process_computed, process_with, process_valid,
  process_rules, join,
}

-- The documents of a feature's scopes of one kind.
abbrev pub matching_documents : String → FeatureRule → ℕ
matching_documents match f =
    sum (λ (s : ScopeRule). length s.documents) (find_scopes_by_match match f.scopes)

-- One file for each document of a module scope and each module, and so on.
abbrev pub module_documents : FeatureRule → Module → ℕ
module_documents f m =
    matching_documents scope_module f
    + (sum (λ i. matching_documents scope_interface f) m.interfaces
        + (sum (λ s. matching_documents scope_struct f) m.structs
            + sum (λ e. matching_documents scope_enum f) m.enums))

abbrev pub feature_documents : System → FeatureRule → ℕ
feature_documents sys f = matching_documents scope_system f + sum (module_documents f) sys.modules

-- Of the features that are not skipped.
abbrev pub enabled_documents : System → List FeatureRule → ℕ
enabled_documents sys = sum (λ f. if f.skip then 0 else feature_documents sys f)

module _ {Meta Bytes Disk : Type 0} (w : World Meta Bytes Disk) (opts : Options Meta) where
  abbrev total : Generator Disk → ℕ
  total g = total_files g.stats

  copy_file-Adds :
      (source target : String) (g : Generator Disk)
      → Adds total 1 g (copy_file w opts source target g)
  unfolding copy_file
  copy_file-Adds source target g ok = elim (Bool-cases opts.dry_run) [
    | inl e ↦ rw e (omega arith)
    | inr e ↦ rw e (omega arith)
  ]

  write_to_output-Adds :
      (input : Bytes) (target : String) (g : Generator Disk)
      → Adds total 1 g (write_to_output w opts input target g)
  unfolding write_to_output
  write_to_output-Adds input target g ok = elim (Bool-cases opts.dry_run) [
    | inl e ↦ rw e (omega arith)
    | inr e ↦ rw e (omega arith)
  ]

  if-Adds :
      (b : Bool) (n : ℕ) (g : Generator Disk) (r s : Option String × Generator Disk)
      → Adds total n g r
      → Adds total n g s
      → Adds total n g (if b then r else s)
  if-Adds true n g r s p q = p
  if-Adds false n g r s p q = q

  write_compared-Adds :
      (input : Bytes) (target : String) (g : Generator Disk) (r : String ⊎ Bool)
      → Adds total 1 g (write_compared w opts input target g r)
  write_compared-Adds input target g (inl e) ok = absurd (cc ok)
  write_compared-Adds input target g (inr true) ok = omega arith
  write_compared-Adds input target g (inr false) ok = write_to_output-Adds input target g ok

  write_file-Adds :
      (input : Bytes) (path : String) (preserve : Bool) (g : Generator Disk)
      → Adds total 1 g (write_file w opts input path preserve g)
  unfolding write_file
  write_file-Adds input path preserve g =
      let target = join w opts opts.output_dir path in
      let writes = write_to_output-Adds input target g in
      if-Adds opts.force 1 g _ _ writes (
        if-Adds (w.is_file target g.disk) 1 g _ _
          (if-Adds preserve 1 g _ _ (λ ok. omega arith)
            (write_compared-Adds input target g (w.output.compare input target g.disk)))
          writes)

  write_failed-Adds :
      (target : String) (g : Generator Disk) (r : Option String × Generator Disk)
      → Adds total 1 g r
      → Adds total 1 g (write_failed w opts target r)
  write_failed-Adds target g (none, g') adds ok = adds refl
  write_failed-Adds target g (some e, g') adds ok = absurd (cc ok)

  write_rendered-Adds :
      (source target : String) (preserve : Bool) (g : Generator Disk) (r : String ⊎ Bytes)
      → Adds total 1 g (write_rendered w opts source target preserve g r)
  write_rendered-Adds source target preserve g (inl e) = λ ok. absurd (cc ok)
  write_rendered-Adds source target preserve g (inr bytes) =
      write_failed-Adds target g _ (write_file-Adds bytes target preserve g)

  process_target-Adds :
      (doc : DocumentRule) (ctx : Scope Meta) (g : Generator Disk) (t : String ⊎ String)
      → Adds total 1 g (process_target w opts doc ctx g t)
  unfolding render_file
  process_target-Adds doc ctx g (inl e) = λ ok. absurd (cc ok)
  process_target-Adds doc ctx g (inr target) =
      if-Adds doc.raw 1 g _ _ (copy_file-Adds (w.clean doc.source) target g) (
        write_rendered-Adds (w.clean doc.source) target doc.preserve g
          (w.execute (w.clean doc.source) ctx))

  sum_one : {A : Type 0} (xs : List A) → sum (λ x. 1) xs ≡ length xs
  unfolding sum
  sum_one [] = refl
  sum_one (x ∷ xs) = omega (arith, sum_one xs)

  process_scope-Adds :
      (ctx : Scope Meta) (s : ScopeRule) (g : Generator Disk)
      → Adds total (length s.documents) g (process_scope w opts ctx s g)
  unfolding process_scope process_document
  process_scope-Adds ctx s g ok =
      let step =
        do_all-Adds total (λ doc. process_document w opts (with_target w opts s.prefix doc) ctx)
          (λ doc. 1) (λ doc g. process_target-Adds (with_target w opts s.prefix doc) ctx g _)
          s.documents g ok in
      omega (arith, step, sum_one s.documents)

  module _ (sys : System) where
    process_subject-Adds :
        (match : String) (f : FeatureRule) (subject : Subject) (g : Generator Disk)
        → Adds total (matching_documents match f) g (process_subject w opts sys match f subject g)
    unfolding process_subject
    process_subject-Adds match f subject g =
        do_all-Adds total _ _ (λ s g. process_scope-Adds _ s g)
          (find_scopes_by_match match f.scopes) g

    process_module-Adds :
        (f : FeatureRule) (m : Module) (g : Generator Disk)
        → Adds total (module_documents f m) g (process_module w opts sys f m g)
    unfolding process_module
    process_module-Adds f m g =
        let at = process_subject w opts sys in
        let enums = do_all (λ e. at scope_enum f (the_enum m e)) m.enums in
        let structs = do_all (λ s. at scope_struct f (the_struct m s)) m.structs in
        let interfaces = do_all (λ i. at scope_interface f (the_interface m i)) m.interfaces in
        then_do-Adds total g _ _ (λ g. then_do (λ g. then_do enums (structs g)) (interfaces g))
          (at scope_module f (the_module m) g)
          (process_subject-Adds scope_module f (the_module m) g)
          (λ g.
            then_do-Adds total g _ _ (λ g. then_do enums (structs g)) (interfaces g)
              (do_all-Adds total _ _
                (λ i. process_subject-Adds scope_interface f (the_interface m i)) m.interfaces g)
              (λ g.
                then_do-Adds total g _ _ enums (structs g)
                  (do_all-Adds total _ _ (λ s. process_subject-Adds scope_struct f (the_struct m s))
                    m.structs g)
                  (do_all-Adds total _ _ (λ e. process_subject-Adds scope_enum f (the_enum m e))
                    m.enums)))

    process_feature-Adds :
        (f : FeatureRule) (g : Generator Disk)
        → Adds total (feature_documents sys f) g (process_feature w opts sys f g)
    unfolding process_feature
    process_feature-Adds f g =
        then_do-Adds total g _ _ (do_all (process_module w opts sys f) sys.modules)
          (process_subject w opts sys scope_system f the_system g)
          (process_subject-Adds scope_system f the_system g)
          (do_all-Adds total _ _ (process_module-Adds f) sys.modules)

    unless-Adds :
        (skip : Bool) (n : ℕ) (g : Generator Disk) (r : Option String × Generator Disk)
        → Adds total n g r
        → Adds total (if skip then 0 else n) g (if skip then (none, g) else r)
    unless-Adds true n g r adds ok = omega arith
    unless-Adds false n g r adds ok = adds ok

    process_features-Adds :
        (fs : List FeatureRule) (g : Generator Disk)
        → Adds total (enabled_documents sys fs) g (process_features w opts sys fs g)
    unfolding process_features
    process_features-Adds fs g =
        do_all-Adds total _ _
          (λ f g.
            unless-Adds f.skip _ g (process_feature w opts sys f g) (process_feature-Adds f g))
          fs g

    failed_with-Adds :
        (n : ℕ) (g : Generator Disk) (r : Option String × Generator Disk)
        → Adds total n g r
        → (failed_with w opts r).0 ≡ none
        → total (failed_with w opts r).1 ≡ total g + n
    failed_with-Adds n g (none, g') adds ok = adds refl
    failed_with-Adds n g (some e, g') adds ok = absurd (cc ok)

    computed_counts :
        (r : Option FeatureError × List FeatureRule) (g : Generator Disk)
        → (process_computed w opts sys r g).0 ≡ none
        → total (process_computed w opts sys r g).2
          ≡ total g + enabled_documents sys (process_computed w opts sys r g).1
    computed_counts (some e, features) g ok = absurd (cc ok)
    computed_counts (none, features) g ok =
        let g' = record g { computed_features = feature_names_map features } in
        failed_with-Adds (enabled_documents sys features) g'
          (process_features w opts sys features g') (process_features-Adds features g') ok

  -- When ProcessRules succeeds, TotalFiles is the number of documents of the features that it leaves
  -- enabled, each counted once for the system, or once for each module, interface, struct or enum,
  -- as its scope says; no document is left out, and none is counted twice.
  pub process_rules-total_files :
      (sys : System)
      → opts.system ≡ some sys
      → (features : List FeatureRule) (g : Generator Disk)
      → (process_rules w opts features g).0 ≡ none
      → total_files (process_rules w opts features g).2.stats
        ≡ enabled_documents sys (process_rules w opts features g).1
  unfolding process_rules
  process_rules-total_files sys here features g = from (rules_validate features)
    where
      with_system :
          (o : Option System)
          → o ≡ some sys
          → (process_with w opts o features (record g { stats = no_stats })).0 ≡ none
          → total (process_with w opts o features (record g { stats = no_stats })).2
            ≡ enabled_documents sys
                (process_with w opts o features (record g { stats = no_stats })).1
      with_system none there ok = absurd (cc there)
      with_system (some s) there ok =
          let e : s ≡ sys = ground arith in
          rw (← e) (computed_counts s (compute_features opts.features features) _ ok ∙ omega arith)

      from :
          (o : Option String)
          → (process_valid w opts features o g).0 ≡ none
          → total (process_valid w opts features o g).2
            ≡ enabled_documents sys (process_valid w opts features o g).1
      from (some e) ok = absurd (cc ok)
      from none ok = with_system opts.system here ok
