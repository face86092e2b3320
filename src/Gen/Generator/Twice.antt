-- ===== src/Gen/Generator/Twice.antt =====
-- Files that are there already: what WriteFile of pkg/gen/generator.go does to them, with the output
-- writer of the file system.
use apigear_cli.Base.{
  ◌≡◌, refl, ◌∙◌, ◌⊎◌, inl, inr, String, Bool, true, false, Option, none, some, if◌then◌else◌,
  Bool-cases,
}
use apigear_cli.Base.{List}
use apigear_cli.Base.Loop.{All}
use apigear_cli.Model.Data.{System}
use apigear_cli.Spec.Rules.{DocumentRule, FeatureRule}
use apigear_cli.Gen.State.{Options, World, Scope, Generator, skip_file}
use apigear_cli.Gen.Writer.{
  Os, KeepsFiles, ReadsBack, Holds, on_os, is_file, compare_content_with_file, fs_write-new,
  fs_write-Holds, is_file-Holds, compare_content_with_file-Holds,
}
use apigear_cli.Gen.Generator.{
  with_target, write_to_output, write_compared, write_file, write_failed, write_rendered,
  render_file, process_target, process_document, process_features, join,
}
use apigear_cli.Gen.Generator.Work.{AllDocuments, process_features-keeps}

module _ {Meta Bytes Handle Disk : Type 0} (os : Os Bytes Handle Disk) (w : World Meta Bytes Disk)
    (opts : Options Meta) (gentle : opts.force ≡ false) where
  -- What the generator calls, with the writer of the file system.
  abbrev w' : World Meta Bytes Disk
  w' = on_os os w

  write_file-file :
      (input : Bytes) (path : String) (preserve : Bool) (g : Generator Disk)
      → is_file os (join w' opts opts.output_dir path) g.disk ≡ true
      → write_file w' opts input path preserve g ≡ (
          if preserve
          then (none, skip_file g)
          else write_compared w' opts input
              (join w' opts opts.output_dir path)
              g
              (w'.output.compare input (join w' opts opts.output_dir path) g.disk))
  unfolding write_file
  write_file-file input path preserve g h = rw (gentle, h) refl

  write_file-new :
      (input : Bytes) (path : String) (preserve : Bool) (g : Generator Disk)
      → is_file os (join w' opts opts.output_dir path) g.disk ≡ false
      → write_file w' opts input path preserve g
        ≡ write_to_output w' opts input (join w' opts opts.output_dir path) g
  unfolding write_file
  write_file-new input path preserve g h = rw (gentle, h) refl

  -- The files of the first disk are in the second as they were.
  abbrev Keeps : Generator Disk → Generator Disk → Type 0
  Keeps a b =
      (path : String) (x : Bytes)
      → os.read_bytes path a.disk ≡ inr x
      → os.read_bytes path b.disk ≡ inr x

  module _ (keeps : KeepsFiles os) where
    write_to_output-Keeps :
        (input : Bytes) (target : String) (g : Generator Disk)
        → is_file os target g.disk ≡ false
        → Keeps g (write_to_output w' opts input target g).1
    unfolding write_to_output
    write_to_output-Keeps input target g new path x there = elim (Bool-cases opts.dry_run) [
      | inl e ↦ rw e there
      | inr e ↦ rw e (fs_write-new os keeps input target path x g.disk new there)
    ]

    write_file-Keeps :
        (input : Bytes) (path : String) (g : Generator Disk)
        → Keeps g (write_file w' opts input path true g).1
    write_file-Keeps input path g =
        elim (Bool-cases (is_file os (join w' opts opts.output_dir path) g.disk)) [
          | inl e ↦ rw (write_file-file input path true g e) (λ p x h. h)
          | inr e ↦
              rw (write_file-new input path true g e)
                (write_to_output-Keeps input (join w' opts opts.output_dir path) g e)
        ]

    write_failed-Keeps :
        (target : String) (g : Generator Disk) (r : Option String × Generator Disk)
        → Keeps g r.1
        → Keeps g (write_failed w' opts target r).1
    write_failed-Keeps target g (none, g') kept = kept
    write_failed-Keeps target g (some e, g') kept = kept

    write_rendered-Keeps :
        (source target : String) (g : Generator Disk) (r : String ⊎ Bytes)
        → Keeps g (write_rendered w' opts source target true g r).1
    write_rendered-Keeps source target g (inl e) = λ p x h. h
    write_rendered-Keeps source target g (inr bytes) =
        write_failed-Keeps target g (write_file w' opts bytes target true g)
          (write_file-Keeps bytes target g)

    -- A document that is rendered, and preserved.
    abbrev pub IsPreserved : DocumentRule → Type 0
    IsPreserved doc = (doc.raw ≡ false) × (doc.preserve ≡ true)

    process_target-Keeps :
        (doc : DocumentRule) (ctx : Scope Meta) (g : Generator Disk) (t : String ⊎ String)
        → IsPreserved doc
        → Keeps g (process_target w' opts doc ctx g t).1
    unfolding render_file
    process_target-Keeps doc ctx g (inl e) p = λ p x h. h
    process_target-Keeps doc ctx g (inr target) p = chosen doc.raw doc.preserve p.0 p.1
      where
        chosen :
            (raw preserve : Bool)
            → raw ≡ false
            → preserve ≡ true
            → Keeps g
                (process_target w' opts
                  (record doc { raw = raw; preserve = preserve })
                  ctx
                  g
                  (inr target)).1
        chosen true preserve r s = absurd (cc r)
        chosen false false r s = absurd (cc s)
        chosen false true r s =
            write_rendered-Keeps (w.clean doc.source) target g (w.execute (w.clean doc.source) ctx)

    process_document-Keeps :
        (doc : DocumentRule) (ctx : Scope Meta) (g : Generator Disk)
        → IsPreserved doc
        → Keeps g (process_document w' opts doc ctx g).1
    unfolding process_document
    process_document-Keeps doc ctx g =
        process_target-Keeps doc ctx g (w.render_string (w.clean doc.target) ctx)

    -- With the writer of the file system, where the features have only documents that are rendered and
    -- preserved, and nothing is forced, every file that can be read before the features are processed has
    -- the same content after it, whichever error may end it.
    pub process_features-Keeps :
        (sys : System) (features : List FeatureRule)
        → All (AllDocuments IsPreserved) features
        → (g : Generator Disk) (path : String) (x : Bytes) → os.read_bytes path g.disk ≡ inr x
        → os.read_bytes path (process_features w' opts sys features g).1.disk ≡ inr x
    process_features-Keeps sys features all =
        process_features-keeps w' opts sys Keeps (λ g p x h. h)
          (λ a b c p q path x h. q path x (p path x h)) IsPreserved
          (λ prefix doc ctx g. process_document-Keeps (with_target w' opts prefix doc) ctx g)
          features all

  module _ (path : String) (input : Bytes) where
    abbrev target : String
    target = join w' opts opts.output_dir path

    again :
        (preserve : Bool) (g : Generator Disk)
        → Holds os target input g.disk
        → write_file w' opts input path preserve g ≡ (none, skip_file g)
    again preserve g there =
        write_file-file input path preserve g (is_file-Holds os target input g.disk there)
        ∙ rw (compare_content_with_file-Holds os input target g.disk there) (both preserve)
      where
        skipped : Option String × Generator Disk
        skipped = (none, skip_file g)

        both : (b : Bool) → (if b then skipped else skipped) ≡ skipped
        both true = refl
        both false = refl

    -- What is written to the target of this disk, once there is a directory for it, can be read there.
    module _ (g : Generator Disk)
        (reads : ReadsBack os target input (os.mkdir_all (os.dir target) g.disk).1) where
      written_again :
          opts.dry_run ≡ false
          → (preserve : Bool) → (write_to_output w' opts input target g).0 ≡ none
          → write_file w' opts input path preserve (write_to_output w' opts input target g).1
            ≡ (none, skip_file (write_to_output w' opts input target g).1)
      unfolding write_to_output
      written_again wet preserve ok =
          again preserve (write_to_output w' opts input target g).1
            (rw wet (fs_write-Holds os input target g.disk reads (rw wet at ok)))

      compared_again :
          opts.dry_run ≡ false
          → is_file os target g.disk ≡ true
          → (r : String ⊎ Bool) → compare_content_with_file os input target g.disk ≡ r
          → (write_compared w' opts input target g r).0 ≡ none
          → write_file w' opts input path false (write_compared w' opts input target g r).1
            ≡ (none, skip_file (write_compared w' opts input target g r).1)
      compared_again wet file (inl e) same ok = absurd (cc ok)
      compared_again wet file (inr true) same ok =
          write_file-file input path false (skip_file g) file ∙ rw same refl
      compared_again wet file (inr false) same ok = written_again wet false ok

      -- Once WriteFile has succeeded with the writer of the file system, unforced and not in a dry run, the
      -- same call again writes nothing: it succeeds, counts a skipped file, and leaves the disk as it is.
      -- What os.WriteFile writes to the target is taken to be readable there.
      pub write_file-write_file :
          opts.dry_run ≡ false
          → (preserve : Bool) → (write_file w' opts input path preserve g).0 ≡ none
          → write_file w' opts input path preserve (write_file w' opts input path preserve g).1
            ≡ (none, skip_file (write_file w' opts input path preserve g).1)
      write_file-write_file wet preserve = elim (Bool-cases (is_file os target g.disk)) [
        | inr e ↦ rw (write_file-new input path preserve g e) (written_again wet preserve)
        | inl e ↦ rw (write_file-file input path preserve g e) (found preserve e)
      ]
        where
          found :
              (b : Bool)
              → is_file os target g.disk ≡ true
              → (if b
                  then (none, skip_file g)
                  else write_compared w' opts input target g
                      (compare_content_with_file os input target g.disk)).0
                ≡ none
              → write_file w' opts input path b
                  (if b
                    then (none, skip_file g)
                    else write_compared w' opts input target g
                        (compare_content_with_file os input target g.disk)).1
                ≡ (
                  none,
                  skip_file
                      (if b
                        then (none, skip_file g)
                        else write_compared w' opts input target g
                            (compare_content_with_file os input target g.disk)).1,
                )
          found true file ok = write_file-file input path true (skip_file g) file
          found false file ok = compared_again wet file _ refl ok
