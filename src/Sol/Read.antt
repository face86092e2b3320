-- ===== src/Sol/Read.antt =====
-- How the runner of pkg/sol gets at a solution: ReadSolutionDoc of read.go, and the start of
-- runSolutionFromSource of runner.go. What os.ReadFile and the YAML library make of a file is the parameter
-- `load`; `dir` is filepath.Dir and `abs` is filepath.Abs.
use apigear_cli.Base.{
  String, Bool, true, false, Option, none, some, List, [], ◌∷◌, ◌⊎◌, inl, inr, ◌==◌, if◌then◌else◌,
  map, ◌≡◌, refl, ap,
}
use apigear_cli.Base.Loop.{All}
use apigear_cli.Spec.Solution.{
  World, SolutionTarget, SolutionDoc, solution_validate, extended_validate, check_inputs, checked,
}
use apigear_cli.Spec.Solution.Valid.{IsValid, Ready}
use apigear_cli.Spec.Solution.Again.{IsSettled, solution_validate-IsSettled, IsSettled-again}

abbrev force_target : SolutionTarget → SolutionTarget
force_target l = record l { force = true }

-- The loop of runSolutionFromSource.
abbrev pub force_targets : Bool → SolutionDoc → SolutionDoc
force_targets true doc = record doc { targets = map force_target doc.targets }
force_targets false doc = doc

module _ (w : World) (load : String → String ⊎ SolutionDoc) (dir : String → String)
    (abs : String → String ⊎ String) where
  abbrev answered : Option String × SolutionDoc → String ⊎ SolutionDoc
  answered (some err, doc) = inl err
  answered (none, doc) = inr doc

  abbrev at_root : SolutionDoc → String ⊎ String → String ⊎ SolutionDoc
  at_root doc (inl err) = inl err
  at_root doc (inr root) = answered (solution_validate w (record doc { root_dir = root }))

  abbrev read_loaded : String → String ⊎ SolutionDoc → String ⊎ SolutionDoc
  read_loaded file (inl err) = inl err
  read_loaded file (inr doc) =
      at_root doc (abs (if doc.root_dir == "" then dir file else doc.root_dir))

  -- ReadSolutionDoc
  unfoldable pub read_solution_doc : String → String ⊎ SolutionDoc
  read_solution_doc file = read_loaded file (load file)

module _ (w : World)
    (named : (template id : String)
      → w.install_template template ≡ inr id
      → (id == "") ≡ false) where
  check_inputs-force :
      (l : SolutionTarget) (inputs : List String)
      → check_inputs w (force_target l) inputs ≡ check_inputs w l inputs
  unfolding check_inputs
  check_inputs-force l [] = refl
  check_inputs-force l (input ∷ inputs) =
      ap (checked w l input (w.check_file input)) (check_inputs-force l inputs)

  force-IsValid : (l : SolutionTarget) → IsValid w named l → IsValid w named (force_target l)
  unfolding extended_validate
  force-IsValid l ((r, done), valid) =
      let ready : Ready (force_target l) = record {
        output = r.output;
        template = r.template;
        features = r.features;
      } in
      ((ready, done), rw (check_inputs-force l l.expanded_inputs) valid)

  all-force-IsValid :
      (ls : List SolutionTarget)
      → All (IsValid w named) ls
      → All (IsValid w named) (map force_target ls)
  all-force-IsValid [] all = tt
  all-force-IsValid (l ∷ ls) (v, all) = (force-IsValid l v, all-force-IsValid ls all)

  force-IsSettled :
      (force : Bool) (s : SolutionDoc)
      → IsSettled w named s
      → IsSettled w named (force_targets force s)
  force-IsSettled true s (computed, valid) = (computed, all-force-IsValid s.targets valid)
  force-IsSettled false s settled = settled

  module _ (load : String → String ⊎ SolutionDoc) (dir : String → String)
      (abs : String → String ⊎ String) where
    answered-IsSettled :
        (r : Option String × SolutionDoc) {doc : SolutionDoc}
        → ((s : SolutionDoc) → r ≡ (none, s) → IsSettled w named s)
        → answered w load dir abs r ≡ inr doc
        → IsSettled w named doc
    answered-IsSettled (some err, s) settled read = absurd (cc read)
    answered-IsSettled (none, s) {doc} settled read =
        let same : s ≡ doc = cc read in rw (← same) (settled s refl)

    at_root-IsSettled :
        (s : SolutionDoc) (root : String ⊎ String) {doc : SolutionDoc}
        → at_root w load dir abs s root ≡ inr doc
        → IsSettled w named doc
    at_root-IsSettled s (inl err) read = absurd (cc read)
    at_root-IsSettled s (inr root) read =
        let s' = record s { root_dir = root } in
        answered-IsSettled (solution_validate w s')
          (λ d accepted. solution_validate-IsSettled w named s' accepted) read

    read_loaded-IsSettled :
        (file : String) (loaded : String ⊎ SolutionDoc) {doc : SolutionDoc}
        → read_loaded w load dir abs file loaded ≡ inr doc
        → IsSettled w named doc
    read_loaded-IsSettled file (inl err) read = absurd (cc read)
    read_loaded-IsSettled file (inr s) read =
        at_root-IsSettled s (abs (if s.root_dir == "" then dir file else s.root_dir)) read

    -- Where no template that is installed has an empty id, a solution that ReadSolutionDoc returns is
    -- accepted and left as it is by the second Validate, in runSolution, whether its targets are forced
    -- between the two or not.
    pub read_solution_doc-solution_validate :
        (file : String) (force : Bool) {doc : SolutionDoc}
        → read_solution_doc w load dir abs file ≡ inr doc
        → solution_validate w (force_targets force doc) ≡ (none, force_targets force doc)
    unfolding read_solution_doc
    read_solution_doc-solution_validate file force {doc} read =
        IsSettled-again w named (force_targets force doc)
          (force-IsSettled force doc (read_loaded-IsSettled file (load file) read))
