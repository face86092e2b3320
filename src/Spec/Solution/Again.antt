-- ===== src/Spec/Solution/Again.antt =====
-- Validate of pkg/spec/soldoc.go and soltarget.go, called again on what it left. The solution runner of
-- pkg/sol does so: ReadSolutionDoc validates the document, and runSolution does it again.
use apigear_cli.Base.{
  String, true, false, Option, none, some, List, [], ◌∷◌, ◌++◌, inl, inr, ◌==◌, if◌then◌else◌, ◌≡◌,
  refl, ap, ◌∙◌, Bool-cases,
}
use apigear_cli.Base.Loop.{each, go_on, went_on, All}
use apigear_cli.Spec.Solution.{
  World, SolutionTarget, SolutionDoc, target_validate, doc_compute, validate_one, validate_targets,
  with_targets, solution_validate,
}
use apigear_cli.Spec.Solution.Valid.{
  OnSuccess, IsValid, target_validate-IsValid, target_validate-again,
}

module _ (w : World)
    (named : (template id : String)
      → w.install_template template ≡ inr id
      → (id == "") ≡ false) where
  targets-IsValid :
      (doc : SolutionDoc) (ls : List SolutionTarget)
      → (each (validate_one w doc) ls tt).0 ≡ none
      → All (IsValid w named) (each (validate_one w doc) ls tt).1
  unfolding each
  targets-IsValid doc [] ok = tt
  targets-IsValid doc (l ∷ ls) ok =
      went (target_validate w doc l) (target_validate-IsValid w named doc l)
        (targets-IsValid doc ls) ok
    where
      went :
          (r : Option String × SolutionTarget)
          → OnSuccess (IsValid w named) r
          → ((each (validate_one w doc) ls tt).0 ≡ none
              → All (IsValid w named) (each (validate_one w doc) ls tt).1)
          → (go_on (each (validate_one w doc) ls) ls (r.0, r.1, tt)).0 ≡ none
          → All (IsValid w named) (go_on (each (validate_one w doc) ls) ls (r.0, r.1, tt)).1
      went (some err, l) valid rest ok = absurd (cc ok)
      went (none, l) valid rest ok = (valid refl, rest ok)

  targets-again :
      (doc : SolutionDoc) (ls : List SolutionTarget)
      → All (IsValid w named) ls
      → each (validate_one w doc) ls tt ≡ (none, ls, tt)
  unfolding each
  targets-again doc [] valid = refl
  targets-again doc (l ∷ ls) (v, valid) =
      ap (λ r. go_on (each (validate_one w doc) ls) ls (r.0, r.1, tt))
        (target_validate-again w named doc l v)
      ∙ ap (went_on l) (targets-again doc ls valid)

  doc_compute-computed : (s : SolutionDoc) → (doc_compute s).computed ≡ true
  unfolding doc_compute
  doc_compute-computed s = elim (Bool-cases s.computed) [
    | inl e ↦
        ap
          (λ b.
            (if b then s else record s {
              targets = s.targets ++ s.layers;
              layers = [];
              computed = true;
            }).computed)
          e
        ∙ e
    | inr e ↦
        ap
          (λ b.
            (if b then s else record s {
              targets = s.targets ++ s.layers;
              layers = [];
              computed = true;
            }).computed)
          e
  ]

  doc_compute-again : (s : SolutionDoc) → s.computed ≡ true → doc_compute s ≡ s
  unfolding doc_compute
  doc_compute-again s e =
      ap
        (λ b.
          if b
          then s
          else record s { targets = s.targets ++ s.layers; layers = []; computed = true })
        e

  -- What Validate leaves of a solution that it accepts.
  abbrev pub IsSettled : SolutionDoc → Type 0
  IsSettled s = (s.computed ≡ true) × All (IsValid w named) s.targets

  pub solution_validate-IsSettled :
      (s : SolutionDoc) {s' : SolutionDoc} → solution_validate w s ≡ (none, s') → IsSettled s'
  unfolding solution_validate validate_targets
  solution_validate-IsSettled s {s'} accepted =
      let doc = doc_compute s in
      let r = each (validate_one w doc) doc.targets tt in
      let left : record doc { targets = r.1 } ≡ s' = ap (λ p. p.1) accepted in
      rw (← left) (doc_compute-computed s, targets-IsValid doc doc.targets (ap (λ p. p.0) accepted))

  pub IsSettled-again : (s : SolutionDoc) → IsSettled s → solution_validate w s ≡ (none, s)
  unfolding solution_validate validate_targets
  IsSettled-again s (computed, valid) =
      ap (λ d. with_targets w d (each (validate_one w d) d.targets tt))
        (doc_compute-again s computed)
      ∙ ap (with_targets w s) (targets-again s s.targets valid)
