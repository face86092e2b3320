-- ===== src/Spec/Solution/Valid.antt =====
-- What Validate of pkg/spec/soltarget.go leaves of a target that it accepts, and that it accepts this again.
use apigear_cli.Base.{
  String, Bool, true, false, Option, none, some, List, [], ◌∷◌, ◌⊎◌, inl, inr, ◌==◌, if◌then◌else◌,
  ◌≡◌, refl, ap, ◌∙◌, Bool-cases,
}
use apigear_cli.Spec.Solution.{
  World, SolutionTarget, SolutionDoc, features_or_all, from_cache, installed, locate, recorded,
  record_dependencies, expanded, expand_from, expand, after_expand, after_locate, target_compute,
  extended_validate, after_compute, target_validate,
}

-- A target that passes the first tests of Validate, and whose features are set.
pub record Ready (l : SolutionTarget) : Type 0 where
  pub output : (l.output == "") ≡ false
  pub template : (l.template == "") ≡ false
  pub features : features_or_all l.features ≡ l.features

abbrev pub OnSuccess : (SolutionTarget → Type 0) → Option String × SolutionTarget → Type 0
OnSuccess P r = r.0 ≡ none → P r.1

module _ (w : World)
    (named : (template id : String)
      → w.install_template template ≡ inr id
      → (id == "") ≡ false) where
  from_cache-Ready :
      (id : String) (l : SolutionTarget) (dir : String ⊎ String)
      → (id == "") ≡ false
      → Ready l
      → OnSuccess Ready (from_cache w id l dir)
  from_cache-Ready id l (inl err) h r ok = absurd (cc ok)
  from_cache-Ready id l (inr dir) h r ok = record {
    output = r.output;
    template = h;
    features = r.features;
  }

  installed-Ready :
      (l : SolutionTarget) (answer : String ⊎ String)
      → w.install_template l.template ≡ answer
      → Ready l
      → OnSuccess Ready (installed w l answer)
  installed-Ready l (inl err) same r ok = absurd (cc ok)
  installed-Ready l (inr id) same r ok =
      from_cache-Ready id l (w.template_dir_of id) (named l.template id same) r ok

  locate-Ready :
      (doc : SolutionDoc) (l : SolutionTarget) → Ready l → OnSuccess Ready (locate w doc l)
  unfolding locate
  locate-Ready doc l r = elim (Bool-cases (w.is_dir (w.join doc.root_dir l.template))) [
    | inl e ↦
        rw e (λ ok. record { output = r.output; template = r.template; features = r.features })
    | inr e ↦ rw e (installed-Ready l (w.install_template l.template) refl r)
  ]

  recorded-Ready : (l : SolutionTarget) (ds : List String) → Ready l → Ready (recorded l ds)
  recorded-Ready l [] r = record { output = r.output; template = r.template; features = r.features }
  recorded-Ready l (d ∷ ds) r = r

  expanded-Ready :
      (l : SolutionTarget) (files : String ⊎ List String)
      → Ready l
      → OnSuccess Ready (expanded w l files)
  expanded-Ready l (inl err) r ok = absurd (cc ok)
  expanded-Ready l (inr files) r ok = record {
    output = r.output;
    template = r.template;
    features = r.features;
  }

  expand_from-Ready :
      (doc : SolutionDoc) (l : SolutionTarget) (files : List String)
      → Ready l
      → OnSuccess Ready (expand_from w doc l files)
  expand_from-Ready doc l [] r = expanded-Ready l (w.expand_inputs doc.root_dir l.inputs) r
  expand_from-Ready doc l (i ∷ is) r = λ ok. r

  abbrev IsDone : SolutionTarget → Type 0
  IsDone l = Ready l × (l.computed ≡ true)

  after_expand-IsDone :
      (r : Option String × SolutionTarget) → OnSuccess Ready r → OnSuccess IsDone (after_expand r)
  after_expand-IsDone (some err, l) h ok = absurd (cc ok)
  after_expand-IsDone (none, l) h ok =
      let r = h refl in
      (record { output = r.output; template = r.template; features = r.features }, refl)

  after_locate-IsDone :
      (doc : SolutionDoc) (r : Option String × SolutionTarget)
      → OnSuccess Ready r
      → OnSuccess IsDone (after_locate w doc r)
  unfolding expand record_dependencies
  after_locate-IsDone doc (some err, l) h ok = absurd (cc ok)
  after_locate-IsDone doc (none, l) h ok =
      let l' = recorded l l.dependencies in
      after_expand-IsDone (expand_from w doc l' l'.expanded_inputs)
        (expand_from-Ready doc l' l'.expanded_inputs (recorded-Ready l l.dependencies (h refl))) ok

  unless_computed-IsDone :
      (doc : SolutionDoc) (l : SolutionTarget) (b : Bool)
      → l.computed ≡ b
      → Ready l
      → OnSuccess IsDone (if b then (none, l) else after_locate w doc (locate w doc l))
  unless_computed-IsDone doc l true e r = λ ok. (r, e)
  unless_computed-IsDone doc l false e r =
      after_locate-IsDone doc (locate w doc l) (locate-Ready doc l r)

  target_compute-IsDone :
      (doc : SolutionDoc) (l : SolutionTarget) → Ready l → OnSuccess IsDone (target_compute w doc l)
  unfolding target_compute
  target_compute-IsDone doc l r = unless_computed-IsDone doc l l.computed refl r

  -- What a target is after Validate has accepted it.
  abbrev pub IsValid : SolutionTarget → Type 0
  IsValid l = IsDone l × (extended_validate w l ≡ none)

  after_compute-IsValid :
      (r : Option String × SolutionTarget)
      → OnSuccess IsDone r
      → OnSuccess IsValid (after_compute w r)
  after_compute-IsValid (some err, l) h ok = absurd (cc ok)
  after_compute-IsValid (none, l) h ok = (h refl, ok)

  features-Ready :
      (l : SolutionTarget)
      → (l.output == "") ≡ false
      → (l.template == "") ≡ false
      → Ready (record l { features = features_or_all l.features })
  features-Ready l o t = record { output = o; template = t; features = twice l.features }
    where
      twice :
          (fs : Option (List String)) → features_or_all (features_or_all fs) ≡ features_or_all fs
      twice none = refl
      twice (some fs) = refl

  pub target_validate-IsValid :
      (doc : SolutionDoc) (l : SolutionTarget) → OnSuccess IsValid (target_validate w doc l)
  unfolding target_validate
  target_validate-IsValid doc l = elim (Bool-cases (l.output == "")) [
    | inl o ↦ rw o (λ ok. absurd (cc ok))
    | inr o ↦ elim (Bool-cases (l.template == "")) [
      | inl t ↦ rw (o, t) (λ ok. absurd (cc ok))
      | inr t ↦
          let l' = record l { features = features_or_all l.features } in
          rw (o, t)
            (after_compute-IsValid (target_compute w doc l')
              (target_compute-IsDone doc l' (features-Ready l o t)))
    ]
  ]

  target_compute-computed :
      (doc : SolutionDoc) (l : SolutionTarget)
      → l.computed ≡ true
      → target_compute w doc l ≡ (none, l)
  unfolding target_compute
  target_compute-computed doc l e =
      ap (λ b. if b then (none, l) else after_locate w doc (locate w doc l)) e

  -- A target that Validate has accepted is accepted as it is.
  pub target_validate-again :
      (doc : SolutionDoc) (l : SolutionTarget) → IsValid l → target_validate w doc l ≡ (none, l)
  unfolding target_validate
  target_validate-again doc l ((r, done), valid) =
      rw (r.output, r.template)
        (ap (λ fs. after_compute w (target_compute w doc (record l { features = fs }))) r.features
          ∙ ap (after_compute w) (target_compute-computed doc l done)
          ∙ ap (λ err. (err, l)) valid)
