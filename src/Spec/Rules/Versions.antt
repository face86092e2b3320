-- ===== src/Spec/Rules/Versions.antt =====
-- CheckEngines and checkVersion of pkg/spec/rules.go. The semver package is third-party: a record of
-- the calls that the code makes of it.
use apigear_cli.Base.{
  ◌≡◌, refl, ◌↔◌, ◌⊎◌, inl, inr, String, Bool, true, false, List, [], ◌∷◌, arith, if◌then◌else◌,
  ◌==◌, eq_iff, Bool-cases, Sum-cases,
}
use apigear_cli.Spec.Rules.{Engines}

-- Masterminds/semver: NewConstraint and NewVersion return a value or an error text; Validate
-- returns whether the version meets the constraint, and the reasons if not.
pub record SemVer : Type 1 where
  pub Constraint : Type 0
  pub Version : Type 0
  pub new_constraint : String → Constraint ⊎ String
  pub new_version : String → Version ⊎ String
  pub validate : Constraint → Version → Bool × List String

module _ (sv : SemVer) where
  -- The part of checkVersion after its early return.
  parse_and_validate : String → String → Bool × List String
  parse_and_validate constraint version = elim (sv.new_constraint constraint) [
    | inr err ↦ (false, err ∷ [])
    | inl c ↦ elim (sv.new_version version) [
      | inr err ↦ (false, err ∷ [])
      | inl v ↦ sv.validate c v
    ]
  ]

  -- checkVersion
  unfoldable pub check_version : String → String → Bool × List String
  unfolding parse_and_validate
  check_version constraint version =
      let version' = if version == "(devel)" then "" else version in
      if version' == "" then (true, []) else parse_and_validate constraint version'

  abbrev report : Bool × List String → Bool × List String
  report (check, []) = if check then (true, []) else (false, [])
  report (check, e ∷ errs) = (false, e ∷ errs)

  -- RulesDoc.CheckEngines
  unfoldable pub check_engines : Engines → String → Bool × List String
  unfolding check_version
  check_engines engines version =
      if engines.cli == "" then (true, []) else report (check_version engines.cli version)

  -- The version satisfies the constraint, as semver has it.
  pub record Satisfies (constraint version : String) : Type 0 where
    pub c : sv.Constraint
    pub v : sv.Version
    pub parsed_constraint : sv.new_constraint constraint ≡ inl c
    pub parsed_version : sv.new_version version ≡ inl v
    pub valid : sv.validate c v ≡ (true, [])

  report-true : (r : Bool × List String) → (report r).0 ≡ true → r ≡ (true, [])
  report-true (true, []) e = refl
  report-true (false, []) e = cc e
  report-true (b, x ∷ errs) e = cc e

  parsed-Satisfies :
      (constraint version : String)
      → parse_and_validate constraint version ≡ (true, [])
      → Satisfies constraint version
  unfolding parse_and_validate
  parsed-Satisfies constraint version e = elim (Sum-cases (sv.new_constraint constraint)) [
    | inr (err, ec) ↦ absurd (ground arith)
    | inl (c, ec) ↦ elim (Sum-cases (sv.new_version version)) [
      | inr (err, ev) ↦ absurd (ground arith)
      | inl (v, ev) ↦ record {
        c = c;
        v = v;
        parsed_constraint = ec;
        parsed_version = ev;
        valid = ground arith;
      }
    ]
  ]

  Satisfies-parsed :
      (constraint version : String)
      → Satisfies constraint version
      → parse_and_validate constraint version ≡ (true, [])
  unfolding parse_and_validate
  Satisfies-parsed constraint version s =
      rw (s.parsed_constraint, s.parsed_version, parse_and_validate) s.valid

  -- CheckEngines answers true exactly if the document sets no constraint, or the version is a
  -- development one, or both are well-formed and semver accepts them without a complaint.
  pub check_engines-true_iff :
      (engines : Engines) (version : String)
      → ((check_engines engines version).0 ≡ true) ↔ (
          (engines.cli ≡ "")
          ⊎ ((version ≡ "(devel)") ⊎ ((version ≡ "") ⊎ Satisfies engines.cli version)))
  unfolding check_engines
  check_engines-true_iff engines version = elim (Bool-cases (engines.cli == "")) [
    | inl e ↦ (λ _. inl ((eq_iff engines.cli "").0 e), λ _. rw e)
    | inr e ↦ elim (Bool-cases (version == "(devel)")) [
      | inl dev ↦ (λ _. inr (inl ((eq_iff version "(devel)").0 dev)), λ _. rw (e, dev))
      | inr released ↦ elim (Bool-cases (version == "")) [
        | inl empty ↦
            (λ _. inr (inr (inl ((eq_iff version "").0 empty))), λ _. rw (e, released, empty))
        | inr given ↦ (
          λ h. inr (
              inr (
                inr (
                  parsed-Satisfies engines.cli version
                    (report-true _ (rw (e, released, given) at h))))),
          λ h. ground (
            arith,
            eq_iff engines.cli "",
            eq_iff version "(devel)",
            eq_iff version "",
            Satisfies-parsed engines.cli version,
          ),
        )
      ]
    ]
  ]
