-- ===== src/Model/Validate/Whole/Systems.antt =====
-- When System.Validate succeeds.
use apigear_cli.Base.{
  ◌≡◌, refl, ◌↔◌, inl, inr, ℕ, String, false, Option, none, some, List, [], ◌∷◌, ◌==◌, map, arith,
  Bool-cases, Option-cases,
}
use apigear_cli.Base.Lists.{contains, Fresh}
use apigear_cli.Base.Loop.{All, each, each-cons}
use apigear_cli.Model.Data.{Module, System}
use apigear_cli.Model.Naming.{Fault}
use apigear_cli.Model.Identify.{number_all, number_module, compute_identifier}
use apigear_cli.Model.Validate.Whole.{
  module_validate, modules_validate, distinct_modules, checksums, system_summed, named_distinctly,
  modules_valid, system_validate,
}
use apigear_cli.Model.Validate.Whole.WellNamed.{ModuleIsNamed, SystemIsNamed}
use apigear_cli.Model.Validate.Whole.Accepts.{
  module_validate-none_iff, module_validate-name, module_validate-checksum,
}

module _ (digest : String → String) (nonempty : (t : String) → (digest t == "") ≡ false)
    (sys : Option System) where
  -- A module with a checksum.
  abbrev Summed : Module → Type 0
  Summed m = (m.checksum == "") ≡ false

  abbrev body : Module → Unit {0} → Option Fault × Module × Unit {0}
  body m s = let (e, m') = module_validate digest sys m in (e, m', s)

  record Validated (ms ms' : List Module) : Type 0 where
    named : All ModuleIsNamed ms
    names : map (λ m. m.name) ms' ≡ map (λ m. m.name) ms
    sums : All Summed ms'

  loop-Validated :
      (ms : List Module)
      → ((each body ms tt).0 ≡ none → Validated ms (each body ms tt).1)
        × (All ModuleIsNamed ms → (each body ms tt).0 ≡ none)
  loop-Validated [] =
      unfold each in (λ _. record { named = tt; names = refl; sums = tt }, λ _. refl)
  loop-Validated (m ∷ ms) =
      let iff = module_validate-none_iff digest sys m in
      elim (Option-cases (module_validate digest sys m).0) [
        | inr (fault, e) ↦ unfold each in (λ h. absurd (ground arith), λ n. cc (iff.1 n.0, e))
        | inl e ↦
            let ih = loop-Validated ms in
            let (u, sum) = module_validate-checksum digest sys m e in
            rw (each-cons body m ms tt (λ i. (e i, (module_validate digest sys m).1, tt))) (
              λ h.
                  let v = ih.0 h in
                  record {
                    named = (iff.0 e, v.named);
                    names = λ i. module_validate-name digest sys m i ∷ v.names i;
                    sums = (rw sum (nonempty u), v.sums);
                  },
              λ n. ih.1 n.1,
            )
      ]

distinct_modules-none_iff :
    (system : String) (ms : List Module) (names : List String)
    → (distinct_modules system ms names ≡ none) ↔ Fresh names (map (λ m. m.name) ms)
unfolding distinct_modules
distinct_modules-none_iff system [] names = (λ _. tt, λ _. refl)
distinct_modules-none_iff system (m ∷ ms) names =
    let ih = distinct_modules-none_iff system ms (m.name ∷ names) in
    elim (Bool-cases (contains names m.name)) [
      | inl e ↦ (λ h. absurd (ground arith), λ f. cc (f.0, e))
      | inr e ↦ (λ h. (e, ih.0 (rw e at h)), λ f. rw e (ih.1 f.1))
    ]

number_module-checksum : (m : Module) (idx : ℕ) → (number_module m idx).0.checksum ≡ m.checksum
unfolding number_module
number_module-checksum m idx = refl

module _ (digest : String → String) where
  checksums-none :
      (ms : List Module) (idx : ℕ)
      → All (λ m. (m.checksum == "") ≡ false) ms
      → (checksums (number_all number_module ms idx).0).0 ≡ none
  unfolding checksums number_all
  checksums-none [] idx all = refl
  checksums-none (m ∷ ms) idx (s, all) =
      rw (number_module-checksum m idx) (rw s (checksums-none ms (number_module m idx).1 all))

  system_summed-none :
      (r : Option Fault × String) (s : System) → r.0 ≡ none → (system_summed digest r s).0 ≡ none
  system_summed-none (none, t) s h = refl
  system_summed-none (some fault, t) s h = absurd (cc h)

  named_distinctly-none_iff :
      (f : Option Fault) (s : System)
      → All (λ m. (m.checksum == "") ≡ false) s.modules
      → ((named_distinctly digest f s).0 ≡ none) ↔ (f ≡ none)
  unfolding compute_identifier
  named_distinctly-none_iff (some fault) s sums = (λ h. h, λ h. h)
  named_distinctly-none_iff none s sums =
      (λ _. refl, λ _. system_summed-none _ _ (checksums-none s.modules 1 sums))

  modules_valid-none_iff :
      (r : Option Fault × List Module) (s : System)
      → (r.0 ≡ none → All (λ m. (m.checksum == "") ≡ false) r.1)
      → ((modules_valid digest r s).0 ≡ none) ↔ ((r.0 ≡ none) × Fresh [] (map (λ m. m.name) r.1))
  modules_valid-none_iff (some fault, ms) s sums = (λ h. absurd (cc h), λ h. absurd (cc h.0))
  modules_valid-none_iff (none, ms) s sums =
      let a =
        named_distinctly-none_iff (distinct_modules s.name ms []) (record s { modules = ms })
          (sums refl) in
      let b = distinct_modules-none_iff s.name ms [] in
      (λ h. (refl, b.0 (a.0 h)), λ h. a.1 (b.1 h.1))

  -- System.Validate, where no digest is empty, succeeds exactly if the names of the system's modules
  -- differ, and in each module the names of the elements, and in each element those of its parts.
  pub system_validate-none_iff :
      ((t : String) → (digest t == "") ≡ false)
      → (s : System) → ((system_validate digest s).0 ≡ none) ↔ SystemIsNamed s
  unfolding system_validate modules_validate
  system_validate-none_iff nonempty s =
      let loop = loop-Validated digest nonempty (some s) s.modules in
      let all =
        modules_valid-none_iff (modules_validate digest (some s) s.modules) s
          (λ h. (loop.0 h).sums) in
      (
        λ h.
            let (ok, fresh) = all.0 h in
            let v = loop.0 ok in record { modules = v.named; distinct = rw (← v.names) fresh },
        λ n. let ok = loop.1 n.modules in all.1 (ok, rw (loop.0 ok).names n.distinct),
      )
