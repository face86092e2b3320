-- ===== src/Model/Validate/Whole.antt =====
-- The Validate methods of module.go and system.go. The md5 digest of a text, in hexadecimal, is the
-- parameter `digest`.
pub mod WellNamed
pub mod Linked
pub mod Values
pub mod Found
pub mod Accepts
pub mod Systems
use apigear_cli.Base.{
  ◌≡◌, ℕ, String, Bool, true, false, Option, none, some, List, [], ◌∷◌, ◌==◌, ◌<>◌, map,
  if◌then◌else◌,
}
use apigear_cli.Base.Lists.{contains}
use apigear_cli.Base.Loop.{each}
use apigear_cli.Model.Data.{Interface, Struct, Enum, Extern, Module, System}
use apigear_cli.Model.Naming.{Fault, error, nil_dereference, checked, then_each}
use apigear_cli.Model.Validate.{
  sound_always, module_message, member_message, interface_validate, struct_validate, enum_validate,
}
use apigear_cli.Model.Checksum.{module_text}
use apigear_cli.Model.Identify.{compute_identifier}

-- The version that Module.Validate sets where there is none.
abbrev pub with_version : Module → Module
with_version m = if m.version == "" then record m { version = "1.0" } else m

-- The four loops of Module.Validate, which share the map of names.
unfoldable pub elements_validate : Option System → Module → Option Fault × Module × List String
elements_validate sys m =
    let externs =
      then_each (λ m. m.externs) (λ xs m. record m { externs = xs })
        (checked (module_message m.name) (λ x. x.name) (sound_always (λ x. x))) (none, m, []) in
    let interfaces =
      then_each (λ m. m.interfaces) (λ is m. record m { interfaces = is })
        (checked (module_message m.name) (λ i. i.name) (interface_validate sys m)) externs in
    let structs =
      then_each (λ m. m.structs) (λ ss m. record m { structs = ss })
        (checked (module_message m.name) (λ s. s.name) (struct_validate sys m)) interfaces in
    then_each (λ m. m.enums) (λ es m. record m { enums = es })
      (checked (module_message m.name) (λ e. e.name) enum_validate) structs

-- The loop of System.Validate that checks the names of the modules.
unfoldable pub distinct_modules : String → List Module → List String → Option Fault
distinct_modules system [] names = none
distinct_modules system (m ∷ ms) names =
    let rest = distinct_modules system ms (m.name ∷ names) in
    if contains names m.name then some (error (system <> ": duplicate name: " <> m.name)) else rest

-- System.computeChecksum: the checksums one after the other, or the first module without one.
unfoldable pub checksums : List Module → Option Fault × String
checksums [] = (none, "")
checksums (m ∷ ms) =
    let (fault, text) = checksums ms in
    if m.checksum == ""
    then (some (error ("module " <> m.name <> " checksum not computed")), "")
    else (fault, m.checksum <> text)

module _ (digest : String → String) where
  -- The end of Module.Validate: computeChecksum, unless a loop has failed.
  abbrev pub summed : Option Fault → Option String → Module → Option Fault × Module
  summed (some fault) text m = (some fault, m)
  summed none none m = (some nil_dereference, m)
  summed none (some t) m = (none, record m { checksum = digest t })

  -- Module.Validate
  unfoldable pub module_validate : Option System → Module → Option Fault × Module
  unfolding elements_validate module_text
  module_validate sys m =
      let (fault, m', names) = elements_validate sys (with_version m) in
      summed fault (module_text m') m'

  -- The loop of System.Validate over the modules.
  unfoldable pub modules_validate : Option System → List Module → Option Fault × List Module
  unfolding module_validate each
  modules_validate sys ms =
      let (fault, ms', done) =
        each {S = Unit {0}} (λ m s. let (e, m') = module_validate sys m in (e, m', s)) ms tt in
      (fault, ms')

  abbrev pub system_summed : Option Fault × String → System → Option Fault × System
  system_summed (some fault, text) s = (some fault, s)
  system_summed (none, text) s = (none, record s { checksum = digest text })

  abbrev pub named_distinctly : Option Fault → System → Option Fault × System
  named_distinctly (some fault) s = (some fault, s)
  named_distinctly none s = let s' = compute_identifier s in system_summed (checksums s'.modules) s'

  abbrev pub modules_valid : Option Fault × List Module → System → Option Fault × System
  modules_valid (some fault, ms) s = (some fault, record s { modules = ms })
  modules_valid (none, ms) s =
      named_distinctly (distinct_modules s.name ms []) (record s { modules = ms })

  -- System.Validate
  unfoldable pub system_validate : System → Option Fault × System
  unfolding modules_validate distinct_modules checksums compute_identifier
  system_validate s = modules_valid (modules_validate (some s) s.modules) s
