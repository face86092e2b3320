-- ===== src/Sol/Accepts.antt =====
-- When parseInputs of pkg/sol/parse.go accepts files with modules.
use apigear_cli.Base.{
  ℕ, String, Bool, true, false, Option, none, some, List, [], ◌∷◌, ◌⊎◌, ◌==◌, ◌≡◌, refl, sym, ap,
  ◌∙◌, ◌↔◌,
}
use apigear_cli.Base.Loop.{All}
use apigear_cli.Model.Data.{Module, System, new_system}
use apigear_cli.Model.Naming.{Fault, error, nil_dereference}
use apigear_cli.Model.Validate.Whole.{system_validate}
use apigear_cli.Model.Validate.Whole.WellNamed.{SystemIsNamed}
use apigear_cli.Model.Validate.Whole.Systems.{system_validate-none_iff}
use apigear_cli.Idl.Tree.{DocumentTree}
use apigear_cli.Idl.Parser.{Outcome, panics, fails, gives, Heap, parse_file, parse_files, and_then}
use apigear_cli.Idl.Read.Files.{Holds, modules_of, appended, next_of, parse_files-Holds}
use apigear_cli.Sol.{
  ext, Parsed, panicked, failed, parsed, and_parse, from_idl, resolved, parse_input, parse_each,
  parse_inputs,
}

abbrev pub accepts : Parsed → Bool
accepts panicked = false
accepts (failed e) = false
accepts (parsed heap) = true

from_idl-and_then :
    (r : Outcome Heap) (f : Heap → Outcome Heap)
    → from_idl (and_then r f) ≡ and_parse (from_idl r) (λ heap. from_idl (f heap))
from_idl-and_then panics f = refl
from_idl-and_then (fails e) f = refl
from_idl-and_then (gives heap) f = refl

resolved-accepts_iff :
    (next : ℕ) (r : Option Fault × System) → (accepts (resolved next r) ≡ true) ↔ (r.0 ≡ none)
resolved-accepts_iff next (some (error e), system) = (λ h. absurd (cc h), λ h. absurd (cc h))
resolved-accepts_iff next (some nil_dereference, system) = (λ h. absurd (cc h), λ h. absurd (cc h))
resolved-accepts_iff next (none, system) = (λ _. refl, λ _. refl)

module _ (digest : String → String) (is_file : String → Bool)
    (file_tree : String → Option DocumentTree)
    (data_module : String → ℕ → String ⊎ Module × ℕ) where
  abbrev pub IsIdl : String → Type 0
  IsIdl file = ext file ≡ ".idl"

  parse_input-IsIdl :
      (file : String) (heap : Heap)
      → IsIdl file
      → parse_input digest is_file file_tree data_module file heap
        ≡ from_idl (parse_file is_file file_tree file heap)
  unfolding parse_input
  parse_input-IsIdl file (system, next) idl = rw idl

  parse_each-IsIdl :
      (files : List String) (heap : Heap)
      → All IsIdl files
      → parse_each digest is_file file_tree data_module files heap
        ≡ from_idl (parse_files is_file file_tree files heap)
  unfolding parse_each parse_files
  parse_each-IsIdl [] heap idl = refl
  parse_each-IsIdl (file ∷ files) heap (i, idl) =
      ap (λ r. and_parse r (parse_each digest is_file file_tree data_module files))
        (parse_input-IsIdl file heap i)
      ∙ (λ k.
          and_parse (from_idl (parse_file is_file file_tree file heap))
            (λ h. parse_each-IsIdl files h idl k))
      ∙ sym (
          from_idl-and_then (parse_file is_file file_tree file heap)
            (parse_files is_file file_tree files))

  -- Where no digest is empty, inputs that are .idl files which hold documents whose modules can be made are
  -- accepted exactly if the names of the modules differ, and in each module the names of the elements, and
  -- in each element those of its parts.
  pub parse_inputs-accepts_iff :
      ((t : String) → (digest t == "") ≡ false)
      → (name : String) (inputs : List String) (ts : List DocumentTree) (ms : List Module)
      → All IsIdl inputs
      → Holds is_file file_tree inputs ts
      → modules_of ts 0 ≡ some ms
      → (accepts (parse_inputs digest is_file file_tree data_module inputs (new_system name, 0))
          ≡ true)
        ↔ SystemIsNamed (record (new_system name) { modules = ms })
  unfolding parse_inputs new_system
  parse_inputs-accepts_iff nonempty name inputs ts ms idl holds made =
      let system = record (new_system name) { modules = ms } in
      let read : parse_each digest is_file file_tree data_module inputs (new_system name, 0)
          ≡ parsed (system, next_of ts 0) =
        parse_each-IsIdl inputs (new_system name, 0) idl
        ∙ ap from_idl (
            parse_files-Holds is_file file_tree inputs ts holds 0 (new_system name)
            ∙ ap (appended (new_system name) (next_of ts 0)) made) in
      let a = resolved-accepts_iff (next_of ts 0) (system_validate digest system) in
      let b = system_validate-none_iff digest nonempty system in
      rw read (λ h. b.0 (a.0 h), λ n. a.1 (b.1 n))
