-- ===== src/Sol.antt =====
-- parseInputs of pkg/sol/parse.go: the inputs of a target fill a system, which is then validated. The
-- DataParser of pkg/model/parser.go reads a file with the YAML and JSON libraries: what module it finds in
-- a file, with its objects at the addresses from one on, is the parameter `data_module`.
pub mod Accepts
pub mod Read
use Prim.Native.Char.{Char, code}
use apigear_cli.Base.{
  ℕ, String, Bool, true, false, not, Option, none, some, List, [], ◌∷◌, ◌++◌, ◌⊎◌, inl, inr, ◌==◌,
  ◌||◌, ◌&&◌, if◌then◌else◌, nat_eq,
}
use apigear_cli.Base.Text.{has_char}
use apigear_cli.Model.Data.{Module, System}
use apigear_cli.Model.Naming.{Fault, error, nil_dereference}
use apigear_cli.Model.Validate.Whole.{system_validate}
use apigear_cli.Idl.Tree.{DocumentTree}
use apigear_cli.Idl.Parser.{ParseError, Outcome, panics, fails, gives, Heap, parse_file}

-- filepath.Ext: from the last dot on, where no slash comes after it.
unfoldable pub ext : String → String
ext String.[] = ""
ext (String.◌∷◌ c s) =
    let rest = ext s in
    if not (rest == "")
    then rest
    else if nat_eq (code c) 46 && not (has_char "/" s)
    then String.◌∷◌ c s
    else ""

pub data InputError : Type 0 where
  data_error : String → InputError
  idl_error : ParseError → InputError
  resolve_error : String → InputError

-- How parseInputs ends: in a panic, with an error, or with the system.
pub data Parsed : Type 0 where
  panicked : Parsed
  failed : InputError → Parsed
  parsed : Heap → Parsed

abbrev pub and_parse : Parsed → (Heap → Parsed) → Parsed
and_parse panicked f = panicked
and_parse (failed e) f = failed e
and_parse (parsed heap) f = f heap

abbrev pub from_idl : Outcome Heap → Parsed
from_idl panics = panicked
from_idl (fails e) = failed (idl_error e)
from_idl (gives heap) = parsed heap

-- System.AddModule
abbrev add_module : Module → System → System
add_module m s = record s { modules = s.modules ++ (m ∷ []) }

-- DataParser.ParseFile, with what the libraries found.
abbrev from_data : System → String ⊎ Module × ℕ → Parsed
from_data system (inl err) = failed (data_error err)
from_data system (inr (m, next)) = parsed (add_module m system, next)

abbrev pub resolved : ℕ → Option Fault × System → Parsed
resolved next (some (error e), system) = failed (resolve_error e)
resolved next (some nil_dereference, system) = panicked
resolved next (none, system) = parsed (system, next)

module _ (digest : String → String) (is_file : String → Bool)
    (file_tree : String → Option DocumentTree)
    (data_module : String → ℕ → String ⊎ Module × ℕ) where
  -- The body of the loop of parseInputs: an input of another kind is passed over.
  unfoldable pub parse_input : String → Heap → Parsed
  parse_input file (system, next) =
      let e = ext file in
      if e == ".yaml" || e == ".yml" || e == ".json"
      then from_data system (data_module file next)
      else if e == ".idl"
      then from_idl (parse_file is_file file_tree file (system, next))
      else parsed (system, next)

  unfoldable pub parse_each : List String → Heap → Parsed
  parse_each [] heap = parsed heap
  parse_each (file ∷ files) heap = and_parse (parse_input file heap) (parse_each files)

  -- System.Validate at the end of parseInputs.
  abbrev pub resolve_all : Heap → Parsed
  resolve_all (system, next) = resolved next (system_validate digest system)

  -- parseInputs
  unfoldable pub parse_inputs : List String → Heap → Parsed
  parse_inputs inputs heap = and_parse (parse_each inputs heap) resolve_all
