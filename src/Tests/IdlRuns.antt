-- ===== src/Tests/IdlRuns.antt =====
-- The theorems on pkg/idl at a document with a declaration of each kind.
use apigear_cli.Base.{
  ◌++◌, ◌≡◌, refl, ap, ◌∙◌, String, true, false, Option, none, some, [], ◌∷◌, ◌==◌, inl, Bool,
}
use apigear_cli.Base.Int.{negsuc}
use apigear_cli.Base.Text.{unsnoc, split, join}
use apigear_cli.Model.Data.{Enum, Module, TypedNode, System, new_system}
use apigear_cli.Model.Resolve.{schema_validate}
use apigear_cli.Model.Resolve.Meant.{IsLinked}
use apigear_cli.Idl.Tree.{
  doc_line, tag_line, primitive, symbol, SchemaTree, a_property, an_operation, a_signal, an_extern,
  an_interface, a_struct, an_enum, DocumentTree, EnumTree,
}
use apigear_cli.Idl.Text.{split_symbol, atoi}
use apigear_cli.Idl.Listener.{Listener, run, new_listener}
use apigear_cli.Idl.Walk.{document_events, enum_events}
use apigear_cli.Idl.Build.{enum_of, document_of, module_of, next_after, property_of}
use apigear_cli.Idl.Parser.{fails, load_idl_from_files, gives}
use apigear_cli.Idl.Read.Whole.{finished, run-document}
use apigear_cli.Idl.Read.Values.{is_some, reads_values, run-document-is_some}
use apigear_cli.Idl.Read.Files.{
  Holds, modules_of, loaded, refusal, load_idl_from_files-Holds, load_idl_from_files-refusal,
}
use apigear_cli.Idl.Read.States.{in_module}
use apigear_cli.Idl.Read.Enums.{run-enum}
use apigear_cli.Idl.Read.Numbers.{HasCounted, run-enum-HasCounted}
use apigear_cli.Idl.Read.Linked.{load_idl_from_files-IsLinked}

abbrev int_type : SchemaTree
int_type = record { type = primitive "int"; is_array = true }

abbrev level_type : SchemaTree
level_type = record { type = symbol "Level"; is_array = false }

abbrev level : EnumTree
level = record {
  metas = doc_line "// how much " ∷ [];
  name = "Level";
  members =
      record { metas = []; name = "low"; value = none }
      ∷ record { metas = []; name = "mid"; value = some "-7" }
      ∷ record { metas = []; name = "high"; value = none }
      ∷ [];
}

abbrev demo : DocumentTree
demo = record {
  module_ = record { metas = doc_line "// a demo" ∷ []; name = "demo"; version = none };
  imports = record { name = "base"; version = some "1.2" } ∷ [];
  declarations =
      an_enum level
      ∷ an_extern (record { metas = []; name = "Ext" })
      ∷ a_struct (record {
        metas = tag_line "@deep" ∷ [];
        name = "Point";
        fields = record { metas = []; readonly = true; name = "x"; schema = int_type } ∷ [];
      })
      ∷ an_interface (record {
        metas = [];
        name = "Counter";
        extends = some "base.core.Object";
        members =
            a_property
              (record { metas = []; readonly = false; name = "level"; schema = level_type })
            ∷ an_operation (record {
              metas = [];
              name = "add";
              params = record { name = "by"; schema = int_type } ∷ [];
              returns = some level_type;
            })
            ∷ a_signal (record {
              metas = [];
              name = "changed";
              params = record { name = "to"; schema = level_type } ∷ [];
            })
            ∷ [];
      })
      ∷ [];
}

split_runs : split_symbol "base.core.Object" ≡ ("base.core", "Object")
unfolding split_symbol unsnoc split join
split_runs = refl

atoi_runs : (atoi "-7" ≡ some (negsuc 6)) × (atoi "9223372036854775808" ≡ none) × (atoi "" ≡ none)
unfolding atoi
atoi_runs = (refl, refl, refl)

run-document_example :
    run (document_events demo) (new_listener (new_system "s") 3)
    ≡ finished (new_system "s") (next_after demo.declarations 3) (document_of demo 3)
run-document_example = run-document demo (new_system "s") 3

run-document-is_some_example :
    is_some (run (document_events demo) (new_listener (new_system "s") 3))
    ≡ reads_values demo.declarations
run-document-is_some_example = run-document-is_some demo (new_system "s") 3

abbrev on_disk : String → Bool
on_disk file = file == "demo.idl"

abbrev trees : String → Option DocumentTree
trees file = some demo

demo-Holds : Holds on_disk trees ("demo.idl" ∷ "demo.idl" ∷ []) (demo ∷ demo ∷ [])
demo-Holds = (refl, refl, (refl, refl, tt))

load_idl_from_files-Holds_example :
    load_idl_from_files on_disk trees "s" ("demo.idl" ∷ "demo.idl" ∷ [])
    ≡ loaded "s" (modules_of (demo ∷ demo ∷ []) 0)
load_idl_from_files-Holds_example =
    load_idl_from_files-Holds on_disk trees "s" ("demo.idl" ∷ "demo.idl" ∷ []) (demo ∷ demo ∷ [])
      demo-Holds

one-Holds : Holds on_disk trees ("demo.idl" ∷ []) (demo ∷ [])
one-Holds = (refl, refl, tt)

no_file : on_disk "gone.idl" ≡ true → trees "gone.idl" ≡ none
no_file h = absurd (cc h)

abbrev demo_module : Module
demo_module = elim (document_of demo 0) [ some m ↦ m | none ↦ module_of demo 0 [] ]

made : modules_of (demo ∷ []) 0 ≡ some (demo_module ∷ [])
unfolding atoi
made = refl

load_idl_from_files-refusal_example :
    load_idl_from_files on_disk trees "s" ("demo.idl" ∷ "gone.idl" ∷ "demo.idl" ∷ [])
    ≡ fails (refusal on_disk trees "gone.idl")
load_idl_from_files-refusal_example =
    load_idl_from_files-refusal on_disk trees "s" ("demo.idl" ∷ []) (demo ∷ []) "gone.idl"
      ("demo.idl" ∷ []) one-Holds made no_file

abbrev demo_system : System
demo_system = let s = new_system "s" in record s { modules = demo_module ∷ [] }

demo_loads : load_idl_from_files on_disk trees "s" ("demo.idl" ∷ []) ≡ gives demo_system
demo_loads =
    load_idl_from_files-Holds on_disk trees "s" ("demo.idl" ∷ []) (demo ∷ []) one-Holds
    ∙ ap (loaded "s") made

abbrev level_property : TypedNode
level_property =
    property_of (record { metas = []; readonly = false; name = "level"; schema = level_type })

load_idl_from_files-IsLinked_example :
    IsLinked
      (some demo_system)
      demo_module
      level_property.schema
      (schema_validate (some demo_system) demo_module level_property.schema)
unfolding atoi
load_idl_from_files-IsLinked_example =
    load_idl_from_files-IsLinked on_disk trees "s" ("demo.idl" ∷ []) (demo ∷ []) demo_system
      demo_module level_property one-Holds demo_loads (inl refl) (inl refl)

abbrev before : Module
before = module_of demo 0 []

abbrev level_enum : Enum
level_enum = elim (enum_of 0 level) [
  | some e ↦ e
  | none ↦ record { addr = 0; node = before.node; members = [] }
]

abbrev after_level : Listener
after_level =
    in_module (new_system "s") 1 (record before { enums = before.enums ++ (level_enum ∷ []) })

level_walked : run (enum_events level) (in_module (new_system "s") 0 before) ≡ some after_level
unfolding atoi
level_walked = run-enum (new_system "s") 0 before level

run-enum-HasCounted_example : HasCounted (new_system "s") 0 before level after_level
run-enum-HasCounted_example = run-enum-HasCounted (new_system "s") 0 before level level_walked
