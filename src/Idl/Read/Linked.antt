-- ===== src/Idl/Read/Linked.antt =====
-- Loading modules with pkg/idl and resolving their types with Schema.Validate of pkg/model/schema.go,
-- one after the other.
use apigear_cli.Base.{ℕ, String, Bool, Option, none, some, List, [], ◌∷◌, ◌≡◌, refl, sym, ◌∙◌}
use apigear_cli.Base.Loop.{All, All-Elem}
use apigear_cli.Base.Lists.{Elem}
use apigear_cli.Model.Data.{TypedNode, Enum, Module, System, new_system}
use apigear_cli.Model.Resolve.{schema_validate}
use apigear_cli.Model.Resolve.Linked.{schema_validate-IsLinked}
use apigear_cli.Model.Resolve.Meant.{IsLinked}
use apigear_cli.Idl.Tree.{DocumentTree}
use apigear_cli.Idl.Build.{
  enums_of, cons_option, optional_module, module_of, document_of, next_after,
}
use apigear_cli.Idl.Parser.{gives, load_idl_from_files}
use apigear_cli.Idl.Read.Files.{Holds, modules_of, loaded, load_idl_from_files-Holds}
use apigear_cli.Idl.Read.Raw.{HasRaw, module_nodes, module_of-HasRaw}

abbrev AllRaw : Module → Type 0
AllRaw m = All HasRaw (module_nodes m)

optional_module-AllRaw :
    (t : DocumentTree) (next : ℕ) (es : Option (List Enum)) {m : Module}
    → optional_module t next es ≡ some m
    → AllRaw m
optional_module-AllRaw t next none made = absurd (cc made)
optional_module-AllRaw t next (some es) {m} made =
    let e : module_of t next es ≡ m = cc made in rw (← e) (module_of-HasRaw t next es)

cons_option-All :
    {A : Type 0} (P : A → Type 0) (x : Option A) (xs : Option (List A)) {ys : List A}
    → ((a : A) → x ≡ some a → P a)
    → ((zs : List A) → xs ≡ some zs → All P zs)
    → cons_option x xs ≡ some ys
    → All P ys
cons_option-All P none xs p q made = absurd (cc made)
cons_option-All P (some x) none p q made = absurd (cc made)
cons_option-All P (some x) (some xs) {ys} p q made =
    let e : x ∷ xs ≡ ys = cc made in rw (← e) (p x refl, q xs refl)

modules_of-AllRaw :
    (ts : List DocumentTree) (next : ℕ) {ms : List Module}
    → modules_of ts next ≡ some ms
    → All AllRaw ms
modules_of-AllRaw [] next {ms} made = let e : [] ≡ ms = cc made in rw (← e) tt
modules_of-AllRaw (t ∷ ts) next made =
    cons_option-All AllRaw (document_of t next) (modules_of ts (next_after t.declarations next))
      (λ x h. optional_module-AllRaw t next (enums_of t.declarations next) h)
      (λ ms h. modules_of-AllRaw ts (next_after t.declarations next) h) made

loaded-AllRaw :
    (name : String) (ms : Option (List Module)) {sys : System}
    → ((zs : List Module) → ms ≡ some zs → All AllRaw zs)
    → loaded name ms ≡ gives sys
    → All AllRaw sys.modules
loaded-AllRaw name none all made = absurd (cc made)
loaded-AllRaw name (some ms) {sys} all made =
    let e : record (new_system name) { modules = ms } ≡ sys = cc made in rw (← e) (all ms refl)

-- Where files that hold documents are loaded as a system, Validate makes of the schema of every typed
-- node of every module what its type text means there: void, a primitive type, or the first of an
-- extern, an enum, a struct and an interface of that name, to whose object it points (for an extern, to
-- none), in the module that its import means. Where there is none of these, the kind stays and nothing is
-- pointed to.
pub load_idl_from_files-IsLinked :
    (is_file : String → Bool) (file_tree : String → Option DocumentTree) (name : String)
    (files : List String) (ts : List DocumentTree) (sys : System) (m : Module) (t : TypedNode)
    → Holds is_file file_tree files ts
    → load_idl_from_files is_file file_tree name files ≡ gives sys
    → Elem m sys.modules
    → Elem t (module_nodes m)
    → IsLinked (some sys) m t.schema (schema_validate (some sys) m t.schema)
load_idl_from_files-IsLinked is_file file_tree name files ts sys m t holds made at inside =
    let same = sym (load_idl_from_files-Holds is_file file_tree name files ts holds) ∙ made in
    let all = loaded-AllRaw name (modules_of ts 0) (λ zs h. modules_of-AllRaw ts 0 h) same in
    schema_validate-IsLinked (some sys) m t.schema
      (All-Elem HasRaw (module_nodes m) (All-Elem AllRaw sys.modules all at) inside)
