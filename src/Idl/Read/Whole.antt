-- ===== src/Idl/Read/Whole.antt =====
-- The walk of pkg/idl/parser.go over the tree of a whole document.
use apigear_cli.Base.{ℕ, suc, Option, none, some, List, [], ◌∷◌, ◌++◌, map, ◌≡◌, refl, sym, ap, ◌∙◌}
use apigear_cli.Base.Loop.{concat_map}
use apigear_cli.Base.Lists.{append-cons, append-nil, append_assoc}
use apigear_cli.Model.Data.{Enum, Import, Module, System, new_module, new_import}
use apigear_cli.Idl.Tree.{
  DeclarationTree, an_extern, an_interface, a_struct, an_enum, DocumentTree, ImportTree, ExternTree,
  InterfaceTree, StructTree, EnumTree,
}
use apigear_cli.Idl.Listener.{
  Listener, new_listener, run, handle, use_, exit_document, enter_import, version_or_1, meta_module,
  Event,
}
use apigear_cli.Idl.Walk.{
  extern_events, interface_events, struct_events, enum_events, declaration_events, document_events,
}
use apigear_cli.Idl.Build.{
  extern_of, interface_of, struct_of, enum_of, externs_of, interfaces_of, structs_of, enums_of,
  next_after, cons_option, import_of, optional_module, document_of,
}
use apigear_cli.Idl.Read.States.{in_module, run-append, run-then, run-each}
use apigear_cli.Idl.Read.Declared.{run-extern, run-interface, run-struct}
use apigear_cli.Idl.Read.Enums.{run-enum, enum_added}

-- The module with the declarations added, unless the value of a member is no number.
abbrev declared : Module → List DeclarationTree → ℕ → Option (List Enum) → Option Module
declared m ts next none = none
declared m ts next (some enums) = some (record m {
  externs = m.externs ++ externs_of ts;
  interfaces = m.interfaces ++ interfaces_of ts next;
  structs = m.structs ++ structs_of ts next;
  enums = m.enums ++ enums;
})

-- The listener after a document: the module is the last one of the system.
abbrev pub finished : System → ℕ → Option Module → Option Listener
finished system next none = none
finished system next (some m) =
    some (new_listener (record system { modules = system.modules ++ (m ∷ []) }) next)

-- What is declared first is added first.
module _ (m : Module) (ts : List DeclarationTree) (next : ℕ) where
  declared-extern :
      (t : ExternTree) (es : Option (List Enum))
      → declared (record m { externs = m.externs ++ (extern_of t ∷ []) }) ts next es
        ≡ declared m (an_extern t ∷ ts) next es
  declared-extern t none = refl
  declared-extern t (some es) = λ i. some (record m {
    externs = append-cons m.externs (extern_of t) (externs_of ts) i;
    interfaces = m.interfaces ++ interfaces_of ts next;
    structs = m.structs ++ structs_of ts next;
    enums = m.enums ++ es;
  })

  declared-interface :
      (t : InterfaceTree) (es : Option (List Enum))
      → declared
          (record m { interfaces = m.interfaces ++ (interface_of next t ∷ []) })
          ts
          (suc next)
          es
        ≡ declared m (an_interface t ∷ ts) next es
  declared-interface t none = refl
  declared-interface t (some es) = λ i. some (record m {
    externs = m.externs ++ externs_of ts;
    interfaces = append-cons m.interfaces (interface_of next t) (interfaces_of ts (suc next)) i;
    structs = m.structs ++ structs_of ts (suc next);
    enums = m.enums ++ es;
  })

  declared-struct :
      (t : StructTree) (es : Option (List Enum))
      → declared (record m { structs = m.structs ++ (struct_of next t ∷ []) }) ts (suc next) es
        ≡ declared m (a_struct t ∷ ts) next es
  declared-struct t none = refl
  declared-struct t (some es) = λ i. some (record m {
    externs = m.externs ++ externs_of ts;
    interfaces = m.interfaces ++ interfaces_of ts (suc next);
    structs = append-cons m.structs (struct_of next t) (structs_of ts (suc next)) i;
    enums = m.enums ++ es;
  })

  declared-enum :
      (t : EnumTree) (e : Enum) (es : Option (List Enum))
      → declared (record m { enums = m.enums ++ (e ∷ []) }) ts (suc next) es
        ≡ declared m (an_enum t ∷ ts) next (cons_option (some e) es)
  declared-enum t e none = refl
  declared-enum t e (some es) = λ i. some (record m {
    externs = m.externs ++ externs_of ts;
    interfaces = m.interfaces ++ interfaces_of ts (suc next);
    structs = m.structs ++ structs_of ts (suc next);
    enums = append-cons m.enums e es i;
  })

module _ (system : System) where
  abbrev rest : List DeclarationTree → List Event
  rest ts = concat_map declaration_events ts ++ (exit_document ∷ [])

  abbrev end_of : Module → List DeclarationTree → ℕ → Option (List Enum) → Option Listener
  end_of m ts next es = finished system (next_after ts next) (declared m ts next es)

  run-rest-enum :
      (m : Module) (t : EnumTree) (ts : List DeclarationTree) (next : ℕ)
      → ((m : Module)
          → run (rest ts) (in_module system (suc next) m)
            ≡ end_of m ts (suc next) (enums_of ts (suc next)))
      → (e : Option Enum)
      → use_ (enum_added system (suc next) m e) (run (rest ts))
        ≡ end_of m (an_enum t ∷ ts) next (cons_option e (enums_of ts (suc next)))
  run-rest-enum m t ts next after none = refl
  run-rest-enum m t ts next after (some e) =
      after (record m { enums = m.enums ++ (e ∷ []) })
      ∙ ap (finished system (next_after ts (suc next)))
          (declared-enum m ts next t e (enums_of ts (suc next)))

  run-rest :
      (ts : List DeclarationTree) (next : ℕ) (m : Module)
      → run (rest ts) (in_module system next m) ≡ end_of m ts next (enums_of ts next)
  unfolding run handle
  run-rest [] next m = λ i. some (
      new_listener
        (record system {
          modules =
              system.modules
              ++ (record m {
                externs = sym (append-nil m.externs) i;
                interfaces = sym (append-nil m.interfaces) i;
                structs = sym (append-nil m.structs) i;
                enums = sym (append-nil m.enums) i;
              }
                  ∷ []);
        })
        next)
  run-rest (an_extern t ∷ ts) next m =
      run-then (extern_events t) (rest ts) (in_module system next m) (run-extern system next m t)
      ∙ run-rest ts next (record m { externs = m.externs ++ (extern_of t ∷ []) })
      ∙ ap (finished system (next_after ts next)) (declared-extern m ts next t (enums_of ts next))
  run-rest (an_interface t ∷ ts) next m =
      ap (λ f. run f (in_module system next m))
        (append_assoc (interface_events t) (concat_map declaration_events ts) (exit_document ∷ []))
      ∙ run-then (interface_events t) (rest ts) (in_module system next m)
          (run-interface system next m t)
      ∙ run-rest ts (suc next)
          (record m { interfaces = m.interfaces ++ (interface_of next t ∷ []) })
      ∙ ap (finished system (next_after ts (suc next)))
          (declared-interface m ts next t (enums_of ts (suc next)))
  run-rest (a_struct t ∷ ts) next m =
      ap (λ f. run f (in_module system next m))
        (append_assoc (struct_events t) (concat_map declaration_events ts) (exit_document ∷ []))
      ∙ run-then (struct_events t) (rest ts) (in_module system next m) (run-struct system next m t)
      ∙ run-rest ts (suc next) (record m { structs = m.structs ++ (struct_of next t ∷ []) })
      ∙ ap (finished system (next_after ts (suc next)))
          (declared-struct m ts next t (enums_of ts (suc next)))
  run-rest (an_enum t ∷ ts) next m =
      ap (λ f. run f (in_module system next m))
        (append_assoc (enum_events t) (concat_map declaration_events ts) (exit_document ∷ []))
      ∙ run-append (enum_events t) (rest ts) (in_module system next m)
      ∙ ap (λ r. use_ r (run (rest ts))) (run-enum system next m t)
      ∙ run-rest-enum m t ts next (run-rest ts (suc next)) (enum_of next t)

  run-import :
      (next : ℕ) (m : Module) (t : ImportTree) (is : List Import)
      → run (enter_import t ∷ []) (in_module system next (record m { imports = is }))
        ≡ some (in_module system next (record m { imports = is ++ (import_of t ∷ []) }))
  unfolding run handle new_import
  run-import next m t is = refl

-- The module with its name, comments and imports, before the first declaration.
abbrev started : DocumentTree → Module
started t =
    record (meta_module t.module_.metas
      (new_module t.module_.name (version_or_1 t.module_.version))) {
        imports = map import_of t.imports;
      }

declared-started :
    (t : DocumentTree) (next : ℕ) (es : Option (List Enum))
    → declared (started t) t.declarations next es ≡ optional_module t next es
unfolding new_module
declared-started t next none = refl
declared-started t next (some es) = refl

-- A walk over the tree of a document appends to the system's modules the module that the tree says,
-- and leaves the listener as it was made, but for the addresses given out; it panics exactly if
-- that module cannot be made, since the value of a member of an enum is no number that an int holds.
pub run-document :
    (t : DocumentTree) (system : System) (next : ℕ)
    → run (document_events t) (new_listener system next)
      ≡ finished system (next_after t.declarations next) (document_of t next)
unfolding run handle new_module
run-document t system next =
    let m =
      meta_module t.module_.metas (new_module t.module_.name (version_or_1 t.module_.version)) in
    run-then (concat_map (λ i. enter_import i ∷ []) t.imports) (rest system t.declarations)
      (in_module system next m)
      (run-each (λ i. enter_import i ∷ []) import_of
        (λ is. in_module system next (record m { imports = is })) (run-import system next m)
        t.imports [])
    ∙ run-rest system t.declarations next (started t)
    ∙ ap (finished system (next_after t.declarations next))
        (declared-started t next (enums_of t.declarations next))
