-- ===== src/Idl/Read/Declared.antt =====
-- What the listener of pkg/idl/listener.go makes of an interface, a struct and an extern is what
-- the tree says.
use apigear_cli.Base.{
  ℕ, suc, String, Option, none, some, List, [], ◌∷◌, ◌++◌, ◌≡◌, refl, sym, ap, ◌∙◌,
}
use apigear_cli.Base.Loop.{concat_map}
use apigear_cli.Base.Lists.{append-cons, append-nil}
use apigear_cli.Model.Data.{
  TypedNode, Interface, Struct, Module, System, new_typed_node, new_interface, new_struct,
  new_extern, field,
}
use apigear_cli.Idl.Tree.{
  PropertyTree, MemberTree, a_property, an_operation, a_signal, InterfaceTree, StructTree,
  ExternTree,
}
use apigear_cli.Idl.Listener.{
  Listener, run, handle, exit_field, exit_interface, exit_struct, extending, meta_struct,
}
use apigear_cli.Idl.Walk.{
  schema_events, property_events, operation_events, signal_events, field_events, member_events,
  interface_events, struct_events, extern_events,
}
use apigear_cli.Idl.Build.{
  property_of, operation_of, signal_of, field_of, properties_of, operations_of, signals_of,
  interface_of, struct_of, extern_of, extends_of,
}
use apigear_cli.Idl.Read.States.{in_module, in_interface, in_struct, run-then, run-each}
use apigear_cli.Idl.Read.Members.{run-schema, run-property, run-operation, run-signal}

module _ (system : System) (next : ℕ) (m : Module) where
  abbrev at : Interface → Listener
  at i = in_interface (in_module system next m) i

  abbrev with_members : Interface → List MemberTree → Interface
  with_members i ts = record i {
    properties = i.properties ++ properties_of ts;
    operations = i.operations ++ operations_of ts;
    signals = i.signals ++ signals_of ts;
  }

  run-members :
      (ts : List MemberTree) (i : Interface)
      → run (concat_map member_events ts) (at i) ≡ some (at (with_members i ts))
  unfolding run
  run-members [] i = λ n. some (
      at (record i {
        properties = sym (append-nil i.properties) n;
        operations = sym (append-nil i.operations) n;
        signals = sym (append-nil i.signals) n;
      }))
  run-members (a_property t ∷ ts) i =
      run-then (property_events t) (concat_map member_events ts) (at i)
        (run-property system next m t i)
      ∙ run-members ts (record i { properties = i.properties ++ (property_of t ∷ []) })
      ∙ ap (λ ps. some (at (record (with_members i ts) { properties = ps })))
          (append-cons i.properties (property_of t) (properties_of ts))
  run-members (an_operation t ∷ ts) i =
      run-then (operation_events t) (concat_map member_events ts) (at i)
        (run-operation system next m t i)
      ∙ run-members ts (record i { operations = i.operations ++ (operation_of t ∷ []) })
      ∙ ap (λ os. some (at (record (with_members i ts) { operations = os })))
          (append-cons i.operations (operation_of t) (operations_of ts))
  run-members (a_signal t ∷ ts) i =
      run-then (signal_events t) (concat_map member_events ts) (at i) (run-signal system next m t i)
      ∙ run-members ts (record i { signals = i.signals ++ (signal_of t ∷ []) })
      ∙ ap (λ ss. some (at (record (with_members i ts) { signals = ss })))
          (append-cons i.signals (signal_of t) (signals_of ts))

  -- The interface that is entered has the parts that a tree says, and no members.
  abbrev bare : ℕ → InterfaceTree → Option String → Interface
  bare addr t extends = extending extends (new_interface addr t.name)

  run-interface-from :
      (t : InterfaceTree) (extends : Option String) (addr : ℕ)
      → run
          (concat_map member_events t.members ++ (exit_interface t ∷ []))
          (at (bare addr t extends))
        ≡ some (
            in_module system next (record m {
              interfaces =
                  m.interfaces
                  ++ (record (interface_of addr t) { extends = extends_of extends } ∷ []);
            }))
  unfolding run handle new_interface
  run-interface-from t none addr =
      run-then (concat_map member_events t.members) (exit_interface t ∷ []) (at (bare addr t none))
        (run-members t.members (bare addr t none))
  run-interface-from t (some extends) addr =
      run-then (concat_map member_events t.members) (exit_interface t ∷ [])
        (at (bare addr t (some extends))) (run-members t.members (bare addr t (some extends)))

  run-field :
      (x : Struct) (t : PropertyTree) (fs : List TypedNode)
      → run (field_events t) (in_struct (in_module system next m) (record x { fields = fs }))
        ≡ some (in_struct (in_module system next m) (record x { fields = fs ++ (field_of t ∷ []) }))
  unfolding run handle new_typed_node
  run-field x t fs =
      let f = new_typed_node t.name field in
      let s = record (in_struct (in_module system next m) (record x { fields = fs })) {
        field_ = some (record f { is_read_only = t.readonly });
      } in
      run-then (schema_events t.schema) (exit_field t ∷ []) s (run-schema t.schema s)

  run-struct-from :
      (t : StructTree) (addr : ℕ)
      → run
          (concat_map field_events t.fields ++ (exit_struct t ∷ []))
          (in_struct (in_module system next m) (meta_struct t.metas (new_struct addr t.name)))
        ≡ some (in_module system next (record m { structs = m.structs ++ (struct_of addr t ∷ []) }))
  unfolding run handle new_struct
  run-struct-from t addr =
      let x = meta_struct t.metas (new_struct addr t.name) in
      run-then (concat_map field_events t.fields) (exit_struct t ∷ [])
        (in_struct (in_module system next m) x)
        (run-each field_events field_of
          (λ fs. in_struct (in_module system next m) (record x { fields = fs })) (run-field x)
          t.fields [])

module _ (system : System) (next : ℕ) (m : Module) where
  pub run-extern :
      (t : ExternTree)
      → run (extern_events t) (in_module system next m)
        ≡ some (in_module system next (record m { externs = m.externs ++ (extern_of t ∷ []) }))
  unfolding run handle new_extern
  run-extern t = refl

  pub run-interface :
      (t : InterfaceTree)
      → run (interface_events t) (in_module system next m)
        ≡ some (
            in_module system
              (suc next)
              (record m { interfaces = m.interfaces ++ (interface_of next t ∷ []) }))
  unfolding run handle
  run-interface t = run-interface-from system (suc next) m t t.extends next

  pub run-struct :
      (t : StructTree)
      → run (struct_events t) (in_module system next m)
        ≡ some (
            in_module system
              (suc next)
              (record m { structs = m.structs ++ (struct_of next t ∷ []) }))
  unfolding run handle
  run-struct t = run-struct-from system (suc next) m t next
