-- ===== src/Idl/Read/Members.antt =====
-- What the listener of pkg/idl/listener.go makes of a schema, a typed node, an operation and a
-- signal is what the tree says.
use apigear_cli.Base.{
  ℕ, Bool, true, false, Option, none, some, List, [], ◌∷◌, ◌++◌, map, ◌≡◌, refl, ap, ◌∙◌,
}
use apigear_cli.Base.Loop.{concat_map}
use apigear_cli.Model.Data.{
  Operation, Signal, Interface, Module, System, TypedNode, property, param, operation, return_,
  named, new_typed_node, new_operation, new_signal,
}
use apigear_cli.Idl.Tree.{
  TypeTree, primitive, symbol, SchemaTree, PropertyTree, ParamTree, OperationTree, SignalTree,
}
use apigear_cli.Idl.Text.{parse_meta}
use apigear_cli.Idl.Listener.{
  Listener, run, handle, exit_param, exit_property, exit_return, exit_operation, exit_signal, use_,
}
use apigear_cli.Idl.Walk.{
  typed_events, schema_events, property_events, param_events, return_events, operation_events,
  signal_events,
}
use apigear_cli.Idl.Build.{
  typed_schema, schema_of, property_of, param_of, optional_return, operation_of, signal_of,
}
use apigear_cli.Idl.Read.States.{
  in_module, in_interface, in_operation, in_signal, run-append, run-then, run-each,
}

run-typed :
    (t : TypeTree) (is_array : Bool) (s : Listener)
    → run (typed_events t is_array) s ≡ some (record s { schema = some (typed_schema t is_array) })
unfolding run handle
run-typed (primitive name) true s = refl
run-typed (primitive name) false s = refl
run-typed (symbol name) true s = refl
run-typed (symbol name) false s = refl

pub run-schema :
    (t : SchemaTree) (s : Listener)
    → run (schema_events t) s ≡ some (record s { schema = some (schema_of t) })
run-schema t s = run-typed t.type t.is_array s

-- The listener with nothing but a module and an interface.
module _ (system : System) (next : ℕ) (m : Module) where
  abbrev at : Interface → Listener
  at i = in_interface (in_module system next m) i

  pub run-property :
      (t : PropertyTree) (i : Interface)
      → run (property_events t) (at i)
        ≡ some (at (record i { properties = i.properties ++ (property_of t ∷ []) }))
  unfolding run handle new_typed_node
  run-property t i =
      let p = new_typed_node t.name property in
      let s = record (at i) { property_ = some (record p { is_read_only = t.readonly }) } in
      run-then (schema_events t.schema) (exit_property t ∷ []) s (run-schema t.schema s)

  run-operation_param :
      (i : Interface) (o : Operation) (t : ParamTree) (xs : List TypedNode)
      → run (param_events t) (in_operation (at i) (record o { params = xs }))
        ≡ some (in_operation (at i) (record o { params = xs ++ (param_of t ∷ []) }))
  unfolding run handle new_typed_node
  run-operation_param i o t xs =
      let s = record (in_operation (at i) (record o { params = xs })) {
        param_ = some (new_typed_node t.name param);
      } in
      run-then (schema_events t.schema) (exit_param t ∷ []) s (run-schema t.schema s)

  run-signal_param :
      (i : Interface) (sig : Signal) (t : ParamTree) (xs : List TypedNode)
      → run (param_events t) (in_signal (at i) (record sig { params = xs }))
        ≡ some (in_signal (at i) (record sig { params = xs ++ (param_of t ∷ []) }))
  unfolding run handle new_typed_node
  run-signal_param i sig t xs =
      let s = record (in_signal (at i) (record sig { params = xs })) {
        param_ = some (new_typed_node t.name param);
      } in
      run-then (schema_events t.schema) (exit_param t ∷ []) s (run-schema t.schema s)

  run-return :
      (t : OperationTree) (returns : Option SchemaTree) (i : Interface) (ps : List TypedNode)
      → run
          (return_events returns ++ (exit_operation t ∷ []))
          (in_operation (at i) (record (new_operation t.name) { params = ps }))
        ≡ some (
            at (record i {
              operations =
                  i.operations
                  ++ (record {
                    node = parse_meta t.metas (named t.name operation);
                    params = ps;
                    returns = optional_return returns;
                  }
                      ∷ []);
            }))
  unfolding run handle new_operation
  run-return t none i ps = refl
  run-return t (some schema) i ps =
      let o = record (new_operation t.name) { params = ps } in
      let s = record (in_operation (at i) o) { return_node = some (new_typed_node "" return_) } in
      run-append (schema_events schema ++ (exit_return ∷ [])) (exit_operation t ∷ []) s
      ∙ ap (λ r. use_ r (run (exit_operation t ∷ [])))
          (run-then (schema_events schema) (exit_return ∷ []) s (run-schema schema s))

  pub run-operation :
      (t : OperationTree) (i : Interface)
      → run (operation_events t) (at i)
        ≡ some (at (record i { operations = i.operations ++ (operation_of t ∷ []) }))
  unfolding run handle new_operation
  run-operation t i =
      let o = new_operation t.name in
      run-then (concat_map param_events t.params)
        (return_events t.returns ++ (exit_operation t ∷ [])) (in_operation (at i) o)
        (run-each param_events param_of (λ xs. in_operation (at i) (record o { params = xs }))
          (run-operation_param i o) t.params [])
      ∙ run-return t t.returns i (map param_of t.params)

  pub run-signal :
      (t : SignalTree) (i : Interface)
      → run (signal_events t) (at i)
        ≡ some (at (record i { signals = i.signals ++ (signal_of t ∷ []) }))
  unfolding run handle new_signal
  run-signal t i =
      let sig = new_signal t.name in
      run-then (concat_map param_events t.params) (exit_signal t ∷ []) (in_signal (at i) sig) (
        run-each param_events param_of (λ xs. in_signal (at i) (record sig { params = xs }))
          (run-signal_param i sig) t.params [])
