-- ===== src/Idl/Listener/Members.antt =====
-- The methods of pkg/idl/listener.go for interfaces and what is in them. A method that dereferences a
-- nil pointer gives `none`. The checks IsNil and IsNotNil only log.
use apigear_cli.Base.{suc, Option, none, some, [], ◌∷◌, ◌++◌}
use apigear_cli.Model.Data.{
  new_typed_node, new_signal, new_operation, new_interface, property, return_, param,
}
use apigear_cli.Idl.Tree.{PropertyTree, ParamTree, OperationTree, SignalTree, InterfaceTree}
use apigear_cli.Idl.Listener.State.{
  extending, use_, meta_interface, meta_typed, meta_operation, meta_signal, add_param, Listener,
}

-- ObjectApiListener.EnterInterfaceRule
abbrev pub enter_interface_rule : InterfaceTree → Listener → Option Listener
enter_interface_rule c s = some (record s {
  next = suc s.next;
  iface = some (extending c.extends (new_interface s.next c.name));
})

-- ObjectApiListener.ExitInterfaceRule
abbrev pub exit_interface_rule : InterfaceTree → Listener → Option Listener
exit_interface_rule c s = use_ s.iface λ i. use_ s.module_ λ m. some (record s {
  module_ = some (record m { interfaces = m.interfaces ++ (meta_interface c.metas i ∷ []) });
  iface = none;
})

-- ObjectApiListener.EnterPropertyRule
abbrev pub enter_property_rule : PropertyTree → Listener → Option Listener
enter_property_rule c s =
    let p = new_typed_node c.name property in
    some (record s { property_ = some (record p { is_read_only = c.readonly }) })

-- ObjectApiListener.ExitPropertyRule
abbrev pub exit_property_rule : PropertyTree → Listener → Option Listener
exit_property_rule c s = use_ s.property_ λ p. use_ s.schema λ schema. use_ s.iface λ i.
    let p' = meta_typed c.metas p in
    some (record s {
      iface = some (record i { properties = i.properties ++ (record p' { schema = schema } ∷ []) });
      schema = none;
      property_ = none;
    })

-- ObjectApiListener.EnterOperationRule
abbrev pub enter_operation_rule : OperationTree → Listener → Option Listener
enter_operation_rule c s = some (record s { operation_ = some (new_operation c.name) })

-- ObjectApiListener.ExitOperationRule
abbrev pub exit_operation_rule : OperationTree → Listener → Option Listener
exit_operation_rule c s = use_ s.operation_ λ o. use_ s.iface λ i.
    let o' = meta_operation c.metas o in
    some (record s {
      iface =
          some (record i {
            operations = i.operations ++ (record o' { returns = s.return_node } ∷ []);
          });
      operation_ = none;
      param_ = none;
      return_node = none;
      schema = none;
    })

-- ObjectApiListener.EnterOperationReturnRule
abbrev pub enter_operation_return_rule : Listener → Option Listener
enter_operation_return_rule s = some (record s { return_node = some (new_typed_node "" return_) })

-- ObjectApiListener.ExitOperationReturnRule
abbrev pub exit_operation_return_rule : Listener → Option Listener
exit_operation_return_rule s = use_ s.return_node λ r. use_ s.schema λ schema.
    use_ s.operation_ λ o.
      let r' = record r { schema = schema } in
      some (record s {
        return_node = some r';
        operation_ = some (record o { returns = some r' });
        schema = none;
      })

-- ObjectApiListener.EnterOperationParamRule
abbrev pub enter_operation_param_rule : ParamTree → Listener → Option Listener
enter_operation_param_rule c s = some (record s { param_ = some (new_typed_node c.name param) })

-- ObjectApiListener.ExitOperationParamRule
abbrev pub exit_operation_param_rule : ParamTree → Listener → Option Listener
exit_operation_param_rule c s = use_ s.param_ λ p. use_ s.schema λ schema.
    let s' = add_param s.operation_ s.signal_ (record p { schema = schema }) s in
    some (record s' { param_ = none; schema = none })

-- ObjectApiListener.EnterSignalRule
abbrev pub enter_signal_rule : SignalTree → Listener → Option Listener
enter_signal_rule c s = some (record s { signal_ = some (new_signal c.name) })

-- ObjectApiListener.ExitSignalRule
abbrev pub exit_signal_rule : SignalTree → Listener → Option Listener
exit_signal_rule c s = use_ s.signal_ λ sig. use_ s.iface λ i. some (record s {
  iface = some (record i { signals = i.signals ++ (meta_signal c.metas sig ∷ []) });
  schema = none;
  signal_ = none;
})
