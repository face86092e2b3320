-- ===== src/Idl/Listener/Types.antt =====
-- The methods of pkg/idl/listener.go for modules, imports, externs, structs, enums and schemas. A
-- method that dereferences a nil pointer, or panics, gives `none`. The checks IsNil and IsNotNil only
-- log.
use apigear_cli.Base.{suc, String, true, Option, none, some, [], ◌∷◌, ◌++◌}
use apigear_cli.Model.Data.{
  new_typed_node, new_struct, new_enum, new_extern, new_import, new_module, field,
}
use apigear_cli.Idl.Tree.{
  PropertyTree, StructTree, EnumMemberTree, EnumTree, ExternTree, ImportTree, ModuleTree,
}
use apigear_cli.Idl.Listener.State.{
  version_or_1, empty_schema, with_symbol, use_, meta_module, meta_extern, meta_typed, meta_struct,
  meta_enum, meta_member, member_value, enter_member, Listener,
}

-- ObjectApiListener.EnterModuleRule
abbrev pub enter_module_rule : ModuleTree → Listener → Option Listener
enter_module_rule c s =
    some (record s { module_ = some (new_module c.name (version_or_1 c.version)) })

-- ObjectApiListener.ExitModuleRule
abbrev pub exit_module_rule : ModuleTree → Listener → Option Listener
exit_module_rule c s =
    use_ s.module_ λ m. some (record s { module_ = some (meta_module c.metas m) })

-- ObjectApiListener.EnterImportRule
abbrev pub enter_import_rule : ImportTree → Listener → Option Listener
enter_import_rule c s = use_ s.module_ λ m. some (record s {
  module_ =
      some (record m { imports = m.imports ++ (new_import c.name (version_or_1 c.version) ∷ []) });
})

-- ObjectApiListener.EnterExternRule
abbrev pub enter_extern_rule : ExternTree → Listener → Option Listener
enter_extern_rule c s = some (record s { extern_ = some (new_extern c.name) })

-- ObjectApiListener.ExitExternRule
abbrev pub exit_extern_rule : ExternTree → Listener → Option Listener
exit_extern_rule c s = use_ s.extern_ λ x. use_ s.module_ λ m. some (record s {
  module_ = some (record m { externs = m.externs ++ (meta_extern c.metas x ∷ []) });
  extern_ = none;
})

-- ObjectApiListener.EnterStructRule
abbrev pub enter_struct_rule : StructTree → Listener → Option Listener
enter_struct_rule c s = some (record s {
  next = suc s.next;
  struct_ = some (meta_struct c.metas (new_struct s.next c.name));
})

-- ObjectApiListener.ExitStructRule
abbrev pub exit_struct_rule : StructTree → Listener → Option Listener
exit_struct_rule c s = use_ s.module_ λ m. use_ s.struct_ λ x. some (record s {
  module_ = some (record m { structs = m.structs ++ (x ∷ []) });
  schema = none;
  struct_ = none;
})

-- ObjectApiListener.EnterStructFieldRule
abbrev pub enter_struct_field_rule : PropertyTree → Listener → Option Listener
enter_struct_field_rule c s =
    let f = new_typed_node c.name field in
    some (record s { field_ = some (record f { is_read_only = c.readonly }) })

-- ObjectApiListener.ExitStructFieldRule
abbrev pub exit_struct_field_rule : PropertyTree → Listener → Option Listener
exit_struct_field_rule c s = use_ s.field_ λ f. use_ s.schema λ schema. use_ s.struct_ λ x.
    let f' = meta_typed c.metas f in
    some (record s {
      struct_ = some (record x { fields = x.fields ++ (record f' { schema = schema } ∷ []) });
      field_ = none;
      schema = none;
    })

-- ObjectApiListener.EnterEnumRule
abbrev pub enter_enum_rule : EnumTree → Listener → Option Listener
enter_enum_rule c s =
    some (record s { next = suc s.next; enum_ = some (new_enum s.next c.name); running_value = 0 })

-- ObjectApiListener.ExitEnumRule
abbrev pub exit_enum_rule : EnumTree → Listener → Option Listener
exit_enum_rule c s = use_ s.enum_ λ e. use_ s.module_ λ m. some (record s {
  module_ = some (record m { enums = m.enums ++ (meta_enum c.metas e ∷ []) });
  running_value = 0;
  enum_ = none;
})

-- ObjectApiListener.EnterEnumMemberRule
abbrev pub enter_enum_member_rule : EnumMemberTree → Listener → Option Listener
enter_enum_member_rule c s = enter_member c.name s (member_value c.value s.running_value)

-- ObjectApiListener.ExitEnumMemberRule
abbrev pub exit_enum_member_rule : EnumMemberTree → Listener → Option Listener
exit_enum_member_rule c s = use_ s.enum_member λ x. use_ s.enum_ λ e. some (record s {
  enum_ = some (record e { members = e.members ++ (meta_member c.metas x ∷ []) });
  enum_member = none;
})

-- ObjectApiListener.EnterSchemaRule
abbrev pub enter_schema_rule : Listener → Option Listener
enter_schema_rule s = some (record s { schema = some empty_schema })

-- ObjectApiListener.ExitSchemaRule
abbrev pub exit_schema_rule : Listener → Option Listener
exit_schema_rule s = use_ s.schema λ schema. some s

-- ObjectApiListener.EnterPrimitiveSchema
abbrev pub enter_primitive_schema : String → Listener → Option Listener
enter_primitive_schema name s =
    use_ s.schema λ schema.
      some (record s { schema = some (record schema { type = name; is_primitive = true }) })

-- ObjectApiListener.EnterSymbolSchema
abbrev pub enter_symbol_schema : String → Listener → Option Listener
enter_symbol_schema name s =
    use_ s.schema λ schema. some (record s { schema = some (with_symbol name schema) })

-- ObjectApiListener.EnterArrayRule
abbrev pub enter_array_rule : Listener → Option Listener
enter_array_rule s =
    use_ s.schema λ schema. some (record s { schema = some (record schema { is_array = true }) })

-- ObjectApiListener.ExitDocumentRule
abbrev pub exit_document_rule : Listener → Option Listener
exit_document_rule s = use_ s.module_ λ m.
    let system = s.system in
    some
      (record s { system = record system { modules = system.modules ++ (m ∷ []) }; module_ = none })
