-- ===== src/Idl/Tree.antt =====
-- The trees that the generated parser makes of a text without a syntax error, with what
-- listener.go reads of them: a rule of pkg/idl/parser/ObjectApi.g4 for each type.
use apigear_cli.Base.{String, Bool, Option, List}

-- metaRule
pub data MetaTree : Type 0 where
  tag_line : String → MetaTree
  doc_line : String → MetaTree

-- primitiveSchema and symbolSchema
pub data TypeTree : Type 0 where
  primitive : String → TypeTree
  symbol : String → TypeTree

-- schemaRule
pub record SchemaTree : Type 0 where
  pub type : TypeTree
  pub is_array : Bool

-- propertyRule and structFieldRule, which have the same parts.
pub record PropertyTree : Type 0 where
  pub metas : List MetaTree
  pub readonly : Bool
  pub name : String
  pub schema : SchemaTree

-- operationParamRule
pub record ParamTree : Type 0 where
  pub name : String
  pub schema : SchemaTree

-- operationRule, with its operationReturnRule
pub record OperationTree : Type 0 where
  pub metas : List MetaTree
  pub name : String
  pub params : List ParamTree
  pub returns : Option SchemaTree

-- signalRule
pub record SignalTree : Type 0 where
  pub metas : List MetaTree
  pub name : String
  pub params : List ParamTree

-- interfaceMembersRule
pub data MemberTree : Type 0 where
  a_property : PropertyTree → MemberTree
  an_operation : OperationTree → MemberTree
  a_signal : SignalTree → MemberTree

-- interfaceRule
pub record InterfaceTree : Type 0 where
  pub metas : List MetaTree
  pub name : String
  pub extends : Option String
  pub members : List MemberTree

-- structRule
pub record StructTree : Type 0 where
  pub metas : List MetaTree
  pub name : String
  pub fields : List PropertyTree

-- enumMemberRule. The value is the text of an INTEGER.
pub record EnumMemberTree : Type 0 where
  pub metas : List MetaTree
  pub name : String
  pub value : Option String

-- enumRule
pub record EnumTree : Type 0 where
  pub metas : List MetaTree
  pub name : String
  pub members : List EnumMemberTree

-- externRule
pub record ExternTree : Type 0 where
  pub metas : List MetaTree
  pub name : String

-- declarationsRule
pub data DeclarationTree : Type 0 where
  an_extern : ExternTree → DeclarationTree
  an_interface : InterfaceTree → DeclarationTree
  a_struct : StructTree → DeclarationTree
  an_enum : EnumTree → DeclarationTree

-- importRule
pub record ImportTree : Type 0 where
  pub name : String
  pub version : Option String

-- moduleRule
pub record ModuleTree : Type 0 where
  pub metas : List MetaTree
  pub name : String
  pub version : Option String

-- documentRule, with its headerRule
pub record DocumentTree : Type 0 where
  pub module_ : ModuleTree
  pub imports : List ImportTree
  pub declarations : List DeclarationTree
