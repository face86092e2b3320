-- ===== src/Spec/Words/Lists.antt =====
-- The lists of reserved words of pkg/spec/rkw/reserved.go.
use apigear_cli.Base.{String, List, [], ◌∷◌}

-- cppReservedKeywords
abbrev pub cpp_words : List String
cpp_words =
    "alignas" ∷ "alignof" ∷ "and" ∷ "and_eq" ∷ "asm" ∷ "auto" ∷ "bitand" ∷ "bitor" ∷ "bool"
    ∷ "break" ∷ "case" ∷ "catch" ∷ "char" ∷ "char8_t" ∷ "char16_t" ∷ "char32_t" ∷ "class" ∷ "compl"
    ∷ "concept" ∷ "const" ∷ "consteval" ∷ "constexpr" ∷ "const_cast" ∷ "continue" ∷ "co_await"
    ∷ "co_return" ∷ "co_yield" ∷ "decltype" ∷ "default" ∷ "delete" ∷ "do" ∷ "double"
    ∷ "dynamic_cast" ∷ "else" ∷ "enum" ∷ "explicit" ∷ "export" ∷ "extern" ∷ "false" ∷ "float"
    ∷ "for" ∷ "friend" ∷ "goto" ∷ "if" ∷ "inline" ∷ "int" ∷ "long" ∷ "mutable" ∷ "namespace" ∷ "new"
    ∷ "noexcept" ∷ "not" ∷ "not_eq" ∷ "nullptr" ∷ "operator" ∷ "or" ∷ "or_eq" ∷ "private"
    ∷ "protected" ∷ "public" ∷ "register" ∷ "reinterpret_cast" ∷ "requires" ∷ "return" ∷ "short"
    ∷ "signed" ∷ "sizeof" ∷ "static" ∷ "static_assert" ∷ "static_cast" ∷ "struct" ∷ "switch"
    ∷ "synchronized" ∷ "template" ∷ "this" ∷ "thread_local" ∷ "throw" ∷ "true" ∷ "try" ∷ "typedef"
    ∷ "typeid" ∷ "typename" ∷ "union" ∷ "unsigned" ∷ "using" ∷ "virtual" ∷ "void" ∷ "volatile"
    ∷ "wchar_t" ∷ "while" ∷ "xor" ∷ "xor_eq" ∷ []

-- pyReservedKeywords
abbrev pub py_words : List String
py_words =
    "false" ∷ "none" ∷ "true" ∷ "and" ∷ "as" ∷ "assert" ∷ "async" ∷ "await" ∷ "break" ∷ "class"
    ∷ "continue" ∷ "def" ∷ "del" ∷ "elif" ∷ "else" ∷ "except" ∷ "finally" ∷ "for" ∷ "from"
    ∷ "global" ∷ "if" ∷ "import" ∷ "in" ∷ "is" ∷ "lambda" ∷ "nonlocal" ∷ "not" ∷ "or" ∷ "pass"
    ∷ "raise" ∷ "return" ∷ "try" ∷ "while" ∷ "with" ∷ "yield" ∷ []

-- tsReservedKeywords
abbrev pub ts_words : List String
ts_words =
    "abstract" ∷ "any" ∷ "as" ∷ "assert" ∷ "async" ∷ "await" ∷ "boolean" ∷ "break" ∷ "byte" ∷ "case"
    ∷ "catch" ∷ "char" ∷ "class" ∷ "const" ∷ "continue" ∷ "debugger" ∷ "default" ∷ "delete" ∷ "do"
    ∷ "double" ∷ "else" ∷ "enum" ∷ "export" ∷ "extends" ∷ "false" ∷ "final" ∷ "finally" ∷ "float"
    ∷ "for" ∷ "function" ∷ "goto" ∷ "if" ∷ "implements" ∷ "import" ∷ "in" ∷ "instanceof" ∷ "int"
    ∷ "interface" ∷ "is" ∷ "long" ∷ "module" ∷ "namespace" ∷ "native" ∷ "new" ∷ "null" ∷ "number"
    ∷ "package" ∷ "private" ∷ "protected" ∷ "public" ∷ "return" ∷ "short" ∷ "static" ∷ "super"
    ∷ "switch" ∷ "synchronized" ∷ "this" ∷ "throw" ∷ "throws" ∷ "transient" ∷ "true" ∷ "try"
    ∷ "typeof" ∷ "var" ∷ "void" ∷ "volatile" ∷ "while" ∷ "with" ∷ "yield" ∷ []

-- jsReservedKeywords
abbrev pub js_words : List String
js_words =
    "abstract" ∷ "arguments" ∷ "await" ∷ "boolean" ∷ "break" ∷ "byte" ∷ "case" ∷ "catch" ∷ "char"
    ∷ "class" ∷ "const" ∷ "continue" ∷ "debugger" ∷ "default" ∷ "delete" ∷ "do" ∷ "double" ∷ "else"
    ∷ "enum" ∷ "eval" ∷ "export" ∷ "extends" ∷ "false" ∷ "final" ∷ "finally" ∷ "float" ∷ "for"
    ∷ "function" ∷ "goto" ∷ "if" ∷ "implements" ∷ "import" ∷ "in" ∷ "instanceof" ∷ "int"
    ∷ "interface" ∷ "let" ∷ "long" ∷ "native" ∷ "new" ∷ "null" ∷ "package" ∷ "private" ∷ "protected"
    ∷ "public" ∷ "return" ∷ "short" ∷ "static" ∷ "super" ∷ "switch" ∷ "synchronized" ∷ "this"
    ∷ "throw" ∷ "throws" ∷ "transient" ∷ "true" ∷ "try" ∷ "typeof" ∷ "var" ∷ "void" ∷ "volatile"
    ∷ "while" ∷ "with" ∷ "yield" ∷ []

-- goReservedKeywords
abbrev pub go_words : List String
go_words =
    "break" ∷ "case" ∷ "chan" ∷ "const" ∷ "continue" ∷ "default" ∷ "defer" ∷ "else" ∷ "fallthrough"
    ∷ "for" ∷ "func" ∷ "go" ∷ "goto" ∷ "if" ∷ "import" ∷ "interface" ∷ "map" ∷ "package" ∷ "range"
    ∷ "return" ∷ "select" ∷ "struct" ∷ "switch" ∷ "type" ∷ "var" ∷ []

-- unrealCPlusPlusKeywords
abbrev pub unreal_words : List String
unreal_words = "uclass" ∷ "ufunction" ∷ "uproperty" ∷ "aactor" ∷ "uobject" ∷ "uactorcomponent" ∷ []

-- qtReservedKeywords
abbrev pub qt_words : List String
qt_words =
    "q_object" ∷ "signals" ∷ "slots" ∷ "q_property" ∷ "q_declare_interface" ∷ "q_interfaces"
    ∷ "q_enum" ∷ "q_flag" ∷ []
