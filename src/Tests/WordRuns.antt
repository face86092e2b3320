-- ===== src/Tests/WordRuns.antt =====
-- The theorems on reserved words, at a reserved word and at a struct with a field of that name.
use apigear_cli.Base.{◌≡◌, refl, ◌↔◌, String, some, none, [], ◌∷◌}
use apigear_cli.Base.Lists.{contains}
use apigear_cli.Base.Dict.{lookup}
use apigear_cli.Model.Data.{
  Struct, Module, System, field, new_struct, new_module, new_system, new_typed_node,
}
use apigear_cli.Model.Words.{
  system_check_reserved, module_check_reserved, struct_check_reserved, typed_check_reserved,
}
use apigear_cli.Model.Words.Warned.{SystemIsFree, system_check_reserved-nil_iff}
use apigear_cli.Spec.Words.{
  is_keyword_reserved, check_and_escape_name, reserved_langs, langs_onto, check_is_reserved,
  is_keyword_in_langs, is_keyword_reserved_in_lang,
}
use apigear_cli.Spec.Words.Escaped.{check_and_escape_name-none}

abbrev same : String → String
same s = s

else_runs :
    is_keyword_reserved same "else" ≡ some ("cpp" ∷ "py" ∷ "ts" ∷ "js" ∷ "go" ∷ "ue" ∷ "qt" ∷ [])
unfolding is_keyword_reserved reserved_langs langs_onto
else_runs = refl

check_and_escape_name-none_example :
    is_keyword_reserved same (check_and_escape_name same "class" "type").1 ≡ none
check_and_escape_name-none_example = check_and_escape_name-none same (λ s. refl) "class" "type"

abbrev demo_struct : Struct
demo_struct =
    let s = new_struct 0 "Point" in record s { fields = new_typed_node "class" field ∷ [] }

abbrev demo_module : Module
demo_module = let m = new_module "demo" "1.0" in record m { structs = demo_struct ∷ [] }

abbrev demo_system : System
demo_system = let s = new_system "s" in record s { modules = demo_module ∷ [] }

demo_warns :
    system_check_reserved same ("ts" ∷ "go" ∷ []) demo_system
    ≡ record { scope = "type"; name = "class"; langs = "ts" ∷ [] } ∷ []
unfolding system_check_reserved module_check_reserved struct_check_reserved typed_check_reserved
    new_system new_module new_struct new_typed_node check_is_reserved is_keyword_in_langs
    is_keyword_reserved_in_lang contains lookup
demo_warns = refl

system_check_reserved-nil_iff_example :
    (system_check_reserved same ("ts" ∷ "go" ∷ []) demo_system ≡ [])
    ↔ SystemIsFree same ("ts" ∷ "go" ∷ []) demo_system
system_check_reserved-nil_iff_example =
    system_check_reserved-nil_iff same ("ts" ∷ "go" ∷ []) demo_system
