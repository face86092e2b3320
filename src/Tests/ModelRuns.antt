-- ===== src/Tests/ModelRuns.antt =====
-- The theorems on pkg/model at a small system.
use apigear_cli.Base.{
  ◌≡◌, refl, ◌↔◌, String, false, Option, none, some, List, [], ◌∷◌, ◌==◌, ◌<>◌, ◌+◌, ◌<◌, ◌^◌,
  arith, if◌then◌else◌, Bool-cases, eq_iff, inl, inr,
}
use text.Mathlib.TextLemmas.{cons-append}
use apigear_cli.Base.Lists.{sum, Elem, contains, find_by}
use apigear_cli.Base.Text.{has_char}
use apigear_cli.Base.Int.{pos}
use apigear_cli.Base.Loop.{do_all, each}
use apigear_cli.Model.Data.{
  Schema, TypedNode, Interface, Struct, Enum, Module, System, new_typed_node, new_signal,
  new_operation, new_interface, new_struct, new_enum, new_enum_member, new_module, new_system,
  property,
}
use apigear_cli.Model.Fqn.{
  dot, hash, system_lookup_node, fqn_split2, fqn_split3, fqn_split2-append, fqn_split3-append,
}
use apigear_cli.Model.Naming.{then_each, checked}
use apigear_cli.Model.Lookup.{lookup_extern, lookup_enum}
use apigear_cli.Model.Resolve.{schema_validate, typed_validate}
use apigear_cli.Model.Resolve.Sound.{IsRaw}
use apigear_cli.Model.Resolve.Linked.{schema_validate-IsLinked}
use apigear_cli.Model.Resolve.Meant.{IsLinked}
use apigear_cli.Model.Validate.{
  signal_validate, operation_validate, interface_validate, enum_validate,
}
use apigear_cli.Model.Validate.Whole.{module_validate, system_validate}
use apigear_cli.Model.Validate.Whole.Linked.{
  NodeIsRaw, InterfaceIsRaw, InterfaceIsLinked, interface_validate-InterfaceIsLinked,
}
use apigear_cli.Model.Validate.Whole.WellNamed.{
  InterfaceIsNamed, ModuleIsNamed, SystemIsNamed, interface_validate-none_iff,
}
use apigear_cli.Model.Validate.Whole.Found.{system_lookup_node-interface}
use apigear_cli.Model.Validate.Whole.Values.{HasValues, enum_validate-HasValues}
use apigear_cli.Model.Validate.Whole.Accepts.{module_validate-none_iff}
use apigear_cli.Model.Validate.Whole.Systems.{system_validate-none_iff}
use apigear_cli.Model.Identify.{compute_identifier}
use apigear_cli.Model.Identify.Numbering.{
  all_ids, module_ids, module_size, count_from, compute_identifier-count_from,
}
use apigear_cli.Model.Visit.{ModelVisitor, accept_system}
use apigear_cli.Model.Visit.Order.{call, system_visits, accept_system-do_all}

abbrev typed : String → String → TypedNode
typed name type =
    let t = new_typed_node name property in
    let schema = t.schema in record t { schema = record schema { type = type } }

abbrev counter : Interface
counter =
    let i = new_interface 1 "Counter" in
    record i {
      properties = typed "count" "Mode" ∷ [];
      operations = new_operation "increment" ∷ [];
      signals = new_signal "changed" ∷ [];
    }

abbrev point : Struct
point = let s = new_struct 2 "Point" in record s { fields = typed "x" "int" ∷ typed "y" "int" ∷ [] }

abbrev mode : Enum
mode =
    let e = new_enum 3 "Mode" in
    record e { members = new_enum_member "Fast" (pos 0) ∷ new_enum_member "Slow" (pos 0) ∷ [] }

abbrev simple : Module
simple =
    let m = new_module "tb.simple" "1.0" in
    record m { interfaces = counter ∷ []; structs = point ∷ []; enums = mode ∷ [] }

abbrev demo : System
demo = let s = new_system "demo" in record s { modules = simple ∷ [] }

counter_plain : has_char dot "Counter" ≡ false
unfolding has_char
counter_plain = refl

count_plain : has_char dot "count" ≡ false
unfolding has_char
count_plain = refl

fqn_split2-append_example :
    fqn_split2 ("tb.simple" <> ("." <> "Counter")) ≡ ("tb.simple", "Counter")
fqn_split2-append_example = fqn_split2-append "tb.simple" "Counter" counter_plain

fqn_split3-append_example :
    fqn_split3 (("tb.simple" <> ("." <> "Counter")) <> ("." <> "count"))
    ≡ ("tb.simple", "Counter", "count")
fqn_split3-append_example =
    fqn_split3-append "tb.simple" "Counter" "count" counter_plain count_plain

abbrev raw_schema : Schema
raw_schema = let t = typed "count" "Mode" in t.schema

raw_schema-IsRaw : IsRaw raw_schema
unfolding new_typed_node
raw_schema-IsRaw = record {
  valid = refl;
  computed = refl;
  resolved = refl;
  struct_ = refl;
  enum_ = refl;
  interface_ = refl;
}

schema_validate-IsLinked_example :
    IsLinked (some demo) simple raw_schema (schema_validate (some demo) simple raw_schema)
schema_validate-IsLinked_example =
    schema_validate-IsLinked (some demo) simple raw_schema raw_schema-IsRaw

-- The pointer that is set is the enum's address.
raw_schema_linked : (schema_validate (some demo) simple raw_schema).enum_ ≡ some 3
unfolding schema_validate new_typed_node new_module new_enum contains lookup_extern find_by
    lookup_enum
raw_schema_linked = refl

interface_validate-none_iff_example :
    ((interface_validate (some demo) simple counter).0 ≡ none) ↔ InterfaceIsNamed counter
interface_validate-none_iff_example = interface_validate-none_iff (some demo) simple counter

-- An interface that extends another, with an operation that has no result.
abbrev child : Interface
child =
    let i = new_interface 5 "Child" in
    let o = new_operation "step" in
    let g = new_signal "moved" in
    record i {
      extends = record { name = "Counter"; import_ = ""; reference = none };
      properties = typed "mode" "Mode" ∷ typed "other" "Missing" ∷ [];
      operations = record o { params = typed "by" "int" ∷ []; returns = none } ∷ [];
      signals = record g { params = typed "at" "Point" ∷ [] } ∷ [];
    }

typed-NodeIsRaw : (name type : String) → NodeIsRaw (typed name type)
unfolding new_typed_node
typed-NodeIsRaw name type = record {
  valid = refl;
  computed = refl;
  resolved = refl;
  struct_ = refl;
  enum_ = refl;
  interface_ = refl;
}

child_raw : InterfaceIsRaw child
unfolding new_interface
child_raw = record {
  properties = (typed-NodeIsRaw "mode" "Mode", (typed-NodeIsRaw "other" "Missing", tt));
  operations = (((typed-NodeIsRaw "by" "int", tt), tt), tt);
  signals = ((typed-NodeIsRaw "at" "Point", tt), tt);
}

child_valid : (interface_validate (some demo) simple child).0 ≡ none
unfolding interface_validate new_typed_node new_interface new_operation new_signal then_each checked
    contains typed_validate operation_validate signal_validate
child_valid = refl

interface_validate-InterfaceIsLinked_example :
    InterfaceIsLinked (some demo) simple child (interface_validate (some demo) simple child).1
interface_validate-InterfaceIsLinked_example =
    interface_validate-InterfaceIsLinked (some demo) simple child child_raw child_valid

abbrev digest : String → String
digest text = "md5:" <> text

digest_ne : (t : String) → (digest t == "") ≡ false
digest_ne t = elim (Bool-cases (digest t == "")) [
  | inr e ↦ e
  | inl e ↦ absurd (cc ((eq_iff (digest t) "").0 e, cons-append "m" "d5:" t))
]

module_validate-none_iff_example :
    ((module_validate digest (some demo) simple).0 ≡ none) ↔ ModuleIsNamed simple
module_validate-none_iff_example = module_validate-none_iff digest (some demo) simple

system_validate-none_iff_example : ((system_validate digest demo).0 ≡ none) ↔ SystemIsNamed demo
system_validate-none_iff_example = system_validate-none_iff digest digest_ne demo

demo_small : 1 + sum module_size demo.modules < 2 ^ 64
unfolding sum new_system new_module new_interface new_struct new_enum
demo_small = omega arith

compute_identifier-count_from_example :
    all_ids module_ids (compute_identifier demo).modules
    ≡ count_from 1 (sum module_size demo.modules)
compute_identifier-count_from_example = compute_identifier-count_from demo demo_small

-- A visitor that collects names, and stops at a property of the name "y".
abbrev note : String → List String → Option String × List String
note name names = (none, name ∷ names)

abbrev collector : ModelVisitor String (List String)
collector = record {
  visit_system = λ s. note s.name;
  visit_module = λ m. note m.name;
  visit_extern = λ e. note e.name;
  visit_interface = λ i. note i.name;
  visit_operation = λ o. note o.name;
  visit_parameter = λ p. note p.name;
  visit_signal = λ s. note s.name;
  visit_struct = λ s. note s.name;
  visit_enum = λ e. note e.name;
  visit_enum_member = λ m. note m.name;
  visit_typed_node = λ t names. if t.name == "y" then (some "stop", names) else note t.name names;
}

accept_system-do_all_example :
    accept_system collector demo ≡ do_all (call collector) (system_visits demo)
accept_system-do_all_example = accept_system-do_all collector demo

mode_valid : (enum_validate mode).0 ≡ none
unfolding enum_validate each checked contains new_enum new_enum_member
mode_valid = refl

enum_validate-HasValues_example : HasValues mode.members (enum_validate mode).1.members
enum_validate-HasValues_example = enum_validate-HasValues mode mode_valid

demo_named : SystemIsNamed demo
unfolding contains new_system new_module new_interface new_struct new_enum new_enum_member
    new_operation new_signal new_typed_node
demo_named = record {
  modules = (
    record {
      interfaces = ((refl, (refl, (refl, tt))), tt);
      structs = ((refl, (refl, tt)), tt);
      enums = ((refl, (refl, tt)), tt);
      elements = (refl, (refl, (refl, tt)));
    },
    tt,
  );
  distinct = (refl, tt);
}

no_hash : has_char hash (simple.name <> ("." <> counter.name)) ≡ false
unfolding has_char new_module new_interface
no_hash = refl

named_plain : has_char dot counter.name ≡ false
unfolding has_char new_interface
named_plain = refl

counter_inside : Elem counter simple.interfaces
counter_inside = inl refl

simple_inside : Elem simple demo.modules
simple_inside = inl refl

system_lookup_node-interface_example :
    system_lookup_node demo (simple.name <> ("." <> counter.name)) ≡ some counter.node
system_lookup_node-interface_example =
    system_lookup_node-interface demo simple counter demo_named simple_inside counter_inside
      named_plain no_hash
