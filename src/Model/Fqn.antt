-- ===== src/Model/Fqn.antt =====
-- FQNSplit2, FQNSplit3 and System.LookupNode of system.go, and the short names of base.go.
use Prim.Native.Char.{Char}
use mathlib.Core.Option
use apigear_cli.Base.{◌≡◌, refl, ◌∙◌, String, false, Option, none, some, List, [], ◌∷◌, ◌<>◌, ap}
use apigear_cli.Base.Text.{
  char, split, join, has_char, unsnoc, unsnoc-append, split-ne-nil, join-split, split-append,
  split_plain,
}
use apigear_cli.Model.Data.{NamedNode, Module, System}
use apigear_cli.Model.Lookup.{
  lookup_module, system_lookup, lookup_local_interface, lookup_member, lookup_node,
}

abbrev pub dot : Char
dot = "."

abbrev pub hash : Char
hash = "#"

abbrev join_front : Option (List String × String) → Option (String × String)
join_front none = none
join_front (some ([], last)) = none
join_front (some (p ∷ ps, last)) = some (join "." (p ∷ ps), last)

-- parts[:len(parts)-1] joined by dots, and the last part, where there are two parts at least.
unfoldable pub split_last : String → Option (String × String)
split_last fqn = join_front (unsnoc (split dot fqn))

-- FQNSplit2
unfoldable pub fqn_split2 : String → String × String
unfolding split_last
fqn_split2 fqn = Option.get_or (split_last fqn) ("", "")

abbrev with_member : String → Option (String × String) → String × String × String
with_member member none = ("", "", "")
with_member member (some (module_name, element)) = (module_name, element, member)

abbrev split3 : Option (List String × String) → String × String × String
split3 none = ("", "", "")
split3 (some (front, member)) = with_member member (join_front (unsnoc front))

-- FQNSplit3: the module, the element and the member.
unfoldable pub fqn_split3 : String → String × String × String
fqn_split3 fqn = split3 (unsnoc (split dot fqn))

-- NamedNode.ShortName, and ShortName of a Module: the last part of the name.
unfoldable pub short_name : String → String
short_name name =
    Option.get_or (Option.map (λ (r : List String × String). r.1) (unsnoc (split dot name))) ""

lookup_member_at : System → String → String → Option (String × String) → Option NamedNode
lookup_member_at s fqn member none = none
lookup_member_at s fqn member (some (module_name, name)) =
    elim (system_lookup lookup_local_interface s module_name name) [
      | none ↦ none
      | some i ↦ lookup_member i member
    ]

lookup_node_at : System → Option (String × String) → Option NamedNode
lookup_node_at s none = none
lookup_node_at s (some (module_name, name)) = elim (lookup_module s module_name) [
  | none ↦ none
  | some m ↦ lookup_node (some s) m module_name name
]

lookup_parts : System → List String → Option NamedNode
unfolding lookup_member_at lookup_node_at split_last
lookup_parts s (node ∷ member ∷ []) = lookup_member_at s node member (split_last node)
lookup_parts s (node ∷ []) = lookup_node_at s (split_last node)
lookup_parts s _ = none

-- System.LookupNode: a node by module.Name, or a member by module.Interface#member.
unfoldable pub system_lookup_node : System → String → Option NamedNode
unfolding lookup_parts
system_lookup_node s fqn = lookup_parts s (split hash fqn)

-- The parts of a name with one more part behind it.
unsnoc-split :
    (front last : String)
    → has_char dot last ≡ false
    → unsnoc (split dot (front <> (char dot <> last))) ≡ some (split dot front, last)
unsnoc-split front last plain =
    rw (split-append dot front last, split_plain dot last plain) (unsnoc-append _ last)

join_front-split :
    (front last : String) → join_front (some (split dot front, last)) ≡ some (front, last)
join_front-split front last =
    let (w, ws, h) = split-ne-nil dot front in
    rw h (ap (λ (t : String). some (t, last)) (rw (← h) (join-split dot front)))

pub split_last-append :
    (front last : String)
    → has_char dot last ≡ false
    → split_last (front <> (char dot <> last)) ≡ some (front, last)
unfolding split_last
split_last-append front last plain =
    ap join_front (unsnoc-split front last plain) ∙ join_front-split front last

-- FQNSplit2 takes apart what a dot has joined, if no dot is in the second name; the first may be
-- a path with dots.
pub fqn_split2-append :
    (module_name name : String)
    → has_char dot name ≡ false
    → fqn_split2 (module_name <> ("." <> name)) ≡ (module_name, name)
unfolding fqn_split2
fqn_split2-append module_name name plain =
    ap (λ (o : Option (String × String)). Option.get_or o ("", ""))
      (split_last-append module_name name plain)

-- FQNSplit3 takes a member's full name apart, if no dot is in the names of the element and member.
pub fqn_split3-append :
    (module_name element member : String)
    → has_char dot element ≡ false
    → has_char dot member ≡ false
    → fqn_split3 ((module_name <> ("." <> element)) <> ("." <> member))
      ≡ (module_name, element, member)
unfolding fqn_split3 split_last
fqn_split3-append module_name element member plain plain' =
    ap split3 (unsnoc-split (module_name <> (char dot <> element)) member plain')
    ∙ ap (with_member member) (split_last-append module_name element plain)

-- LookupNode of a name without a member, whose module there is.
pub system_lookup_node-lookup_node :
    (s : System) (fqn module_name name : String) {m : Module}
    → has_char hash fqn ≡ false
    → split_last fqn ≡ some (module_name, name)
    → lookup_module s module_name ≡ some m
    → system_lookup_node s fqn ≡ lookup_node (some s) m module_name name
unfolding system_lookup_node
system_lookup_node-lookup_node s fqn module_name name no_hash parts found =
    rw (split_plain hash fqn no_hash) (rw (parts, lookup_node_at, found) refl)
