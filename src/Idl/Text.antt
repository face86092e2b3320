-- ===== src/Idl/Text.antt =====
-- How listener.go reads texts: the lines of comments, names with dots, and numbers.
use Prim.Native.Char.{Char, code}
use apigear_cli.Base.{
  ℕ, ◌+◌, ◌-◌, ◌*◌, ◌^◌, String, Bool, ◌&&◌, ◌||◌, Option, none, some, List, [], ◌∷◌, if◌then◌else◌,
  nat_eq, ltb, leb,
}
use apigear_cli.Base.Int.{ℤ, pos, negsuc}
use apigear_cli.Base.Text.{char, split, join, unsnoc}
use apigear_cli.Model.Data.{NamedNode}
use apigear_cli.Idl.Tree.{MetaTree, tag_line, doc_line}

-- unicode.IsSpace
abbrev is_space : Char → Bool
is_space c =
    let n = code c in
    (leb 9 n && leb n 13)
    || nat_eq n 32
    || nat_eq n 0x85
    || nat_eq n 0xa0
    || nat_eq n 0x1680
    || (leb 0x2000 n && leb n 0x200a)
    || nat_eq n 0x2028
    || nat_eq n 0x2029
    || nat_eq n 0x202f
    || nat_eq n 0x205f
    || nat_eq n 0x3000

-- strings.TrimLeftFunc
trim_left : (Char → Bool) → String → String
trim_left test String.[] = ""
trim_left test (String.◌∷◌ c s) =
    let rest = trim_left test s in if test c then rest else String.◌∷◌ c s

-- strings.TrimRightFunc
trim_right : (Char → Bool) → String → String
trim_right test String.[] = ""
trim_right test (String.◌∷◌ c s) = elim (trim_right test s) [
  | String.[] ↦ if test c then "" else char c
  | String.◌∷◌ d t ↦ String.◌∷◌ c (String.◌∷◌ d t)
]

-- strings.TrimSpace
abbrev trim_space : String → String
trim_space s = trim_right is_space (trim_left is_space s)

-- The line of a comment, without the slashes before it.
abbrev doc_text : String → String
doc_text text = trim_space (trim_left (λ c. nat_eq (code c) 47) text)

-- docLines at the end of the loop of parseMeta.
abbrev doc_lines : List MetaTree → List String
doc_lines [] = []
doc_lines (tag_line text ∷ metas) = doc_lines metas
doc_lines (doc_line text ∷ metas) = doc_text text ∷ doc_lines metas

abbrev described : List String → NamedNode → NamedNode
described [] node = node
described (line ∷ lines) node = record node { description = join "\n" (line ∷ lines) }

-- ObjectApiListener.parseMeta, but for Meta.
unfoldable pub parse_meta : List MetaTree → NamedNode → NamedNode
unfolding trim_left trim_right
parse_meta metas node = described (doc_lines metas) node

abbrev import_and_name : String → Option (List String × String) → String × String
import_and_name name none = ("", name)
import_and_name name (some ([], last)) = ("", name)
import_and_name name (some (part ∷ parts, last)) = (join "." (part ∷ parts), last)

-- A name with dots: what is before the last dot is the import.
unfoldable pub split_symbol : String → String × String
split_symbol name = import_and_name name (unsnoc (split "." name))

digits_value : ℕ → String → Option ℕ
digits_value n String.[] = some n
digits_value n (String.◌∷◌ c s) =
    let rest = digits_value (n * 10 + (code c - 48)) s in
    if leb 48 (code c) && leb (code c) 57 then rest else none

-- The digits of a number; there is one at least.
unsigned : String → Option ℕ
unfolding digits_value
unsigned String.[] = none
unsigned (String.◌∷◌ c s) = digits_value 0 (String.◌∷◌ c s)

abbrev in_range_pos : Option ℕ → Option ℤ
in_range_pos none = none
in_range_pos (some n) = if ltb n (2 ^ 63) then some (pos n) else none

abbrev in_range_neg : Option ℕ → Option ℤ
in_range_neg none = none
in_range_neg (some n) =
    if nat_eq n 0 then some (pos 0) else if leb n (2 ^ 63) then some (negsuc (n - 1)) else none

-- strconv.Atoi, for an int of 64 bits; `none` is the error.
unfoldable pub atoi : String → Option ℤ
unfolding unsigned
atoi String.[] = none
atoi (String.◌∷◌ c s) =
    if nat_eq (code c) 45
    then in_range_neg (unsigned s)
    else in_range_pos (unsigned (if nat_eq (code c) 43 then s else String.◌∷◌ c s))
