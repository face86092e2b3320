-- ===== src/Idl/Read/Values.antt =====
-- When a walk over a document panics: the values of the members of its enums.
use apigear_cli.Base.{
  ℕ, suc, String, Bool, true, false, Option, none, some, List, [], ◌∷◌, ◌≡◌, refl, ap, ◌∙◌, ◌&&◌,
}
use apigear_cli.Base.Int.{ℤ}
use apigear_cli.Model.Data.{Enum, EnumMember, System}
use apigear_cli.Idl.Tree.{
  EnumMemberTree, EnumTree, DeclarationTree, an_extern, an_interface, a_struct, an_enum,
  DocumentTree,
}
use apigear_cli.Idl.Text.{atoi}
use apigear_cli.Idl.Listener.{run, new_listener}
use apigear_cli.Idl.Walk.{document_events}
use apigear_cli.Idl.Build.{
  cons_option, valued_member, read_member, implicit_after, members_of, optional_enum, enums_of,
  optional_module, next_after,
}
use apigear_cli.Idl.Read.Whole.{finished, run-document}

abbrev pub is_some : {A : Type 0} → Option A → Bool
is_some none = false
is_some (some a) = true

-- The value of a member, if it has one, is a number that an int of 64 bits holds.
abbrev reads_value : Option String → Bool
reads_value none = true
reads_value (some text) = is_some (atoi text)

abbrev reads_members : List EnumMemberTree → Bool
reads_members [] = true
reads_members (t ∷ ts) = reads_value t.value && reads_members ts

-- So are the values of all members of the enums.
abbrev pub reads_values : List DeclarationTree → Bool
reads_values [] = true
reads_values (an_extern t ∷ ts) = reads_values ts
reads_values (an_interface t ∷ ts) = reads_values ts
reads_values (a_struct t ∷ ts) = reads_values ts
reads_values (an_enum t ∷ ts) = reads_members t.members && reads_values ts

cons_option-is_some :
    {A : Type 0} (x : Option A) (xs : Option (List A))
    → is_some (cons_option x xs) ≡ (is_some x && is_some xs)
cons_option-is_some none xs = refl
cons_option-is_some (some x) none = refl
cons_option-is_some (some x) (some xs) = refl

read_member-is_some : (t : EnumMemberTree) (v : Option ℤ) → is_some (read_member t v) ≡ is_some v
read_member-is_some t none = refl
read_member-is_some t (some v) = refl

valued_member-is_some :
    (t : EnumMemberTree) (n : ℕ) (v : Option String) → is_some (valued_member t n v) ≡ reads_value v
valued_member-is_some t n none = refl
valued_member-is_some t n (some text) = read_member-is_some t (atoi text)

members_of-is_some :
    (ts : List EnumMemberTree) (n : ℕ) → is_some (members_of ts n) ≡ reads_members ts
members_of-is_some [] n = refl
members_of-is_some (t ∷ ts) n =
    cons_option-is_some (valued_member t n t.value) (members_of ts (implicit_after n t.value))
    ∙ (λ i.
        valued_member-is_some t n t.value i && members_of-is_some ts (implicit_after n t.value) i)

optional_enum-is_some :
    (addr : ℕ) (t : EnumTree) (xs : Option (List EnumMember))
    → is_some (optional_enum addr t xs) ≡ is_some xs
optional_enum-is_some addr t none = refl
optional_enum-is_some addr t (some xs) = refl

enums_of-is_some :
    (ts : List DeclarationTree) (next : ℕ) → is_some (enums_of ts next) ≡ reads_values ts
enums_of-is_some [] next = refl
enums_of-is_some (an_extern t ∷ ts) next = enums_of-is_some ts next
enums_of-is_some (an_interface t ∷ ts) next = enums_of-is_some ts (suc next)
enums_of-is_some (a_struct t ∷ ts) next = enums_of-is_some ts (suc next)
enums_of-is_some (an_enum t ∷ ts) next =
    let members = members_of t.members 0 in
    cons_option-is_some (optional_enum next t members) (enums_of ts (suc next)) ∙ (λ i.
      (optional_enum-is_some next t members ∙ members_of-is_some t.members 0) i
      && enums_of-is_some ts (suc next) i)

finished-is_some :
    (system : System) (next addr : ℕ) (t : DocumentTree) (es : Option (List Enum))
    → is_some (finished system next (optional_module t addr es)) ≡ is_some es
finished-is_some system next addr t none = refl
finished-is_some system next addr t (some es) = refl

-- A walk over the tree of a document comes to its end without a panic exactly if the value of every
-- member of its enums that has one is a number that an int of 64 bits holds.
pub run-document-is_some :
    (t : DocumentTree) (system : System) (next : ℕ)
    → is_some (run (document_events t) (new_listener system next)) ≡ reads_values t.declarations
run-document-is_some t system next =
    ap is_some (run-document t system next)
    ∙ finished-is_some system (next_after t.declarations next) next t (enums_of t.declarations next)
    ∙ enums_of-is_some t.declarations next
