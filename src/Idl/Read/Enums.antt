-- ===== src/Idl/Read/Enums.antt =====
-- What the listener of pkg/idl/listener.go makes of an enum is what the tree says, and a walk over it
-- panics where the tree has a value that is no number.
use apigear_cli.Base.{ℕ, suc, String, Option, none, some, List, [], ◌∷◌, ◌++◌, ◌≡◌, refl, sym, ◌∙◌}
use apigear_cli.Base.Int.{ℤ, pos}
use apigear_cli.Base.Loop.{concat_map}
use apigear_cli.Base.Lists.{append-cons, append-nil}
use apigear_cli.Model.Data.{Enum, EnumMember, Module, System, new_enum, new_enum_member}
use apigear_cli.Idl.Tree.{EnumMemberTree, EnumTree}
use apigear_cli.Idl.Text.{atoi}
use apigear_cli.Idl.Listener.{
  Listener, run, handle, use_, exit_enum, member_value, enter_member, explicit_value, Event,
  exit_enum_member, meta_enum,
}
use apigear_cli.Idl.Walk.{enum_member_events, enum_events}
use apigear_cli.Idl.Build.{
  members_of, read_member, valued_member, implicit_after, optional_enum, cons_option, member_of,
  enum_of,
}
use apigear_cli.Idl.Read.States.{in_module, in_enum}

module _ (system : System) (next : ℕ) (m : Module) where
  abbrev entered : Enum → ℕ → Listener
  entered e running = in_enum (in_module system next m) e running

  -- The members, and then the rest: either none of them panics, or the walk ends there.
  abbrev closed : EnumTree → Enum → Option (List EnumMember) → Option Listener
  closed t e none = none
  closed t e (some xs) = some (
      in_module system next (record m {
        enums = m.enums ++ (record (meta_enum t.metas e) { members = e.members ++ xs } ∷ []);
      }))

  closed-cons :
      (t : EnumTree) (e : Enum) (x : EnumMember) (xs : Option (List EnumMember))
      → closed t (record e { members = e.members ++ (x ∷ []) }) xs
        ≡ closed t e (cons_option (some x) xs)
  closed-cons t e x none = refl
  closed-cons t e x (some xs) =
      λ i. closed t (record e { members = [] }) (some (append-cons e.members x xs i))

  -- What follows a member.
  abbrev rest_of : EnumTree → EnumMemberTree → List EnumMemberTree → List Event
  rest_of t x ts = exit_enum_member x ∷ concat_map enum_member_events ts ++ (exit_enum t ∷ [])

  abbrev added : Enum → EnumMember → Enum
  added e x = record e { members = e.members ++ (x ∷ []) }

  -- A member with a value, where what follows it is known.
  run-explicit :
      (t : EnumTree) (x : EnumMemberTree) (ts : List EnumMemberTree) (e : Enum) (n : ℕ)
      → ((e : Enum)
          → run (concat_map enum_member_events ts ++ (exit_enum t ∷ [])) (entered e n)
            ≡ closed t e (members_of ts n))
      → (value : Option ℤ)
      → use_ (enter_member x.name (entered e n) (explicit_value n value)) (run (rest_of t x ts))
        ≡ closed t e (cons_option (read_member x value) (members_of ts n))
  unfolding run handle new_enum_member
  run-explicit t x ts e n after none = refl
  run-explicit t x ts e n after (some value) =
      after (added e (member_of x value)) ∙ closed-cons t e (member_of x value) (members_of ts n)

  run-valued :
      (t : EnumTree) (x : EnumMemberTree) (ts : List EnumMemberTree)
      → ((e : Enum) (n : ℕ)
          → run (concat_map enum_member_events ts ++ (exit_enum t ∷ [])) (entered e n)
            ≡ closed t e (members_of ts n))
      → (e : Enum) (n : ℕ) (value : Option String)
      → use_ (enter_member x.name (entered e n) (member_value value n)) (run (rest_of t x ts))
        ≡ closed t e
            (cons_option (valued_member x n value) (members_of ts (implicit_after n value)))
  unfolding run handle new_enum_member
  run-valued t x ts after e n none =
      after (added e (member_of x (pos n))) (suc n)
      ∙ closed-cons t e (member_of x (pos n)) (members_of ts (suc n))
  run-valued t x ts after e n (some text) = run-explicit t x ts e n (λ e. after e n) (atoi text)

  run-members_then_exit :
      (t : EnumTree) (ts : List EnumMemberTree) (e : Enum) (n : ℕ)
      → run (concat_map enum_member_events ts ++ (exit_enum t ∷ [])) (entered e n)
        ≡ closed t e (members_of ts n)
  unfolding run handle
  run-members_then_exit t [] e n =
      λ i. closed t (record e { members = [] }) (some (sym (append-nil e.members) i))
  run-members_then_exit t (x ∷ ts) e n = run-valued t x ts (run-members_then_exit t ts) e n x.value

-- The module after an enum, unless the walk ended in a panic.
abbrev pub enum_added : System → ℕ → Module → Option Enum → Option Listener
enum_added system next m none = none
enum_added system next m (some e) =
    some (in_module system next (record m { enums = m.enums ++ (e ∷ []) }))

closed-optional :
    (system : System) (next addr : ℕ) (m : Module) (t : EnumTree) (xs : Option (List EnumMember))
    → closed system next m t (new_enum addr t.name) xs
      ≡ enum_added system next m (optional_enum addr t xs)
unfolding new_enum
closed-optional system next addr m t none = refl
closed-optional system next addr m t (some xs) = refl

module _ (system : System) (next : ℕ) (m : Module) where
  pub run-enum :
      (t : EnumTree)
      → run (enum_events t) (in_module system next m)
        ≡ enum_added system (suc next) m (enum_of next t)
  unfolding run handle
  run-enum t =
      run-members_then_exit system (suc next) m t t.members (new_enum next t.name) 0
      ∙ closed-optional system (suc next) next m t (members_of t.members 0)
