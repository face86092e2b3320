-- ===== src/Signals/Hook.antt =====
-- Hook of pkg/helper/hook.go. The lock makes each method one step. The id that makeHookId answers is an
-- argument of AddHook and PreAddHook. A handler is a value of a type H; what a call of it does to the
-- rest of the program, the hook included, is the parameter `call`.
use apigear_cli.Base.{
  ℕ, String, Bool, false, List, [], ◌∷◌, ◌++◌, ◌==◌, if◌then◌else◌, ◌≡◌, refl, ap, ◌∙◌, eq_iff,
  arith, eq_refl, Bool-cases, inl, inr, ◌||◌,
}
use apigear_cli.Base.Lists.{length}

-- entry[T]
pub record HookEntry (H : Type 0) : Type 0 where
  pub id : String
  pub h : H

-- A call of a method that changes the hook.
pub data HookCall (H : Type 0) : Type 0 where
  adds pre_adds : String → H → HookCall H
  removes : String → HookCall H
  clears : HookCall H

module _ {H : Type 0} where
  -- The first entry of that id, if there is one, is taken out: the loop of remove.
  unfoldable pub delete_id : String → List (HookEntry H) → List (HookEntry H)
  delete_id id [] = []
  delete_id id (entry ∷ entries) =
      let rest = delete_id id entries in if entry.id == id then entries else entry ∷ rest

  -- Hook.AddHook
  abbrev pub add_hook : String → H → List (HookEntry H) → List (HookEntry H)
  add_hook id fn handlers = handlers ++ (record { id = id; h = fn } ∷ [])

  -- Hook.PreAddHook
  abbrev pub pre_add_hook : String → H → List (HookEntry H) → List (HookEntry H)
  pre_add_hook id fn handlers = record { id = id; h = fn } ∷ handlers

  -- Hook.RemoveAllHooks, and Hook.Clear
  abbrev pub clear_hooks : List (HookEntry H) → List (HookEntry H)
  clear_hooks handlers = []

  -- Hook.Len
  abbrev pub hook_len : List (HookEntry H) → ℕ
  hook_len handlers = length handlers

  unfoldable pub hook_step : HookCall H → List (HookEntry H) → List (HookEntry H)
  hook_step (adds id fn) handlers = add_hook id fn handlers
  hook_step (pre_adds id fn) handlers = pre_add_hook id fn handlers
  hook_step (removes id) handlers = delete_id id handlers
  hook_step clears handlers = clear_hooks handlers

  unfoldable pub hook_steps : List (HookCall H) → List (HookEntry H) → List (HookEntry H)
  hook_steps [] handlers = handlers
  hook_steps (c ∷ calls) handlers = hook_steps calls (hook_step c handlers)

  -- A call that is not about the id.
  abbrev pub is_about : String → HookCall H → Bool
  is_about id (adds other fn) = other == id
  is_about id (pre_adds other fn) = other == id
  is_about id (removes other) = other == id
  is_about id clears = false

  abbrev pub any_about : String → List (HookCall H) → Bool
  any_about id [] = false
  any_about id (c ∷ calls) = is_about id c || any_about id calls

  abbrev pub has_id : String → List (HookEntry H) → Bool
  has_id id [] = false
  has_id id (entry ∷ entries) = entry.id == id || has_id id entries

  delete_id-last :
      (id : String) (entries : List (HookEntry H)) (entry : HookEntry H)
      → (entry.id == id) ≡ false
      → delete_id id (entries ++ (entry ∷ [])) ≡ delete_id id entries ++ (entry ∷ [])
  unfolding delete_id
  delete_id-last id [] entry other = rw other
  delete_id-last id (x ∷ xs) entry other = elim (Bool-cases (x.id == id)) [
    | inl e ↦ rw e
    | inr e ↦ rw e (ap (◌∷◌ x) (delete_id-last id xs entry other))
  ]

  delete_id-delete_id :
      (id other : String) (entries : List (HookEntry H))
      → (other == id) ≡ false
      → delete_id id (delete_id other entries) ≡ delete_id other (delete_id id entries)
  unfolding delete_id
  delete_id-delete_id id other [] apart = refl
  delete_id-delete_id id other (x ∷ xs) apart = ground (
    arith,
    eq_iff x.id id,
    eq_iff x.id other,
    eq_iff other id,
    delete_id-delete_id id other xs apart,
  )

  -- Deleting an id and a call that is not about it can be swapped.
  hook_step-delete_id :
      (id : String) (c : HookCall H) (entries : List (HookEntry H))
      → is_about id c ≡ false
      → delete_id id (hook_step c entries) ≡ hook_step c (delete_id id entries)
  unfolding hook_step delete_id
  hook_step-delete_id id (adds other fn) entries apart =
      delete_id-last id entries (record { id = other; h = fn }) apart
  hook_step-delete_id id (pre_adds other fn) entries apart = rw apart
  hook_step-delete_id id (removes other) entries apart = delete_id-delete_id id other entries apart
  hook_step-delete_id id clears entries apart = refl

  hook_steps-delete_id :
      (id : String) (calls : List (HookCall H)) (entries : List (HookEntry H))
      → any_about id calls ≡ false
      → delete_id id (hook_steps calls entries) ≡ hook_steps calls (delete_id id entries)
  unfolding hook_steps
  hook_steps-delete_id id [] entries apart = refl
  hook_steps-delete_id id (c ∷ calls) entries apart =
      hook_steps-delete_id id calls (hook_step c entries) (ground arith)
      ∙ ap (hook_steps calls) (hook_step-delete_id id c entries (ground arith))

  delete_id-add_hook :
      (id : String) (fn : H) (entries : List (HookEntry H))
      → has_id id entries ≡ false
      → delete_id id (add_hook id fn entries) ≡ entries
  unfolding delete_id
  delete_id-add_hook id fn [] fresh = rw (eq_refl id)
  delete_id-add_hook id fn (x ∷ xs) fresh =
      let e : (x.id == id) ≡ false = ground arith in
      rw e (ap (◌∷◌ x) (delete_id-add_hook id fn xs (ground arith)))

  -- Calling the function that AddHook returns undoes the AddHook, whatever calls that are not about its
  -- id came between, where the id was new when it was made.
  pub delete_id-hook_steps :
      (id : String) (fn : H) (calls : List (HookCall H)) (entries : List (HookEntry H))
      → has_id id entries ≡ false
      → any_about id calls ≡ false
      → delete_id id (hook_steps calls (add_hook id fn entries)) ≡ hook_steps calls entries
  delete_id-hook_steps id fn calls entries fresh apart =
      hook_steps-delete_id id calls (add_hook id fn entries) apart
      ∙ ap (hook_steps calls) (delete_id-add_hook id fn entries fresh)

-- The handlers are called on a state that has the hook in it: a handler may change the hook.
module _ {H T S : Type 0} (call : H → T → S → S) (hook : S → List (HookEntry H)) where
  abbrev one_of_entries : List H → List (HookEntry H)
  one_of_entries [] = []
  one_of_entries (h ∷ hs) = record { id = "@"; h = h } ∷ one_of_entries hs

  abbrev call_entries : T → List (HookEntry H) → S → S
  call_entries event [] s = s
  call_entries event (entry ∷ entries) s = call_entries event entries (call entry.h event s)

  -- Hook.FireHook. The entries are those at its start; the ids of those of `one_of` are not read.
  unfoldable pub fire_hook : T → List H → S → S
  fire_hook event one_of s = call_entries event (hook s ++ one_of_entries one_of) s
