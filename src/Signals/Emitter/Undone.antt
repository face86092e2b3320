-- ===== src/Signals/Emitter/Undone.antt =====
-- What the function that Add returns undoes, and what Has answers, in pkg/sim/emitter.go.
use apigear_cli.Base.{
  String, false, Option, none, some, List, [], ◌∷◌, ◌++◌, ◌==◌, if◌then◌else◌, ◌≡◌, refl, sym, ap,
  ◌∙◌, eq_iff, eq_refl, Bool-cases, Option-cases, inl, inr,
}
use apigear_cli.Base.Dict.{lookup}
use apigear_cli.Signals.Hook.{
  HookEntry, delete_id, hook_step, hook_steps, any_about, has_id, delete_id-hook_steps,
}
use apigear_cli.Signals.Emitter.{
  Emitter, handlers_of, cleared, emitter_add, emitter_any, emitter_remove, emitter_clear,
  emitter_clear_all, emitter_emit, call_handlers, call_hooks,
}
use apigear_cli.Signals.Emitter.Calls.{
  EmitterCall, call_add, call_any_hook, call_remove, call_clear, call_clear_all, emitter_step,
  emitter_steps, steps_for, emitter_steps-handlers,
}

-- The emitter of a state of the hooks of Any and the rest of the program, where no handler changes the
-- entries.
abbrev pub with_hook : {H K S : Type 0} → Emitter H K → List (HookEntry K) × S → Emitter H K
with_hook e (hook, s) = record e { hook = hook }

module _ {H K : Type 0} where
  abbrev hook_after : EmitterCall H K → List (HookEntry K) → List (HookEntry K)
  hook_after (call_add event id handler) hook = hook
  hook_after (call_any_hook id handler) hook = hook ++ (record { id = id; h = handler } ∷ [])
  hook_after (call_remove event id) hook = hook
  hook_after (call_clear event) hook = hook
  hook_after call_clear_all hook = []

  abbrev hooks_after : List (EmitterCall H K) → List (HookEntry K) → List (HookEntry K)
  hooks_after [] hook = hook
  hooks_after (c ∷ calls) hook = hooks_after calls (hook_after c hook)

  cleared-hook :
      (event : String) (found : Option (List (HookEntry H))) (e : Emitter H K)
      → (cleared event found e).1.hook ≡ e.hook
  cleared-hook event none e = refl
  cleared-hook event (some handlers) e = refl

  add-hook :
      (event id : String) (handler : H) (e : Emitter H K)
      → (emitter_add event id handler e).hook ≡ e.hook
  unfolding emitter_add
  add-hook event id handler e = refl

  emitter_step-hook :
      (c : EmitterCall H K) (e : Emitter H K) → (emitter_step c e).hook ≡ hook_after c e.hook
  unfolding emitter_step emitter_add emitter_any emitter_remove emitter_clear emitter_clear_all
  emitter_step-hook (call_add event id handler) e = refl
  emitter_step-hook (call_any_hook id handler) e = refl
  emitter_step-hook (call_remove event id) e = elim (Option-cases (lookup event e.entries)) [
    | inl found ↦ rw found
    | inr (hs, found) ↦ rw found
  ]
  emitter_step-hook (call_clear event) e = cleared-hook event (lookup event e.entries) e
  emitter_step-hook call_clear_all e = refl

  emitter_steps-hook :
      (calls : List (EmitterCall H K)) (e : Emitter H K)
      → (emitter_steps calls e).hook ≡ hooks_after calls e.hook
  unfolding emitter_steps
  emitter_steps-hook [] e = refl
  emitter_steps-hook (c ∷ calls) e =
      emitter_steps-hook calls (emitter_step c e) ∙ ap (hooks_after calls) (emitter_step-hook c e)

  remove-hook : (event id : String) (e : Emitter H K) → (emitter_remove event id e).hook ≡ e.hook
  remove-hook event id e = unfold emitter_step in emitter_step-hook (call_remove event id) e

  remove-handlers :
      (event name id : String) (e : Emitter H K)
      → handlers_of name (emitter_remove event id e)
        ≡ (if name == event then delete_id id (handlers_of event e) else handlers_of name e)
  unfolding emitter_step emitter_steps hook_step hook_steps
  remove-handlers event name id e = elim (Bool-cases (name == event)) [
    | inl same ↦
        emitter_steps-handlers name (call_remove event id ∷ []) e
        ∙ rw (same, (eq_iff name event).0 same)
    | inr apart ↦ emitter_steps-handlers name (call_remove event id ∷ []) e ∙ rw apart
  ]

  add-handlers :
      (event name id : String) (handler : H) (e : Emitter H K)
      → handlers_of name (emitter_add event id handler e) ≡ (
          if name == event
          then handlers_of event e ++ (record { id = id; h = handler } ∷ [])
          else handlers_of name e)
  unfolding emitter_step emitter_steps hook_step hook_steps
  add-handlers event name id handler e = elim (Bool-cases (name == event)) [
    | inl same ↦
        emitter_steps-handlers name (call_add event id handler ∷ []) e
        ∙ rw (same, (eq_iff name event).0 same)
    | inr apart ↦ emitter_steps-handlers name (call_add event id handler ∷ []) e ∙ rw apart
  ]

  -- Add, other calls, and a call of the function that Add returned.
  abbrev pub unsubscribed : String → String → H → List (EmitterCall H K) → Emitter H K → Emitter H K
  unsubscribed event id handler calls e =
      emitter_remove event id (emitter_steps calls (emitter_add event id handler e))

  -- The handlers of every event after the function that Add returned is called.
  module _ (event id : String) (handler : H) (calls : List (EmitterCall H K)) (e : Emitter H K)
      (fresh : has_id id (handlers_of event e) ≡ false)
      (apart : any_about id (steps_for event calls) ≡ false) where
    abbrev undone : Emitter H K
    undone = unsubscribed event id handler calls e

    unsubscribed-handlers :
        (name : String) → handlers_of name undone ≡ handlers_of name (emitter_steps calls e)
    unsubscribed-handlers name =
        remove-handlers event name id (emitter_steps calls (emitter_add event id handler e))
        ∙ elim (Bool-cases (name == event)) [
          | inl same ↦
              rw (same, (eq_iff name event).0 same)
                (ap (delete_id id) (
                    emitter_steps-handlers event calls (emitter_add event id handler e)
                    ∙ ap (hook_steps (steps_for event calls))
                        (add-handlers event event id handler e ∙ rw (eq_refl event)))
                  ∙ delete_id-hook_steps id handler (steps_for event calls) (handlers_of event e)
                      fresh apart
                  ∙ sym (emitter_steps-handlers event calls e))
          | inr other ↦ rw other (
              emitter_steps-handlers name calls (emitter_add event id handler e)
              ∙ ap (hook_steps (steps_for name calls))
                  (add-handlers event name id handler e ∙ rw other)
              ∙ sym (emitter_steps-handlers name calls e))
        ]

    unsubscribed-hook : undone.hook ≡ (emitter_steps calls e).hook
    unsubscribed-hook =
        remove-hook event id (emitter_steps calls (emitter_add event id handler e))
        ∙ emitter_steps-hook calls (emitter_add event id handler e)
        ∙ ap (hooks_after calls) (add-hook event id handler e)
        ∙ sym (emitter_steps-hook calls e)

    -- Once the function that Add returned is called, Emit calls for every event what it would have
    -- called without the Add, and leaves the same hooks of Any and the same rest of the program, whatever
    -- calls came between, where the id was new for the event and no other call was about it. The
    -- handlers may call Any and change the rest.
    pub emitter_emit-unsubscribed :
        {V S : Type 0} (call : H → V → List (HookEntry K) × S → List (HookEntry K) × S)
        (call_any : K → String → V → List (HookEntry K) × S → List (HookEntry K) × S)
        (name : String) (value : V) (s : S)
        → let after = unsubscribed event id handler calls e in
          let without = emitter_steps calls e in
          emitter_emit call call_any (with_hook after) name value (after.hook, s)
          ≡ emitter_emit call call_any (with_hook without) name value (without.hook, s)
    unfolding emitter_emit
    emitter_emit-unsubscribed call call_any name value s i =
        let s' =
          call_handlers call call_any value (unsubscribed-handlers name i)
            (unsubscribed-hook i, s) in
        call_hooks call call_any name value s'.0 s'
