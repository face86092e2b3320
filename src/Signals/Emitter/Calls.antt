-- ===== src/Signals/Emitter/Calls.antt =====
-- What a sequence of calls of an emitter of pkg/sim/emitter.go comes to, for each event on its own.
use apigear_cli.Base.{
  String, List, [], ◌∷◌, ◌++◌, ◌==◌, if◌then◌else◌, ◌≡◌, refl, sym, ap, ◌∙◌, eq_iff, Bool-cases,
  Option-cases, inl, inr,
}
use apigear_cli.Base.Dict.{Dict, lookup, insert, remove, lookup-insert, lookup-remove}
use apigear_cli.Signals.Hook.{
  HookEntry, HookCall, adds, removes, clears, delete_id, hook_step, hook_steps,
}
use apigear_cli.Signals.Emitter.{
  Emitter, handlers_of, listed, emitter_add, emitter_any, emitter_remove, emitter_clear,
  emitter_clear_all,
}

-- A call of a method that changes an emitter.
pub data EmitterCall (H K : Type 0) : Type 0 where
  call_add : String → String → H → EmitterCall H K
  call_any_hook : String → K → EmitterCall H K
  call_remove : String → String → EmitterCall H K
  call_clear : String → EmitterCall H K
  call_clear_all : EmitterCall H K

listed-insert :
    {H : Type 0} (event name : String) (handlers : List (HookEntry H))
    (d : Dict (List (HookEntry H)))
    → listed (lookup event (insert name handlers d))
      ≡ (if event == name then handlers else listed (lookup event d))
listed-insert event name handlers d = elim (Bool-cases (event == name)) [
  | inl same ↦ rw (lookup-insert name event handlers d, same)
  | inr apart ↦ rw (lookup-insert name event handlers d, apart)
]

listed-remove :
    {H : Type 0} (event name : String) (d : Dict (List (HookEntry H)))
    → listed (lookup event (remove name d))
      ≡ (if event == name then [] else listed (lookup event d))
listed-remove event name d = elim (Bool-cases (event == name)) [
  | inl same ↦ rw (lookup-remove name event d, same)
  | inr apart ↦ rw (lookup-remove name event d, apart)
]

hook_steps-append :
    {H : Type 0} (xs ys : List (HookCall H)) (handlers : List (HookEntry H))
    → hook_steps (xs ++ ys) handlers ≡ hook_steps ys (hook_steps xs handlers)
unfolding hook_steps
hook_steps-append [] ys handlers = refl
hook_steps-append (x ∷ xs) ys handlers = hook_steps-append xs ys (hook_step x handlers)

module _ {H K : Type 0} where
  unfoldable pub emitter_step : EmitterCall H K → Emitter H K → Emitter H K
  emitter_step (call_add event id handler) e = emitter_add event id handler e
  emitter_step (call_any_hook id handler) e = emitter_any id handler e
  emitter_step (call_remove event id) e = emitter_remove event id e
  emitter_step (call_clear event) e = (emitter_clear event e).1
  emitter_step call_clear_all e = (emitter_clear_all e).1

  unfoldable pub emitter_steps : List (EmitterCall H K) → Emitter H K → Emitter H K
  emitter_steps [] e = e
  emitter_steps (c ∷ calls) e = emitter_steps calls (emitter_step c e)

  -- The calls that are about an event, as those of a list of handlers.
  abbrev step_for : String → EmitterCall H K → List (HookCall H)
  step_for event (call_add name id handler) = if event == name then adds id handler ∷ [] else []
  step_for event (call_any_hook id handler) = []
  step_for event (call_remove name id) = if event == name then removes id ∷ [] else []
  step_for event (call_clear name) = if event == name then clears ∷ [] else []
  step_for event call_clear_all = clears ∷ []

  abbrev pub steps_for : String → List (EmitterCall H K) → List (HookCall H)
  steps_for event [] = []
  steps_for event (c ∷ calls) = step_for event c ++ steps_for event calls

  step-add :
      (event name id : String) (handler : H) (e : Emitter H K)
      → handlers_of event (emitter_add name id handler e)
        ≡ hook_steps (if event == name then adds id handler ∷ [] else []) (handlers_of event e)
  unfolding emitter_add hook_steps hook_step
  step-add event name id handler e =
      listed-insert event name (handlers_of name e ++ (record { id = id; h = handler } ∷ []))
        e.entries
      ∙ elim (Bool-cases (event == name)) [
        | inl same ↦ rw (same, (eq_iff event name).0 same)
        | inr apart ↦ rw apart
      ]

  step-remove :
      (event name id : String) (e : Emitter H K)
      → handlers_of event (emitter_remove name id e)
        ≡ hook_steps (if event == name then removes id ∷ [] else []) (handlers_of event e)
  unfolding emitter_remove hook_steps hook_step delete_id
  step-remove event name id e = elim (Bool-cases (event == name)) [
    | inl same ↦ elim (Option-cases (lookup name e.entries)) [
      | inl found ↦ rw (same, (eq_iff event name).0 same, found) (ap listed found)
      | inr (hs, found) ↦
          rw (same, found)
            (listed-insert event name (delete_id id hs) e.entries
              ∙ rw (same, (eq_iff event name).0 same, found))
    ]
    | inr apart ↦ elim (Option-cases (lookup name e.entries)) [
      | inl found ↦ rw (apart, found)
      | inr (hs, found) ↦
          rw (apart, found) (listed-insert event name (delete_id id hs) e.entries ∙ rw apart)
    ]
  ]

  step-clear :
      (event name : String) (e : Emitter H K)
      → handlers_of event (emitter_clear name e).1
        ≡ hook_steps (if event == name then clears ∷ [] else []) (handlers_of event e)
  unfolding emitter_clear hook_steps hook_step
  step-clear event name e = elim (Bool-cases (event == name)) [
    | inl same ↦ elim (Option-cases (lookup name e.entries)) [
      | inl found ↦ rw (same, (eq_iff event name).0 same, found) (ap listed found)
      | inr (hs, found) ↦ rw (same, found) (listed-remove event name e.entries ∙ rw same)
    ]
    | inr apart ↦ elim (Option-cases (lookup name e.entries)) [
      | inl found ↦ rw (apart, found)
      | inr (hs, found) ↦ rw (apart, found) (listed-remove event name e.entries ∙ rw apart)
    ]
  ]

  emitter_step-handlers :
      (event : String) (c : EmitterCall H K) (e : Emitter H K)
      → handlers_of event (emitter_step c e) ≡ hook_steps (step_for event c) (handlers_of event e)
  unfolding emitter_step emitter_any emitter_clear_all hook_steps hook_step lookup
  emitter_step-handlers event (call_add name id handler) e = step-add event name id handler e
  emitter_step-handlers event (call_any_hook id handler) e = refl
  emitter_step-handlers event (call_remove name id) e = step-remove event name id e
  emitter_step-handlers event (call_clear name) e = step-clear event name e
  emitter_step-handlers event call_clear_all e = refl

  -- After any calls, the handlers of an event are those that its own calls leave in a list: Add appends,
  -- Remove takes the first of the id out, Clear and ClearAll empty the list, and calls about other events
  -- and Any do nothing.
  pub emitter_steps-handlers :
      (event : String) (calls : List (EmitterCall H K)) (e : Emitter H K)
      → handlers_of event (emitter_steps calls e)
        ≡ hook_steps (steps_for event calls) (handlers_of event e)
  unfolding emitter_steps hook_steps
  emitter_steps-handlers event [] e = refl
  emitter_steps-handlers event (c ∷ calls) e =
      emitter_steps-handlers event calls (emitter_step c e)
      ∙ ap (hook_steps (steps_for event calls)) (emitter_step-handlers event c e)
      ∙ sym (hook_steps-append (step_for event c) (steps_for event calls) (handlers_of event e))
