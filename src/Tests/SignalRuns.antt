-- ===== src/Tests/SignalRuns.antt =====
-- The theorems on pkg/helper/hook.go and pkg/sim at hooks, emitters and services of a few handlers. A
-- handler is a number, and a call of it is written down.
use apigear_cli.Base.{ℕ, String, Bool, true, false, inl, inr, List, [], ◌∷◌, ◌++◌, ◌==◌, ◌≡◌, refl}
use apigear_cli.Base.Lists.{Elem}
use apigear_cli.Base.Dict.{Entry, lookup, insert, remove, lookup-insert}
use apigear_cli.Signals.Hook.{
  HookEntry, HookCall, adds, pre_adds, removes, add_hook, delete_id, hook_steps,
  delete_id-hook_steps,
}
use apigear_cli.Signals.Emitter.{
  Emitter, new_emitter, emitter_add, emitter_any, emitter_remove, emitter_clear, emitter_emit,
  emitter_has, handlers_of,
}
use apigear_cli.Signals.Emitter.Calls.{
  EmitterCall, call_add, call_any_hook, call_remove, call_clear, emitter_step, emitter_steps,
  steps_for, emitter_steps-handlers,
}
use apigear_cli.Signals.Emitter.Undone.{with_hook, unsubscribed, emitter_emit-unsubscribed}
use apigear_cli.Signals.Emitter.Had.{added, emitter_steps-has}
use apigear_cli.Signals.Service.{
  Service, IsLeft, get_property, set_properties, set_properties-set_properties,
}

abbrev start : List (HookEntry ℕ)
start = record { id = "a"; h = 1 } ∷ []

abbrev between : List (HookCall ℕ)
between = pre_adds "c" 3 ∷ removes "a" ∷ adds "d" 4 ∷ []

delete_id-hook_steps_example :
    delete_id "b" (hook_steps between (add_hook "b" 2 start)) ≡ hook_steps between start
delete_id-hook_steps_example = delete_id-hook_steps "b" 2 between start refl refl

abbrev empty : Emitter ℕ ℕ
empty = new_emitter

abbrev calls : List (EmitterCall ℕ ℕ)
calls =
    call_add "x" "a" 1
    ∷ call_add "y" "b" 2
    ∷ call_any_hook "c" 3
    ∷ call_remove "x" "a"
    ∷ call_clear "y"
    ∷ []

emitter_steps-handlers_example :
    handlers_of "x" (emitter_steps calls empty)
    ≡ hook_steps (steps_for "x" calls) (handlers_of "x" empty)
emitter_steps-handlers_example = emitter_steps-handlers "x" calls empty

emitter_steps-has_example :
    emitter_has "x" (emitter_steps calls empty) ≡ added "x" calls (emitter_has "x" empty)
emitter_steps-has_example = emitter_steps-has "x" calls empty

-- The handler that was removed was the only one.
has_without_handlers :
    (emitter_has "x" (emitter_steps calls empty) ≡ true)
    × (handlers_of "x" (emitter_steps calls empty) ≡ [])
unfolding emitter_steps emitter_step emitter_add emitter_any emitter_remove emitter_clear
    emitter_has lookup insert remove delete_id
has_without_handlers = (refl, refl)

-- What is written down: the handler that was called, and the value.
abbrev Log : Type 0
Log = List (ℕ × String)

abbrev logged : ℕ → String → List (HookEntry ℕ) × Log → List (HookEntry ℕ) × Log
logged h value (hook, log) = (hook, log ++ ((h, value) ∷ []))

-- A handler that calls Any.
abbrev called : ℕ → String → List (HookEntry ℕ) × Log → List (HookEntry ℕ) × Log
called h value (hook, log) = logged h value (hook ++ (record { id = "late"; h = h } ∷ []), log)

abbrev called_any : ℕ → String → String → List (HookEntry ℕ) × Log → List (HookEntry ℕ) × Log
called_any h event value s = logged h value s

emitter_emit-unsubscribed_example :
    emitter_emit called called_any
      (with_hook (unsubscribed "x" "z" 9 calls empty))
      "x"
      "v"
      ((unsubscribed "x" "z" 9 calls empty).hook, [])
    ≡ emitter_emit called called_any
        (with_hook (emitter_steps calls empty))
        "x"
        "v"
        ((emitter_steps calls empty).hook, [])
unfolding lookup
emitter_emit-unsubscribed_example =
    emitter_emit-unsubscribed "x" "z" 9 calls empty refl refl called called_any "x" "v" []

abbrev Counter : Type 0
Counter = Service String ℕ ℕ Log

-- A handler that sets another property of the service that calls it.
abbrev told : ℕ → String → Counter → Counter
told h value o = record o {
  properties = insert "seen" value o.properties;
  outside = o.outside ++ ((h, value) ∷ []);
}

abbrev told_any : ℕ → String → String → Counter → Counter
told_any h event value o = told h value o

abbrev service : Counter
service = record {
  properties = record { key = "count"; value = "1" } ∷ [];
  property_emitter = record {
    entries = record { key = "count"; value = start } ∷ [];
    hook = record { id = "k"; h = 2 } ∷ [];
  };
  notified = [];
  outside = [];
}

abbrev count : Entry String
count = record { key = "count"; value = "2" }

abbrev title : Entry String
title = record { key = "name"; value = "n" }

abbrev same_text : String → String → Bool
same_text a b = a == b

seen-IsLeft : (name : String) → (name == "seen") ≡ false → IsLeft "" same_text told told_any name
unfolding get_property
seen-IsLeft name other = record {
  by_handlers = λ h value o. rw (lookup-insert "seen" name value o.properties, other) refl;
  by_hooks = λ k event value o. rw (lookup-insert "seen" name value o.properties, other) refl;
}

swapped : (entry : Entry String) → Elem entry (title ∷ count ∷ []) → Elem entry (count ∷ title ∷ [])
swapped entry (inl e) = inr (inl e)
swapped entry (inr (inl e)) = inl e
swapped entry (inr (inr none_left)) = elim none_left [ ]

set_properties-set_properties_example :
    set_properties "" same_text told told_any
      (title ∷ count ∷ [])
      (set_properties "" same_text told told_any (count ∷ title ∷ []) service)
    ≡ set_properties "" same_text told told_any (count ∷ title ∷ []) service
set_properties-set_properties_example =
    set_properties-set_properties "" same_text told told_any (count ∷ title ∷ [])
      (title ∷ count ∷ []) service
      ((refl, (refl, tt), seen-IsLeft "count" refl), ((refl, tt, seen-IsLeft "name" refl), tt))
      swapped
