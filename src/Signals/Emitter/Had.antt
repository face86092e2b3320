-- ===== src/Signals/Emitter/Had.antt =====
-- What Has of pkg/sim/emitter.go answers.
use apigear_cli.Base.{
  String, Bool, false, not, List, [], ◌∷◌, ◌++◌, ◌==◌, ◌≡◌, refl, ap, ◌∙◌, eq_iff, Bool-cases,
  Option-cases, inl, inr, ◌||◌, ◌&&◌,
}
use apigear_cli.Base.Dict.{lookup, lookup-insert, lookup-remove}
use apigear_cli.Signals.Hook.{delete_id}
use apigear_cli.Signals.Emitter.{
  Emitter, handlers_of, emitter_add, emitter_any, emitter_remove, emitter_clear, emitter_clear_all,
  emitter_has,
}
use apigear_cli.Signals.Emitter.Calls.{
  EmitterCall, call_add, call_any_hook, call_remove, call_clear, call_clear_all, emitter_step,
  emitter_steps,
}

-- Whether a handler was added for an event since it was last cleared, by Clear or by ClearAll; Remove
-- does not count.
module _ {H K : Type 0} where
  abbrev added_by : String → EmitterCall H K → Bool → Bool
  added_by event (call_add name id handler) now = event == name || now
  added_by event (call_any_hook id handler) now = now
  added_by event (call_remove name id) now = now
  added_by event (call_clear name) now = not (event == name) && now
  added_by event call_clear_all now = false

  abbrev pub added : String → List (EmitterCall H K) → Bool → Bool
  added event [] now = now
  added event (c ∷ calls) now = added event calls (added_by event c now)

  has-add :
      (event name id : String) (handler : H) (e : Emitter H K)
      → emitter_has event (emitter_add name id handler e) ≡ (event == name || emitter_has event e)
  unfolding emitter_has emitter_add
  has-add event name id handler e =
      let hs = handlers_of name e ++ (record { id = id; h = handler } ∷ []) in
      elim (Bool-cases (event == name)) [
        | inl same ↦ rw (lookup-insert name event hs e.entries, same)
        | inr apart ↦ rw (lookup-insert name event hs e.entries, apart)
      ]

  has-remove :
      (event name id : String) (e : Emitter H K)
      → emitter_has event (emitter_remove name id e) ≡ emitter_has event e
  unfolding emitter_has emitter_remove
  has-remove event name id e = elim (Option-cases (lookup name e.entries)) [
    | inl found ↦ rw found
    | inr (hs, found) ↦ elim (Bool-cases (event == name)) [
      | inl same ↦
          rw (found, lookup-insert name event (delete_id id hs) e.entries, same)
            (rw ((eq_iff event name).0 same, found))
      | inr apart ↦ rw (found, lookup-insert name event (delete_id id hs) e.entries, apart)
    ]
  ]

  has-clear :
      (event name : String) (e : Emitter H K)
      → emitter_has event (emitter_clear name e).1 ≡ (not (event == name) && emitter_has event e)
  unfolding emitter_has emitter_clear
  has-clear event name e = elim (Option-cases (lookup name e.entries)) [
    | inl found ↦ elim (Bool-cases (event == name)) [
      | inl same ↦ rw (found, same) (rw ((eq_iff event name).0 same, found))
      | inr apart ↦ rw (found, apart)
    ]
    | inr (hs, found) ↦ elim (Bool-cases (event == name)) [
      | inl same ↦ rw (found, lookup-remove name event e.entries, same)
      | inr apart ↦ rw (found, lookup-remove name event e.entries, apart)
    ]
  ]

  emitter_step-has :
      (event : String) (c : EmitterCall H K) (e : Emitter H K)
      → emitter_has event (emitter_step c e) ≡ added_by event c (emitter_has event e)
  unfolding emitter_step emitter_has emitter_any emitter_clear_all lookup
  emitter_step-has event (call_add name id handler) e = has-add event name id handler e
  emitter_step-has event (call_any_hook id handler) e = refl
  emitter_step-has event (call_remove name id) e = has-remove event name id e
  emitter_step-has event (call_clear name) e = has-clear event name e
  emitter_step-has event call_clear_all e = refl

  -- After any calls, Has answers whether a handler was added for the event since it was last cleared, or
  -- what Has answered at first if it was neither; it answers so also where Remove took the last one out.
  pub emitter_steps-has :
      (event : String) (calls : List (EmitterCall H K)) (e : Emitter H K)
      → emitter_has event (emitter_steps calls e) ≡ added event calls (emitter_has event e)
  unfolding emitter_steps
  emitter_steps-has event [] e = refl
  emitter_steps-has event (c ∷ calls) e =
      emitter_steps-has event calls (emitter_step c e)
      ∙ ap (added event calls) (emitter_step-has event c e)
