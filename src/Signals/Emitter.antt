-- ===== src/Signals/Emitter.antt =====
-- Emitter and Hook of pkg/sim/emitter.go and hook.go. The locks make each method that
-- changes the emitter one step. While Emit calls handlers, it holds a lock that Add, Remove, Clear and
-- ClearAll wait for, so that no handler gets through one of them on its own emitter; Any goes through.
-- What nextId answers is an argument of Add and Any.
pub mod Calls
pub mod Undone
pub mod Had
use apigear_cli.Base.{
  ℕ, ◌+◌, String, Bool, true, false, Option, none, some, List, [], ◌∷◌, ◌++◌, map, ◌==◌,
  if◌then◌else◌,
}
use apigear_cli.Base.Lists.{length, sum}
use apigear_cli.Base.Dict.{Dict, Entry, lookup, insert, remove}
use apigear_cli.Signals.Hook.{HookEntry, delete_id}

pub record Emitter (H K : Type 0) : Type 0 where
  pub entries : Dict (List (HookEntry H))
  pub hook : List (HookEntry K)

-- e.entries[event], where no slice is an empty one.
abbrev pub listed : {H : Type 0} → Option (List (HookEntry H)) → List (HookEntry H)
listed none = []
listed (some handlers) = handlers

abbrev pub present : {H : Type 0} → Option (List (HookEntry H)) → Bool
present none = false
present (some handlers) = true

-- A total over the map; the order in which Go ranges over it does not matter.
abbrev pub total : {H : Type 0} → Dict (List (HookEntry H)) → ℕ
total entries = sum (λ entry. length entry.value) entries

module _ {H K : Type 0} where
  -- NewEmitter
  abbrev pub new_emitter : Emitter H K
  new_emitter = record { entries = []; hook = [] }

  abbrev pub handlers_of : String → Emitter H K → List (HookEntry H)
  handlers_of event e = listed (lookup event e.entries)

  -- Emitter.Add
  unfoldable pub emitter_add : String → String → H → Emitter H K → Emitter H K
  emitter_add event id handler e = record e {
    entries =
        insert event (handlers_of event e ++ (record { id = id; h = handler } ∷ [])) e.entries;
  }

  -- Emitter.Any, with Hook.Add
  unfoldable pub emitter_any : String → K → Emitter H K → Emitter H K
  emitter_any id handler e = record e { hook = e.hook ++ (record { id = id; h = handler } ∷ []) }

  abbrev removed_from : String → String → Option (List (HookEntry H)) → Emitter H K → Emitter H K
  removed_from event id none e = e
  removed_from event id (some handlers) e = record e {
    entries = insert event (delete_id id handlers) e.entries;
  }

  -- Emitter.Remove
  unfoldable pub emitter_remove : String → String → Emitter H K → Emitter H K
  emitter_remove event id e = removed_from event id (lookup event e.entries) e

  abbrev pub cleared : String → Option (List (HookEntry H)) → Emitter H K → ℕ × Emitter H K
  cleared event none e = (0, e)
  cleared event (some handlers) e = (length handlers, record e { entries = remove event e.entries })

  -- Emitter.Clear
  unfoldable pub emitter_clear : String → Emitter H K → ℕ × Emitter H K
  emitter_clear event e = cleared event (lookup event e.entries) e

  -- Emitter.ClearAll, with Hook.Clear
  unfoldable pub emitter_clear_all : Emitter H K → ℕ × Emitter H K
  emitter_clear_all e = (total e.entries, record { entries = []; hook = [] })

  -- Emitter.Has
  unfoldable pub emitter_has : String → Emitter H K → Bool
  emitter_has event e = present (lookup event e.entries)

  -- Emitter.Count
  unfoldable pub emitter_count : String → Emitter H K → ℕ
  emitter_count event e = length (handlers_of event e)

  -- Emitter.CountAll
  unfoldable pub emitter_count_all : Emitter H K → ℕ
  emitter_count_all e = total e.entries

-- What a call of a handler does to a state, which has the emitter in it.
module _ {H K V S : Type 0} (call : H → V → S → S) (call_any : K → String → V → S → S) where
  abbrev pub call_handlers : V → List (HookEntry H) → S → S
  call_handlers value [] s = s
  call_handlers value (entry ∷ entries) s = call_handlers value entries (call entry.h value s)

  -- Hook.Emit, with the handlers that Any wraps
  abbrev pub call_hooks : String → V → List (HookEntry K) → S → S
  call_hooks event value [] s = s
  call_hooks event value (entry ∷ entries) s =
      call_hooks event value entries (call_any entry.h event value s)

  -- Emitter.Emit. The handlers of the event are those at its start. Those of Any, which takes no lock of
  -- the emitter, are read when the others have been called.
  unfoldable pub emitter_emit : (S → Emitter H K) → String → V → S → S
  emitter_emit emitter event value s =
      let s' = call_handlers value (handlers_of event (emitter s)) s in
      call_hooks event value (emitter s').hook s'
