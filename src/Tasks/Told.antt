-- ===== src/Tasks/Told.antt =====
-- Managers whose events tell which tasks there are.
use apigear_cli.Base.{
  ◌≡◌, refl, ◌∙◌, ap, inl, inr, ℕ, String, Bool, true, false, Option, none, some, List, [], ◌∷◌,
  ◌++◌, ◌==◌, arith, eq_iff, eq_refl, if◌then◌else◌, Bool-cases,
}
use apigear_cli.Base.Dict.{lookup, insert, lookup-insert}
use apigear_cli.Tasks.{
  TaskState, added, removed, TaskEvent, TaskItem, TaskManager, new_task_manager, fire,
  cancel_context, is_present,
}

-- What an event tells of whether there is a task, if there was one before as `before` says.
abbrev pub told : Bool → TaskState → Bool
told before added = true
told before removed = false
told before state = before

abbrev pub after : String → Bool → TaskEvent → Bool
after key before e = if key == e.name then told before e.state else before

-- Whether there is a task of this name, as a listener has it who hears all events.
unfoldable pub heard_from : String → Bool → List TaskEvent → Bool
heard_from key before [] = before
heard_from key before (e ∷ events) = heard_from key (after key before e) events

pub heard_from-append :
    (key : String) (before : Bool) (events : List TaskEvent) (e : TaskEvent)
    → heard_from key before (events ++ (e ∷ [])) ≡ after key (heard_from key before events) e
unfolding heard_from
heard_from-append key before [] e = refl
heard_from-append key before (d ∷ events) e = heard_from-append key (after key before d) events e

module _ {W : Type 0} where
  -- Each task is in the map under its own name, and the events tell which tasks there are.
  pub record IsTold (tm : TaskManager W) : Type 0 where
    pub named :
        (key : String) (task : TaskItem W) → lookup key tm.tasks ≡ some task → task.name ≡ key
    pub heard : (key : String) → heard_from key false tm.events ≡ is_present (lookup key tm.tasks)

  pub new_task_manager-IsTold : (world : W) → IsTold (new_task_manager world)
  unfolding lookup heard_from
  new_task_manager-IsTold world = record {
    named = λ key task h. absurd (cc h);
    heard = λ key. refl;
  }

  pub cancel_context-IsTold :
      (c : Option ℕ) (tm : TaskManager W) → IsTold tm → IsTold (cancel_context c tm)
  cancel_context-IsTold none tm told_ = told_
  cancel_context-IsTold (some c) tm told_ = record { named = told_.named; heard = told_.heard }

  -- An event that says nothing of whether there is a task.
  pub fire-IsTold :
      (task : TaskItem W) (state : TaskState) (tm : TaskManager W)
      → ((before : Bool) → told before state ≡ before)
      → IsTold tm
      → IsTold (fire task state tm)
  fire-IsTold task state tm quiet told_ = record {
    named = told_.named;
    heard = λ key.
        heard_from-append key false tm.events (record { name = task.name; state = state })
        ∙ same (key == task.name) (heard_from key false tm.events)
        ∙ told_.heard key;
  }
    where
      same : (b before : Bool) → (if b then told before state else before) ≡ before
      same true before = quiet before
      same false before = refl

  -- A task that is written back where it was.
  pub write-IsTold :
      (key : String) (task task' : TaskItem W) (tm : TaskManager W)
      → lookup key tm.tasks ≡ some task
      → task'.name ≡ key
      → (contexts : ℕ) (world : W) → IsTold tm
      → IsTold (record tm { tasks = insert key task' tm.tasks; contexts = contexts; world = world })
  write-IsTold key task task' tm there same contexts world told_ = record {
    named = λ other t h. elim (Bool-cases (other == key)) [
      | inl e ↦
          let here : task' ≡ t = ground (arith, lookup-insert key other task' tm.tasks) in
          cc (ap (λ (t : TaskItem W). t.name) here, same, (eq_iff other key).0 e)
      | inr e ↦ told_.named other t (ground (arith, lookup-insert key other task' tm.tasks))
    ];
    heard = λ other. told_.heard other ∙ elim (Bool-cases (other == key)) [
      | inl e ↦
          let same_key = (eq_iff other key).0 e in
          rw (same_key, there, lookup-insert key key task' tm.tasks, eq_refl key) refl
      | inr e ↦ rw (lookup-insert key other task' tm.tasks, e) refl
    ];
  }
