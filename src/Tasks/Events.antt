-- ===== src/Tasks/Events.antt =====
-- What the events of a manager tell of its tasks.
use apigear_cli.Base.{
  ◌≡◌, refl, sym, ◌∙◌, ap, inl, inr, ℕ, suc, String, Bool, true, false, Option, none, some, List,
  [], ◌∷◌, ◌==◌, arith, eq_iff, eq_refl, if◌then◌else◌, Bool-cases, Option-cases,
}
use apigear_cli.Base.Dict.{Dict, lookup, remove, lookup-insert, lookup-remove}
use apigear_cli.Tasks.{
  added, removed, watching, running, stopped, TaskItem, TaskManager, new_task_item,
  new_task_manager, fire, cancel_context, get, has, add_task, rm_found, rm_task, register,
  record_error, item_run, outcome, run_found, run, start_watch, watch_found, watch, cancel_found,
  cancel_task, Call, call_add, call_register, call_rm, call_run, call_watch, call_cancel, perform,
  perform_all,
}
use apigear_cli.Tasks.Told.{
  told, heard_from, heard_from-append, IsTold, new_task_manager-IsTold, cancel_context-IsTold,
  fire-IsTold, write-IsTold,
}

outcome-quiet : (e : Option String) (before : Bool) → told before (outcome e) ≡ before
outcome-quiet none before = refl
outcome-quiet (some e) before = refl

module _ {W : Type 0} where
  add_task-IsTold : (task : TaskItem W) (tm : TaskManager W) → IsTold tm → IsTold (add_task task tm)
  unfolding add_task
  add_task-IsTold task tm told_ = elim (Bool-cases (has task.name tm)) [
    | inl e ↦ rw e told_
    | inr e ↦ rw e (record {
      named = λ other t h. elim (Bool-cases (other == task.name)) [
        | inl f ↦
            let here : task ≡ t = ground (arith, lookup-insert task.name other task tm.tasks) in
            ap (λ (t : TaskItem W). t.name) (sym here) ∙ sym ((eq_iff other task.name).0 f)
        | inr f ↦ told_.named other t (ground (arith, lookup-insert task.name other task tm.tasks))
      ];
      heard = λ other.
          heard_from-append other false tm.events (record { name = task.name; state = added })
          ∙ elim (Bool-cases (other == task.name)) [
            | inl f ↦ rw (lookup-insert task.name other task tm.tasks, f) refl
            | inr f ↦ rw (lookup-insert task.name other task tm.tasks, f) (told_.heard other)
          ];
    })
  ]

  fire-IsTold_removed :
      (name : String) (task : TaskItem W) (tm : TaskManager W)
      → task.name ≡ name
      → IsTold tm
      → IsTold (fire task removed (record tm { tasks = remove name tm.tasks }))
  fire-IsTold_removed name task tm same told_ = record {
    named = λ other t h. elim (Bool-cases (other == name)) [
      | inl f ↦ absurd (ground (arith, lookup-remove name other tm.tasks))
      | inr f ↦ told_.named other t (ground (arith, lookup-remove name other tm.tasks))
    ];
    heard = λ other.
        heard_from-append other false tm.events (record { name = task.name; state = removed })
        ∙ elim (Bool-cases (other == name)) [
          | inl f ↦ rw (same, lookup-remove name other tm.tasks, f) refl
          | inr f ↦ rw (same, lookup-remove name other tm.tasks, f) (told_.heard other)
        ];
  }

  cancel_context-tasks :
      (c : Option ℕ) (tm : TaskManager W) → (cancel_context c tm).tasks ≡ tm.tasks
  cancel_context-tasks none tm = refl
  cancel_context-tasks (some c) tm = refl

  rm_found-IsTold :
      (name : String) (tm : TaskManager W) (o : Option (TaskItem W))
      → lookup name tm.tasks ≡ o
      → IsTold tm
      → IsTold (rm_found name tm o).1
  rm_found-IsTold name tm none there told_ = told_
  rm_found-IsTold name tm (some task) there told_ =
      fire-IsTold_removed name task (cancel_context task.cancel tm) (told_.named name task there)
        (cancel_context-IsTold task.cancel tm told_)

  rm_task-IsTold : (name : String) (tm : TaskManager W) → IsTold tm → IsTold (rm_task name tm).1
  unfolding rm_task
  rm_task-IsTold name tm = rm_found-IsTold name tm (lookup name tm.tasks) refl

  register-IsTold :
      (name : String) (meta : Dict String) (tf : W → Option String × W) (tm : TaskManager W)
      → IsTold tm
      → IsTold (register name meta tf tm)
  unfolding register
  register-IsTold name meta tf tm told_ =
      add_task-IsTold (new_task_item name meta tf) _
        (chosen (has name tm) _ _ (rm_task-IsTold name tm told_) told_)
    where
      chosen : (b : Bool) (r s : TaskManager W) → IsTold r → IsTold s → IsTold (if b then r else s)
      chosen true r s p q = p
      chosen false r s p q = q

  record_error-name :
      (e : Option String) (task : TaskItem W) → (record_error e task).name ≡ task.name
  record_error-name none task = refl
  record_error-name (some e) task = refl

  -- What TaskItem.Run leaves.
  record Ran (name : String) (r : Option String × TaskItem W × TaskManager W) : Type 0 where
    told_of : IsTold r.2
    there : lookup name r.2.tasks ≡ some r.1
    same : r.1.name ≡ name

  item_run-Ran :
      (name : String) (task : TaskItem W) (tm : TaskManager W)
      → lookup name tm.tasks ≡ some task
      → IsTold tm
      → Ran name (item_run name task tm)
  unfolding item_run
  item_run-Ran name task tm there told_ =
      let tm' = cancel_context task.cancel tm in
      let there' : lookup name tm'.tasks ≡ some task =
        rw (cancel_context-tasks task.cancel tm) there in
      let task' =
        record_error (task.task_func tm'.world).0 (record task { cancel = some tm'.contexts }) in
      let same : task'.name ≡ name = record_error-name _ _ ∙ told_.named name task there in
      record {
        told_of =
            write-IsTold name task task' tm' there' same (suc tm'.contexts)
              (task.task_func tm'.world).1 (cancel_context-IsTold task.cancel tm told_);
        there = rw (lookup-insert name name task' tm'.tasks, eq_refl name) refl;
        same = same;
      }

  run_found-IsTold :
      (name : String) (tm : TaskManager W) (o : Option (TaskItem W))
      → lookup name tm.tasks ≡ o
      → IsTold tm
      → IsTold (run_found name tm o).1
  run_found-IsTold name tm none there told_ = told_
  run_found-IsTold name tm (some task) there told_ =
      let r = item_run name task (fire task running tm) in
      let ran =
        item_run-Ran name task (fire task running tm) there
          (fire-IsTold task running tm (λ b. refl) told_) in
      fire-IsTold r.1 (outcome r.0) r.2 (outcome-quiet r.0) ran.told_of

  watch_found-IsTold :
      (name : String) (tm : TaskManager W) (o : Option (TaskItem W))
      → lookup name tm.tasks ≡ o
      → IsTold tm
      → IsTold (watch_found name tm o).1
  watch_found-IsTold name tm none there told_ = told_
  watch_found-IsTold name tm (some task) there told_ =
      let r = item_run name task tm in
      let ran = item_run-Ran name task tm there told_ in
      let tm' = cancel_context r.1.watch_cancel r.2 in
      let there' : lookup name tm'.tasks ≡ some r.1 =
        rw (cancel_context-tasks r.1.watch_cancel r.2) ran.there in
      fire-IsTold r.1 watching (start_watch name r.1 r.2) (λ b. refl)
        (write-IsTold name r.1 _ tm' there' ran.same (suc tm'.contexts) tm'.world
          (cancel_context-IsTold r.1.watch_cancel r.2 ran.told_of))

  cancel_found-IsTold :
      (name : String) (tm : TaskManager W) (o : Option (TaskItem W))
      → IsTold tm
      → IsTold (cancel_found name tm o).1
  cancel_found-IsTold name tm none told_ = told_
  cancel_found-IsTold name tm (some task) told_ =
      fire-IsTold task stopped _ (λ b. refl)
        (cancel_context-IsTold task.cancel _ (cancel_context-IsTold task.watch_cancel tm told_))

  perform-IsTold : (c : Call W) (tm : TaskManager W) → IsTold tm → IsTold (perform c tm)
  unfolding perform run watch cancel_task
  perform-IsTold (call_add task) tm = add_task-IsTold task tm
  perform-IsTold (call_register name meta tf) tm = register-IsTold name meta tf tm
  perform-IsTold (call_rm name) tm = rm_task-IsTold name tm
  perform-IsTold (call_run name) tm = run_found-IsTold name tm (lookup name tm.tasks) refl
  perform-IsTold (call_watch name) tm = watch_found-IsTold name tm (lookup name tm.tasks) refl
  perform-IsTold (call_cancel name) tm = cancel_found-IsTold name tm (lookup name tm.tasks)

  perform_all-IsTold :
      (calls : List (Call W)) (tm : TaskManager W) → IsTold tm → IsTold (perform_all calls tm)
  unfolding perform_all
  perform_all-IsTold [] tm told_ = told_
  perform_all-IsTold (c ∷ calls) tm told_ =
      perform_all-IsTold calls (perform c tm) (perform-IsTold c tm told_)

  -- After any calls of a new manager, one who has heard all events knows for each name whether Has
  -- answers that there is a task: the last event for the name that adds or removes a task says so.
  pub perform_all-heard :
      (world : W) (calls : List (Call W)) (key : String)
      → heard_from key false (perform_all calls (new_task_manager world)).events
        ≡ has key (perform_all calls (new_task_manager world))
  unfolding has
  perform_all-heard world calls key =
      let all = perform_all-IsTold calls (new_task_manager world) (new_task_manager-IsTold world) in
      all.heard key

  cancel_context-lookup :
      (c : Option ℕ) (tm : TaskManager W) (other : String)
      → lookup other (cancel_context c tm).tasks ≡ lookup other tm.tasks
  cancel_context-lookup none tm other = refl
  cancel_context-lookup (some c) tm other = refl

  get-add_task :
      (task : TaskItem W) (tm : TaskManager W) (other : String)
      → get task.name tm ≡ none
      → get other (add_task task tm) ≡ (if other == task.name then some task else get other tm)
  unfolding get add_task has
  get-add_task task tm other new = rw new (lookup-insert task.name other task tm.tasks)

  rm_found-lookup :
      (name : String) (tm : TaskManager W) (o : Option (TaskItem W)) (other : String)
      → lookup name tm.tasks ≡ o
      → lookup other (rm_found name tm o).1.tasks
        ≡ (if other == name then none else lookup other tm.tasks)
  rm_found-lookup name tm none other there = elim (Bool-cases (other == name)) [
    | inl e ↦ rw ((eq_iff other name).0 e, eq_refl name) there
    | inr e ↦ rw e refl
  ]
  rm_found-lookup name tm (some task) other there =
      lookup-remove name other (cancel_context task.cancel tm).tasks
      ∙ ap (λ (r : Option (TaskItem W)). if other == name then none else r)
          (cancel_context-lookup task.cancel tm other)

  -- After Register, Get finds the new task under its name, whether there was one before or not, and
  -- under every other name what it found before.
  pub get-register :
      (name : String) (meta : Dict String) (tf : W → Option String × W) (tm : TaskManager W)
      (other : String)
      → get other (register name meta tf tm)
        ≡ (if other == name then some (new_task_item name meta tf) else get other tm)
  unfolding get register rm_task has
  get-register name meta tf tm other = elim (Option-cases (lookup name tm.tasks)) [
    | inl new ↦ rw new (get-add_task (new_task_item name meta tf) tm other new)
    | inr (task, there) ↦
        let tm' = (rm_found name tm (some task)).1 in
        let gone : get name tm' ≡ none =
          rm_found-lookup name tm (some task) name there ∙ rw (eq_refl name) refl in
        rw there (
          get-add_task (new_task_item name meta tf) tm' other gone
          ∙ elim (Bool-cases (other == name)) [
            | inl e ↦ rw e refl
            | inr e ↦ rw e (rm_found-lookup name tm (some task) other there ∙ rw e refl)
          ])
  ]
