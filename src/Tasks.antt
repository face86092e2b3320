-- ===== src/Tasks.antt =====
-- pkg/tasks: manager.go and event.go, and what task.go does when the manager calls it. The pointers to
-- the tasks are the values in the map, which is written when a task changes. A context is its number,
-- and a call of its cancel function puts the number on a list. The events are those given to FireHook,
-- the oldest first, without the meta data. A task's function changes a state `W` of its own, and
-- does not call the manager. The goroutine of TaskItem.Watch is not modelled, but for the context that
-- it makes first. The metadata that a task is registered with is a map that is made: UpdateMeta would
-- panic on a nil one. Locks are held within a call and given back at its end.
pub mod Told
pub mod Events
use apigear_cli.Base.{
  ℕ, suc, String, Bool, true, false, Option, none, some, List, [], ◌∷◌, ◌++◌, ◌==◌, if◌then◌else◌,
}
use apigear_cli.Base.Dict.{Dict, Entry, lookup, insert, remove}

-- TaskState
pub data TaskState : Type 0 where
  idle added removed watching running finished stopped failed : TaskState

pub record TaskEvent : Type 0 where
  pub name : String
  pub state : TaskState

pub record TaskItem (W : Type 0) : Type 0 where
  pub name : String
  pub meta : Dict String
  pub task_func : W → Option String × W
  pub cancel : Option ℕ
  pub watch_cancel : Option ℕ

-- TaskManager, with the number of contexts made, and those cancelled.
pub record TaskManager (W : Type 0) : Type 0 where
  pub tasks : Dict (TaskItem W)
  pub events : List TaskEvent
  pub contexts : ℕ
  pub cancelled : List ℕ
  pub world : W

abbrev pub is_present : {A : Type 0} → Option A → Bool
is_present none = false
is_present (some task) = true

abbrev pub outcome : Option String → TaskState
outcome none = finished
outcome (some e) = failed

-- A call of the manager.
pub data Call (W : Type 0) : Type 0 where
  call_add : TaskItem W → Call W
  call_register : String → Dict String → (W → Option String × W) → Call W
  call_rm call_run call_watch call_cancel : String → Call W

module _ {W : Type 0} where
  -- NewTaskItem
  abbrev pub new_task_item : String → Dict String → (W → Option String × W) → TaskItem W
  new_task_item name meta tf = record {
    name = name;
    meta = meta;
    task_func = tf;
    cancel = none;
    watch_cancel = none;
  }

  -- NewTaskManager
  abbrev pub new_task_manager : W → TaskManager W
  new_task_manager world = record {
    tasks = [];
    events = [];
    contexts = 0;
    cancelled = [];
    world = world;
  }

  -- tm.FireHook(NewTaskEvent(task, state))
  abbrev pub fire : TaskItem W → TaskState → TaskManager W → TaskManager W
  fire task state tm = record tm {
    events = tm.events ++ (record { name = task.name; state = state } ∷ []);
  }

  -- A call of a cancel function, which may be nil.
  abbrev pub cancel_context : Option ℕ → TaskManager W → TaskManager W
  cancel_context none tm = tm
  cancel_context (some context) tm = record tm { cancelled = context ∷ tm.cancelled }

  -- TaskManager.Get
  unfoldable pub get : String → TaskManager W → Option (TaskItem W)
  get name tm = lookup name tm.tasks

  -- TaskManager.Has
  unfoldable pub has : String → TaskManager W → Bool
  has name tm = is_present (lookup name tm.tasks)

  -- The part of AddTask for a task that is not nil.
  unfoldable pub add_task : TaskItem W → TaskManager W → TaskManager W
  unfolding has
  add_task task tm =
      if has task.name tm
      then tm
      else fire task added (record tm { tasks = insert task.name task tm.tasks })

  abbrev pub rm_found : String → TaskManager W → Option (TaskItem W) → Option String × TaskManager W
  rm_found name tm none = (some "task not found", tm)
  rm_found name tm (some task) =
      let tm' = cancel_context task.cancel tm in
      (none, fire task removed (record tm' { tasks = remove name tm'.tasks }))

  -- TaskManager.RmTask
  unfoldable pub rm_task : String → TaskManager W → Option String × TaskManager W
  unfolding get
  rm_task name tm = rm_found name tm (get name tm)

  -- TaskManager.Register, without the task that it returns.
  unfoldable pub register :
      String → Dict String → (W → Option String × W) → TaskManager W → TaskManager W
  unfolding rm_task add_task
  register name meta tf tm =
      let tm' = if has name tm then (rm_task name tm).1 else tm in
      add_task (new_task_item name meta tf) tm'

  -- UpdateMeta, for the error that Run records, in a map that is not nil.
  abbrev pub record_error : Option String → TaskItem W → TaskItem W
  record_error none task = task
  record_error (some e) task = record task { meta = insert "error" e task.meta }

  -- TaskItem.Run, for the task under the name.
  unfoldable pub item_run :
      String → TaskItem W → TaskManager W → Option String × TaskItem W × TaskManager W
  item_run name task tm =
      let tm' = cancel_context task.cancel tm in
      let (e, world) = task.task_func tm'.world in
      let task' = record_error e (record task { cancel = some tm'.contexts }) in
      (
        e,
        task',
        record tm' {
          contexts = suc tm'.contexts;
          world = world;
          tasks = insert name task' tm'.tasks;
        },
      )

  abbrev pub run_found :
      String → TaskManager W → Option (TaskItem W) → Option String × TaskManager W
  run_found name tm none = (some "task not found", tm)
  run_found name tm (some task) =
      let (e, task', tm') = item_run name task (fire task running tm) in
      (e, fire task' (outcome e) tm')

  -- TaskManager.Run
  unfoldable pub run : String → TaskManager W → Option String × TaskManager W
  unfolding get item_run
  run name tm = run_found name tm (get name tm)

  -- The first lines of TaskItem.Watch.
  abbrev pub start_watch : String → TaskItem W → TaskManager W → TaskManager W
  start_watch name task tm =
      let tm' = cancel_context task.watch_cancel tm in
      record tm' {
        contexts = suc tm'.contexts;
        tasks = insert name (record task { watch_cancel = some tm'.contexts }) tm'.tasks;
      }

  abbrev pub watch_found :
      String → TaskManager W → Option (TaskItem W) → Option String × TaskManager W
  watch_found name tm none = (some "task not found", tm)
  watch_found name tm (some task) =
      let (e, task', tm') = item_run name task tm in
      (none, fire task' watching (start_watch name task' tm'))

  -- TaskManager.Watch, where the goroutine starts at once.
  unfoldable pub watch : String → TaskManager W → Option String × TaskManager W
  unfolding get item_run
  watch name tm = watch_found name tm (get name tm)

  abbrev pub cancel_found :
      String → TaskManager W → Option (TaskItem W) → Option String × TaskManager W
  cancel_found name tm none = (some "task not found", tm)
  cancel_found name tm (some task) =
      (none, fire task stopped (cancel_context task.cancel (cancel_context task.watch_cancel tm)))

  -- TaskManager.Cancel
  unfoldable pub cancel_task : String → TaskManager W → Option String × TaskManager W
  unfolding get
  cancel_task name tm = cancel_found name tm (get name tm)

  unfoldable pub perform : Call W → TaskManager W → TaskManager W
  unfolding add_task register rm_task run watch cancel_task
  perform (call_add task) tm = add_task task tm
  perform (call_register name meta tf) tm = register name meta tf tm
  perform (call_rm name) tm = (rm_task name tm).1
  perform (call_run name) tm = (run name tm).1
  perform (call_watch name) tm = (watch name tm).1
  perform (call_cancel name) tm = (cancel_task name tm).1

  unfoldable pub perform_all : List (Call W) → TaskManager W → TaskManager W
  unfolding perform
  perform_all [] tm = tm
  perform_all (c ∷ calls) tm = perform_all calls (perform c tm)
