-- ===== src/Tests/TaskRuns.antt =====
-- The theorems on pkg/tasks at a manager of two tasks.
use apigear_cli.Base.{
  ◌≡◌, refl, ℕ, suc, String, false, Option, none, some, List, [], ◌∷◌, ◌==◌, map, if◌then◌else◌,
}
use apigear_cli.Base.Dict.{lookup, insert}
use apigear_cli.Tasks.{
  added, removed, running, finished, failed, TaskEvent, TaskManager, new_task_item,
  new_task_manager, get, has, register, Call, call_register, call_run, call_rm, perform_all,
}
use apigear_cli.Tasks.Told.{heard_from}
use apigear_cli.Tasks.Events.{perform_all-heard, get-register}

-- A task that counts its runs, and one that fails.
abbrev count : ℕ → Option String × ℕ
count n = (none, suc n)

abbrev fail : ℕ → Option String × ℕ
fail n = (some "no", n)

abbrev calls : List (Call ℕ)
calls =
    call_register "a" [] count
    ∷ call_register "b" [] fail
    ∷ call_run "a"
    ∷ call_run "b"
    ∷ call_rm "a"
    ∷ []

abbrev done : TaskManager ℕ
done = perform_all calls (new_task_manager 0)

calls_fire :
    map (λ (e : TaskEvent). e.state) done.events
    ≡ added ∷ added ∷ running ∷ finished ∷ running ∷ failed ∷ removed ∷ []
unfolding perform_all lookup insert
calls_fire = refl

perform_all-heard_example :
    heard_from "a" false (perform_all calls (new_task_manager 0)).events
    ≡ has "a" (perform_all calls (new_task_manager 0))
perform_all-heard_example = perform_all-heard 0 calls "a"

get-register_example :
    get "b" (register "b" [] count done)
    ≡ (if "b" == "b" then some (new_task_item "b" [] count) else get "b" done)
get-register_example = get-register "b" [] count done "b"
