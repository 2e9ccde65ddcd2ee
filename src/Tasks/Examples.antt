-- ===== src/Tasks/Examples.antt =====
-- The task manager's theorem at a concrete task.
use devops_agent.Prelude.{◌≡◌, refl, true, false, none, [], ◌∷◌, any}
use devops_agent.Text.{Text, text_eq, codes}
use devops_agent.Dict.{lookup, insert}
use devops_agent.Tasks.{
  TaskManager, create_task, request_cancel, cancel_found, can_stop, is_cancelled, progressed,
  complete, serve_all,
}
use devops_agent.Tasks.Cancelling.{request_cancel-is_cancelled}

abbrev task_1 : Text
task_1 = codes "task-1"

abbrev one_task : TaskManager
unfolding create_task insert
one_task =
    create_task 1000 task_1 (codes "c") (codes "Check disks") (codes "df") true
      (record { tasks = []; cancel_events = [] })

request_cancel-is_cancelled_example :
    is_cancelled task_1 (
      serve_all
        (progressed task_1 50 [] ∷ complete 1010 task_1 none ∷ [])
        (request_cancel task_1 one_task).1)
    ≡ true
unfolding one_task create_task insert lookup text_eq request_cancel cancel_found can_stop any
request_cancel-is_cancelled_example =
    request_cancel-is_cancelled task_1 false
      (progressed task_1 50 [] ∷ complete 1010 task_1 none ∷ []) one_task refl refl refl
