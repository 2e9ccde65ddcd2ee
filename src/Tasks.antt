-- ===== src/Tasks.antt =====
-- The task manager (app/api/task_manager.py). Its lock makes every operation atomic, so the threads'
-- interleavings are sequences of operations. Identifiers and times are arguments; progress is a
-- percentage, never negative. The queries that list tasks are not modelled.
pub mod Cancelling
mod Examples
use devops_agent.Prelude.{
  ℕ, min, Bool, true, false, ◌&&◌, not, Option, none, some, List, [], ◌∷◌, ltb, if◌then◌else◌,
  length,
}
use devops_agent.Text.{Text, text_eq}
use devops_agent.Dict.{Dict, lookup, insert, remove}

pub data TaskStatus : Type 0 where
  queued running completed failed cancel_requested cancelled : TaskStatus

pub record TaskInfo : Type 0 where
  pub id : Text
  pub conversation_id : Text
  pub title : Text
  pub status : TaskStatus
  pub progress : ℕ
  pub current_step : Text
  pub started_at : ℕ
  pub completed_at : Option ℕ
  pub tool_name : Text
  pub cancellable : Bool
  pub result : Option Text

pub record TaskManager : Type 0 where
  pub tasks : Dict TaskInfo
  -- whether each task's `threading.Event` is set
  pub cancel_events : Dict Bool

unfoldable pub create_task : ℕ → Text → Text → Text → Text → Bool → TaskManager → TaskManager
create_task now task_id conversation_id title tool_name cancellable m =
    let task : TaskInfo = record {
      id = task_id;
      conversation_id = conversation_id;
      title = title;
      status = queued;
      progress = 0;
      current_step = [];
      started_at = now;
      completed_at = none;
      tool_name = tool_name;
      cancellable = cancellable;
      result = none;
    } in
    record {
      tasks = insert task_id task m.tasks;
      cancel_events = insert task_id false m.cancel_events;
    }

-- an operation that changes the task if there is one, and says whether there was
on_found : Text → (TaskInfo → TaskInfo) → Option TaskInfo → TaskManager → Bool × TaskManager
on_found task_id change none m = (false, m)
on_found task_id change (some t) m = (true, record m { tasks = insert task_id (change t) m.tasks })

unfoldable pub change_task : Text → (TaskInfo → TaskInfo) → TaskManager → Bool × TaskManager
unfolding on_found
change_task task_id change m = on_found task_id change (lookup task_id m.tasks) m

unfoldable pub start_task : Text → Text → TaskManager → Bool × TaskManager
unfolding change_task
start_task task_id step m =
    change_task task_id (λ t. record t { status = running; current_step = step }) m

step_or_old : Text → Text → Text
step_or_old [] old = old
step_or_old (c ∷ s) old = c ∷ s

unfoldable pub update_progress : Text → ℕ → Text → TaskManager → Bool × TaskManager
unfolding change_task step_or_old
update_progress task_id progress step m =
    change_task task_id
      (λ t. record t {
        progress = min 100 progress;
        current_step = step_or_old step t.current_step;
      })
      m

unfoldable pub complete_task : ℕ → Text → Option Text → TaskManager → Bool × TaskManager
unfolding change_task
complete_task now task_id result m =
    change_task task_id
      (λ t. record t {
        status = completed;
        progress = 100;
        completed_at = some now;
        result = result;
      })
      m

unfoldable pub fail_task : ℕ → Text → Text → TaskManager → Bool × TaskManager
unfolding change_task
fail_task now task_id error m =
    change_task task_id
      (λ t. record t { status = failed; completed_at = some now; result = some error }) m

unfoldable pub confirm_cancel : ℕ → Text → TaskManager → Bool × TaskManager
unfolding change_task
confirm_cancel now task_id m =
    change_task task_id (λ t. record t { status = cancelled; completed_at = some now }) m

unfoldable pub can_stop : TaskStatus → Bool
can_stop queued = true
can_stop running = true
can_stop _ = false

-- `if event: event.set()`
set_event : Text → Option Bool → Dict Bool → Dict Bool
set_event task_id none events = events
set_event task_id (some b) events = insert task_id true events

unfoldable pub cancel_found : Text → Option TaskInfo → TaskManager → Bool × TaskManager
unfolding can_stop set_event
cancel_found task_id none m = (false, m)
cancel_found task_id (some t) m =
    if t.cancellable && can_stop t.status
    then (
      true,
      record {
        tasks = insert task_id (record t { status = cancel_requested }) m.tasks;
        cancel_events = set_event task_id (lookup task_id m.cancel_events) m.cancel_events;
      },
    )
    else (false, m)

unfoldable pub request_cancel : Text → TaskManager → Bool × TaskManager
unfolding cancel_found
request_cancel task_id m = cancel_found task_id (lookup task_id m.tasks) m

or_false : Option Bool → Bool
or_false none = false
or_false (some b) = b

unfoldable pub is_cancelled : Text → TaskManager → Bool
unfolding or_false
is_cancelled task_id m = or_false (lookup task_id m.cancel_events)

unfoldable pub is_old : ℕ → Option ℕ → Bool
is_old cutoff none = false
is_old cutoff (some t) = ltb t cutoff

-- `to_remove`
unfoldable pub old_tasks : ℕ → Dict TaskInfo → List Text
unfolding is_old
old_tasks cutoff [] = []
old_tasks cutoff ((task_id, t) ∷ tasks) =
    let rest = old_tasks cutoff tasks in
    if is_old cutoff t.completed_at then task_id ∷ rest else rest

unfoldable pub remove_all {ℓ} : {V : Type ℓ} → List Text → Dict V → Dict V
remove_all [] d = d
remove_all (k ∷ ks) d = remove_all ks (remove k d)

unfoldable pub cleanup_old_tasks : ℕ → TaskManager → ℕ × TaskManager
unfolding old_tasks remove_all
cleanup_old_tasks cutoff m =
    let to_remove = old_tasks cutoff m.tasks in
    (
      length to_remove,
      record {
        tasks = remove_all to_remove m.tasks;
        cancel_events = remove_all to_remove m.cancel_events;
      },
    )

-- the operations as requests, with their arguments
pub data Request : Type 0 where
  create : ℕ → Text → Text → Text → Text → Bool → Request
  start : Text → Text → Request
  progressed : Text → ℕ → Text → Request
  complete : ℕ → Text → Option Text → Request
  fail : ℕ → Text → Text → Request
  cancel : Text → Request
  confirm : ℕ → Text → Request
  cleanup : ℕ → Request

unfoldable pub serve : Request → TaskManager → TaskManager
unfolding create_task start_task update_progress complete_task fail_task request_cancel
    confirm_cancel cleanup_old_tasks
serve (create now k c t n b) m = create_task now k c t n b m
serve (start k s) m = (start_task k s m).1
serve (progressed k p s) m = (update_progress k p s m).1
serve (complete now k r) m = (complete_task now k r m).1
serve (fail now k e) m = (fail_task now k e m).1
serve (cancel k) m = (request_cancel k m).1
serve (confirm now k) m = (confirm_cancel now k m).1
serve (cleanup cutoff) m = (cleanup_old_tasks cutoff m).1

unfoldable pub serve_all : List Request → TaskManager → TaskManager
unfolding serve
serve_all [] m = m
serve_all (r ∷ rs) m = serve_all rs (serve r m)
