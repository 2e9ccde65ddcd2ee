-- ===== src/Tasks/Cancelling.antt =====
-- A request to cancel a task reaches the task.
use devops_agent.Prelude.{
  ◌≡◌, refl, ap, ◌∙◌, Bool, true, false, ◌&&◌, Option, none, some, List, [], ◌∷◌, any, arith,
  Bool-cases, inl, inr,
}
use devops_agent.Text.{Text, text_eq, text_eq→eq}
use devops_agent.Dict.{Dict, lookup, lookup-insert_self, lookup-insert_other}
use devops_agent.Tasks.{
  TaskInfo, TaskManager, create_task, on_found, change_task, start_task, update_progress,
  complete_task, fail_task, confirm_cancel, set_event, cancel_found, request_cancel, can_stop,
  is_cancelled, or_false, Request, create, start, progressed, complete, fail, cancel, confirm,
  cleanup, serve, serve_all,
}

-- the requests that make the task anew, or may remove it
abbrev pub is_reset : Text → Request → Bool
is_reset k (create now j c t n b) = text_eq j k
is_reset k (cleanup cutoff) = true
is_reset k _ = false

on_found-events :
    (k : Text) (f : TaskInfo → TaskInfo) (o : Option TaskInfo) (m : TaskManager)
    → (on_found k f o m).1.cancel_events ≡ m.cancel_events
unfolding on_found
on_found-events k f none m = refl
on_found-events k f (some t) m = refl

abbrev IsSignalled : Text → TaskManager → Type 0
IsSignalled k m = lookup k m.cancel_events ≡ some true

change_task-IsSignalled :
    (k j : Text) (f : TaskInfo → TaskInfo) (m : TaskManager)
    → IsSignalled k m
    → IsSignalled k (change_task j f m).1
unfolding change_task
change_task-IsSignalled k j f m h =
    ap (λ events. lookup k events) (on_found-events j f (lookup j m.tasks) m) ∙ h

set_event-IsSignalled :
    (k j : Text) (o : Option Bool) (events : Dict Bool)
    → lookup k events ≡ some true
    → lookup k (set_event j o events) ≡ some true
unfolding set_event
set_event-IsSignalled k j none events h = h
set_event-IsSignalled k j (some b) events h = elim (Bool-cases (text_eq j k)) [
  | inl same ↦ rw (text_eq→eq j k same) (lookup-insert_self k true events)
  | inr other ↦ lookup-insert_other j k true events other ∙ h
]

cancel_found-IsSignalled :
    (k j : Text) (o : Option TaskInfo) (m : TaskManager)
    → IsSignalled k m
    → IsSignalled k (cancel_found j o m).1
unfolding cancel_found
cancel_found-IsSignalled k j none m h = h
cancel_found-IsSignalled k j (some t) m h = elim (Bool-cases (t.cancellable && can_stop t.status)) [
  | inl stoppable ↦
      rw stoppable (set_event-IsSignalled k j (lookup j m.cancel_events) m.cancel_events h)
  | inr refused ↦ rw refused h
]

serve-IsSignalled :
    (k : Text) (r : Request) (m : TaskManager)
    → is_reset k r ≡ false
    → IsSignalled k m
    → IsSignalled k (serve r m)
unfolding serve create_task start_task update_progress complete_task fail_task confirm_cancel
    request_cancel
serve-IsSignalled k (create now j c t n b) m other h =
    lookup-insert_other j k false m.cancel_events other ∙ h
serve-IsSignalled k (start j s) m other h = change_task-IsSignalled k j _ m h
serve-IsSignalled k (progressed j p s) m other h = change_task-IsSignalled k j _ m h
serve-IsSignalled k (complete now j r) m other h = change_task-IsSignalled k j _ m h
serve-IsSignalled k (fail now j e) m other h = change_task-IsSignalled k j _ m h
serve-IsSignalled k (cancel j) m other h = cancel_found-IsSignalled k j (lookup j m.tasks) m h
serve-IsSignalled k (confirm now j) m other h = change_task-IsSignalled k j _ m h
serve-IsSignalled k (cleanup cutoff) m other h = cc

serve_all-IsSignalled :
    (k : Text) (rs : List Request) (m : TaskManager)
    → any (is_reset k) rs ≡ false
    → IsSignalled k m
    → IsSignalled k (serve_all rs m)
unfolding serve_all any
serve_all-IsSignalled k [] m other h = h
serve_all-IsSignalled k (r ∷ rs) m other h =
    let here : is_reset k r ≡ false = ground arith in
    let later : any (is_reset k) rs ≡ false = ground arith in
    serve_all-IsSignalled k rs (serve r m) later (serve-IsSignalled k r m here h)

cancel_found-sets :
    (k : Text) (b : Bool) (o : Option TaskInfo) (m : TaskManager)
    → lookup k m.cancel_events ≡ some b
    → (cancel_found k o m).0 ≡ true
    → IsSignalled k (cancel_found k o m).1
unfolding cancel_found set_event
cancel_found-sets k b none m e h = cc
cancel_found-sets k b (some t) m e h = elim (Bool-cases (t.cancellable && can_stop t.status)) [
  | inl stoppable ↦ rw (stoppable, e) (lookup-insert_self k true m.cancel_events)
  | inr refused ↦ let no : false ≡ true = ground arith in cc
]

-- Once a request to cancel a task that has its event is accepted, the task sees that it is
-- cancelled after any other requests, completions and further cancellations included, as long as
-- none creates a task with its identifier or cleans up.
pub request_cancel-is_cancelled :
    (k : Text) (b : Bool) (rs : List Request) (m : TaskManager)
    → lookup k m.cancel_events ≡ some b
    → (request_cancel k m).0 ≡ true
    → any (is_reset k) rs ≡ false
    → is_cancelled k (serve_all rs (request_cancel k m).1) ≡ true
unfolding request_cancel is_cancelled or_false
request_cancel-is_cancelled k b rs m e accepted quiet = ap or_false (
    serve_all-IsSignalled k rs (cancel_found k (lookup k m.tasks) m).1 quiet
      (cancel_found-sets k b (lookup k m.tasks) m e accepted))
