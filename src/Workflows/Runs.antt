-- ===== src/Workflows/Runs.antt =====
-- The end of a run (`completeRun`, `failRun` and what they call) in
-- src/modules/workflows/workflow-engine.service.ts.
pub mod Rounds
use desk_be.Common.{
  ℕ, zero, suc, String, List, [], ◌∷◌, ◌++◌, Bool, true, false, Option, none, some, str_eq, length,
  lookup, present, if◌then◌else◌,
}
use desk_be.Workflows.Values.{Fields, one, text, value_of, filled, remove, merge}
use desk_be.Workflows.World.{
  Status, running, waiting, completed, failed, cancelled, Run, Context, ActiveRun, World, resume,
  active_run_key, find_run, update_run, save_context, load_context, add_job,
}

unfoldable pub is_waiting : Status → Bool
is_waiting waiting = true
is_waiting s = false

-- `['running', 'waiting'].includes(run.status)`
unfoldable pub is_live : Status → Bool
is_live running = true
is_live waiting = true
is_live s = false

-- `recordWorkflowLifecycleActivity`, where the service of activities is there
unfoldable pub record_activity : Context → String → Option String → World → World
record_activity c event_type error w = elim c.conversation_id [
  | none ↦ w
  | some conversation ↦ record w {
    timeline =
        w.timeline
        ++ record {
          conversation_id = conversation;
          event_type = event_type;
          run_id = c.run_id;
          error = present error;
        }
          ∷ [];
  }
]

unfoldable pub names_run : String → Option ActiveRun → Bool
names_run run_id none = false
names_run run_id (some a) = str_eq a.run_id run_id

-- `cleanupRun`
unfoldable pub cleanup_run : String → Context → World → World
unfolding remove names_run active_run_key
cleanup_run run_id c w =
    let key = active_run_key c.workspace_id c.contact_id in
    record w {
      contexts = remove run_id w.contexts;
      active = if names_run run_id (lookup key w.active) then remove key w.active else w.active;
    }

error_field : Option String → Fields
error_field none = []
error_field (some e) = ("triggeredWorkflowError", one (text e)) ∷ []

-- `resumeData` of a child's parent; an empty error is left out
unfoldable pub child_result : Context → String → Option String → Fields
unfolding error_field
child_result c status error =
    ("triggeredWorkflowId", one (text c.workflow_id))
    ∷ ("triggeredWorkflowRunId", one (text c.run_id))
    ∷ ("triggeredWorkflowStatus", one (text status))
    ∷ error_field (present error)

unfoldable pub completed_now : ℕ → Run → Run
completed_now now r = record r { status = completed; completed_at = some now }

unfoldable pub failed_now : ℕ → String → Run → Run
failed_now now e r = record r { status = failed; failed_at = some now; error = some e }

-- a parent that waits for its child
unfoldable pub parent_waits : Option Run → Bool
unfolding is_waiting
parent_waits none = false
parent_waits (some r) = is_waiting r.status

-- the context of a parent that its child ends
unfoldable pub parent_left : Context → Context → String → Option String → Context
unfolding child_result merge
parent_left parent c status error = record parent {
  vars = merge parent.vars (child_result c status error);
}

-- a parent that has no step to go on with
unfoldable pub complete_parent :
    (String → Context → World → World) → Context → String → Option String → String → World → World
unfolding parent_left save_context
complete_parent complete c status error parent w = elim (load_context parent w) [
  | none ↦ w
  | some p ↦
      complete parent (parent_left p c status error) (save_context (parent_left p c status error) w)
]

-- a parent that waits goes on with its next step, or ends
unfoldable pub go_on_parent :
    (String → Context → World → World) → Context → String → Option String → String → World → World
unfolding filled value_of child_result add_job complete_parent
go_on_parent complete c status error parent w =
    elim (filled (value_of "resumeParentStepId" c.trigger)) [
      | some step ↦
          add_job
            (resume parent (child_result c status error ++ ("nextStepId", one (text step)) ∷ [])) 0
            w
      | none ↦ complete_parent complete c status error parent w
    ]

-- `resumeParentWorkflowAfterChild`, where `complete` completes a run
unfoldable pub resume_parent :
    (String → Context → World → World) → Context → String → Option String → World → World
unfolding filled value_of parent_waits go_on_parent
resume_parent complete c status error w = elim (filled (value_of "triggeredByRunId" c.trigger)) [
  | none ↦ w
  | some parent ↦
      if parent_waits (find_run parent w) then go_on_parent complete c status error parent w else w
]

-- the part of `completeRun` before the parent
unfoldable pub end_as_completed : String → Context → World → World
unfolding update_run completed_now record_activity cleanup_run
end_as_completed run_id c w =
    cleanup_run run_id c
      (record_activity c "workflow_ended" none (update_run run_id (completed_now w.now) w))

-- `completeRun`, in at most `fuel` rounds of it: a run, its parent, and so on
unfoldable pub complete_within : ℕ → String → Context → World → World
unfolding end_as_completed resume_parent
complete_within zero run_id c w = w
complete_within (suc fuel) run_id c w =
    resume_parent (complete_within fuel) c "completed" none (end_as_completed run_id c w)

-- Each round ends a run that has not ended, so as many rounds as there are runs are enough.
unfoldable pub complete_run : String → Context → World → World
unfolding complete_within
complete_run run_id c w = complete_within (suc (length w.runs)) run_id c w

-- `failRun`
unfoldable pub fail_run : String → Context → String → World → World
unfolding update_run failed_now record_activity cleanup_run resume_parent complete_run
fail_run run_id c e w = resume_parent complete_run c "failed" (some e) (
    cleanup_run run_id c
      (record_activity c "workflow_failed" (some e) (update_run run_id (failed_now w.now e) w)))
