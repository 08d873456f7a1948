-- ===== src/Workflows/World.antt =====
-- What the workflow engine works on: the rows of `WorkflowRun` and `WorkflowRunStep`
-- (prisma/schema.prisma), the keys in Redis and the job queue (src/queues/workflow.queue.ts,
-- src/modules/workflows/workflow-run.context.ts).
use desk_be.Common.{
  ℕ, String, List, [], ◌∷◌, ◌++◌, ◌-◌, map, Option, find, str_eq, join, lookup, ◌==◌, if◌then◌else◌,
}
use desk_be.Workflows.Values.{Fields, put}
use desk_be.Workflows.Config.{Workflow, StepType}

pub data Status : Type 0 where
  running waiting completed failed cancelled : Status

pub record Run : Type 0 where
  pub id : String
  pub workspace_id : String
  pub workflow_id : String
  pub contact_id : String
  pub status : Status
  pub current_step_id : Option String
  pub trigger_data : Fields
  pub started_at : ℕ
  pub completed_at : Option ℕ
  pub failed_at : Option ℕ
  pub error : Option String

pub record RunStep : Type 0 where
  pub run_id : String
  pub step_id : String
  pub step_type : StepType
  pub status : Status
  pub input : Fields
  pub output : Fields
  pub error : Option String
  pub attempts : ℕ
  pub started_at : ℕ
  pub completed_at : Option ℕ

pub record StepOutcome : Type 0 where
  pub output : Fields
  pub status : Status

-- `WorkflowRunContext`
pub record Context : Type 0 where
  pub run_id : String
  pub workflow_id : String
  pub workflow_name : String
  pub workspace_id : String
  pub contact_id : String
  pub conversation_id : Option String
  pub contact : Fields
  pub trigger : Fields
  pub steps : List (String × StepOutcome)
  pub vars : Fields

-- what the key of a contact's active run holds
pub record ActiveRun : Type 0 where
  pub run_id : String
  pub workflow_id : String

-- `WorkflowJob`
pub data Job : Type 0 where
  trigger : String → String → String → Option String → Fields → Job
  execute_step : String → String → Job
  resume : String → Fields → Job
  ask_question_timeout : String → String → Job

pub record Queued : Type 0 where
  pub job : Job
  pub delay : ℕ

-- an entry of a conversation's timeline that the engine records
pub record Activity : Type 0 where
  pub conversation_id : String
  pub event_type : String
  pub run_id : String
  pub error : Option String

-- `run_steps` are named by their position. `contexts`, `active` and `jumps` are the keys
-- `wf:ctx:…` (by the run), `wf:active:…` and `wf:jumps:…` of Redis. `queue` are the jobs that were
-- added, the earliest first.
pub record World : Type 0 where
  pub now : ℕ
  pub workflows : List Workflow
  pub runs : List Run
  pub run_steps : List RunStep
  pub contexts : List (String × Context)
  pub active : List (String × ActiveRun)
  pub jumps : List (String × ℕ)
  pub queue : List Queued
  pub timeline : List Activity

-- `ACTIVE_RUN_KEY`
unfoldable pub active_run_key : String → String → String
active_run_key workspace contact = join "wf:active:" (join workspace (join ":" contact))

-- `workflowRun.findUnique({ where: { id } })`
abbrev pub find_run : String → World → Option Run
find_run run_id w = find (λ r. str_eq r.id run_id) w.runs

-- `workflow.findUnique({ where: { id } })`
abbrev pub find_workflow : String → World → Option Workflow
find_workflow workflow_id w = find (λ f. str_eq f.id workflow_id) w.workflows

-- `workflowRun.update({ where: { id } })`
unfoldable pub update_run : String → (Run → Run) → World → World
update_run run_id f w = record w { runs = map (λ r. if str_eq r.id run_id then f r else r) w.runs }

abbrev pub set_status : Status → Run → Run
set_status s r = record r { status = s }

-- `workflowRun.update({ where: { id }, data: { status } })`
abbrev pub update_status : String → Status → World → World
unfolding update_run
update_status run_id s = update_run run_id (set_status s)

-- `saveContext`
unfoldable pub save_context : Context → World → World
unfolding put
save_context c w = record w { contexts = put c.run_id c w.contexts }

-- `loadContext`
abbrev pub load_context : String → World → Option Context
load_context run_id w = lookup run_id w.contexts

-- `markActiveRun`
unfoldable pub mark_active_run : Context → World → World
unfolding put active_run_key
mark_active_run c w = record w {
  active =
      put (active_run_key c.workspace_id c.contact_id)
        (record { run_id = c.run_id; workflow_id = c.workflow_id }) w.active;
}

-- `workflowQueue.add(…, { delay })`
unfoldable pub add_job : Job → ℕ → World → World
add_job job delay w = record w { queue = w.queue ++ record { job = job; delay = delay } ∷ [] }

-- `enqueueStep`
unfoldable pub enqueue_step : String → String → World → World
unfolding add_job
enqueue_step run_id step_id = add_job (execute_step run_id step_id) 0

-- the row at a position
update_at : ℕ → (RunStep → RunStep) → List RunStep → List RunStep
update_at n f [] = []
update_at n f (s ∷ ss) = if n == 0 then f s ∷ ss else s ∷ update_at (n - 1) f ss

-- `workflowRunStep.create` and `workflowRunStep.update`
unfoldable pub create_run_step : RunStep → World → World
create_run_step s w = record w { run_steps = w.run_steps ++ s ∷ [] }

unfoldable pub update_run_step : ℕ → (RunStep → RunStep) → World → World
unfolding update_at
update_run_step position f w = record w { run_steps = update_at position f w.run_steps }
