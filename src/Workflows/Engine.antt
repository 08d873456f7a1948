-- ===== src/Workflows/Engine.antt =====
-- The start of a run and the execution of its steps (`startRun`, `executeStep` and what they call)
-- in src/modules/workflows/workflow-engine.service.ts.
use desk_be.Common.{
  ℕ, suc, String, List, [], ◌∷◌, ◌++◌, Bool, Option, none, some, str_eq, opt_eq, length, find,
  coalesce, present, not, ◌&&◌, ◌||◌, if◌then◌else◌,
}
use desk_be.Workflows.Values.{Fields, text, one, value_of, put, string_of, is_true}
use desk_be.Workflows.Config.{Step, Workflow, is_connector, is_question, find_next_step}
use desk_be.Workflows.World.{
  running, waiting, completed, failed, Run, RunStep, Context, World, find_run, find_workflow,
  update_run, set_status, save_context, load_context, mark_active_run, enqueue_step,
  create_run_step, update_run_step,
}
use desk_be.Workflows.Runs.{is_live, record_activity, complete_run, fail_run}
use desk_be.Workflows.Router.{run_step_handler}
use desk_be.Workflows.Handlers.{Result, replied, threw, Outside, Handled, is_start}

-- `ensureWorkflowConversation(ctx, { openContact, saveContext: false })`; the row of the contact is
-- the outside's
unfoldable pub ensure_conversation : Outside → Bool → Context → World → Context
unfolding put value_of string_of
ensure_conversation x open_contact c w =
    let named = record c { conversation_id = some (x.conversation w c) } in
    if open_contact && not (opt_eq (string_of (value_of "status" c.contact)) "open")
    then record named { contact = put "status" (one (text "open")) c.contact }
    else named

-- `ensureRunConversation`
unfoldable pub ensure_run_conversation : Outside → String → Context → World → Context
unfolding ensure_conversation
ensure_run_conversation x trigger_type c w = elim (present c.conversation_id) [
  | some conversation ↦ c
  | none ↦ ensure_conversation x (not (str_eq trigger_type "conversation_closed")) c w
]

-- `isTriggeredSubWorkflow`
unfoldable pub is_triggered_sub_workflow : Fields → Bool
unfolding is_true value_of
is_triggered_sub_workflow fields =
    is_true (value_of "triggeredByWorkflow" fields) || is_true (value_of "triggeredByRunId" fields)

-- `resolveInitialStep`
unfoldable pub resolve_initial_step : List Step → Fields → Option Step
unfolding is_start value_of string_of is_true
resolve_initial_step steps fields =
    if opt_eq (string_of (value_of "startFrom" fields)) "specific_step"
      && is_true (value_of "targetStepId" fields)
    then find (is_start (string_of (value_of "targetStepId" fields))) steps
    else find (λ s. opt_eq s.parent_id "trigger") steps

-- the first step of a run, or its end
unfoldable pub begin : Option Step → Context → World → World
unfolding complete_run enqueue_step
begin none c w = complete_run c.run_id c w
begin (some step) c w = enqueue_step c.run_id step.id w

-- the run that `startRun` creates, and its context
unfoldable pub new_run : String → String → Workflow → String → Fields → World → Run
new_run id workspace f contact fields w = record {
  id = id;
  workspace_id = workspace;
  workflow_id = f.id;
  contact_id = contact;
  status = running;
  current_step_id = none;
  trigger_data = fields;
  started_at = w.now;
  completed_at = none;
  failed_at = none;
  error = none;
}

unfoldable pub new_context :
    String → String → Workflow → String → Option String → Fields → Fields → Context
new_context id workspace f contact conversation data_of_contact fields = record {
  run_id = id;
  workflow_id = f.id;
  workflow_name = f.name;
  workspace_id = workspace;
  contact_id = contact;
  conversation_id = conversation;
  contact = data_of_contact;
  trigger = fields;
  steps = [];
  vars = [];
}

-- `startRun` of a workflow that is published, from the creation of its run on
unfoldable pub launch : Workflow → Run → Context → World → World
unfolding save_context record_activity mark_active_run is_triggered_sub_workflow
    resolve_initial_step begin
launch f r c w =
    let created = record w { runs = w.runs ++ r ∷ [] } in
    let saved = record_activity c "workflow_started" none (save_context c created) in
    let marked = if is_triggered_sub_workflow c.trigger then saved else mark_active_run c saved in
    begin (resolve_initial_step f.steps c.trigger) c marked

-- `startRun`; the database refuses an id that is taken
unfoldable pub start_run :
    Outside → String → String → String → Option String → Fields → World → World
unfolding launch new_run new_context ensure_run_conversation
start_run x workspace workflow contact conversation fields w =
    elim (find (λ f. str_eq f.id workflow && str_eq f.workspace_id workspace) w.workflows) [
      | none ↦ w
      | some f ↦ if not (str_eq f.status "published") then w else elim (find_run (x.uuid w) w) [
        | some taken ↦ w
        | none ↦
            launch f (new_run (x.uuid w) workspace f contact fields w)
              (ensure_run_conversation x f.trigger.kind
                (new_context (x.uuid w) workspace f contact conversation (x.contact w contact)
                  fields)
                w)
              w
      ]
    ]

-- the connector that a step's error is routed to
unfoldable pub error_connector : Step → List Step → Option Step
unfolding is_connector
error_connector step steps =
    find (λ s. opt_eq s.parent_id step.id && is_connector s.kind && opt_eq s.name "Error") steps

unfoldable pub failed_step : ℕ → String → RunStep → RunStep
failed_step now e s = record s {
  status = failed;
  error = some e;
  completed_at = some now;
  attempts = suc s.attempts;
}

-- `handleStepError`
unfoldable pub handle_step_error : ℕ → String → Step → Context → List Step → String → World → World
unfolding error_connector failed_step update_run_step enqueue_step fail_run
handle_step_error position run_id step c steps e w =
    let noted = update_run_step position (failed_step w.now e) w in
    elim (error_connector step steps) [
      | some connector ↦ enqueue_step run_id connector.id noted
      | none ↦ fail_run run_id c e noted
    ]

unfoldable pub completed_step : ℕ → Fields → RunStep → RunStep
completed_step now output s = record s {
  status = completed;
  output = output;
  completed_at = some now;
  attempts = suc s.attempts;
}

-- whether a step that suspends marks its run as the contact's active one
unfoldable pub awaits_reply : Step → Result → Bool
unfolding is_question
awaits_reply step r = is_question step.kind || opt_eq r.wait_for "template_button"

-- a step that suspends
unfoldable pub suspend_run : String → Step → Result → Context → World → World
unfolding update_run mark_active_run awaits_reply
suspend_run run_id step r c w =
    let suspended = update_run run_id (set_status waiting) w in
    if awaits_reply step r then mark_active_run c suspended else suspended

-- the step that follows a result
unfoldable pub next_of : Step → List Step → Result → Option String
unfolding find_next_step
next_of step steps r =
    present (coalesce r.next_step_id (find_next_step step.id steps r.branch_connector_id))

-- the next step, or the end of the run
unfoldable pub go_to : Option String → String → Context → World → World
unfolding complete_run enqueue_step
go_to none run_id c w = complete_run run_id c w
go_to (some next) run_id c w = enqueue_step run_id next w

-- what follows a step that succeeded
unfoldable pub advance : String → Step → List Step → Result → Context → World → World
unfolding suspend_run next_of go_to
advance run_id step steps r c w =
    if r.suspend then suspend_run run_id step r c w else go_to (next_of step steps r) run_id c w

unfoldable pub settle : ℕ → String → Step → List Step → Handled → World
unfolding completed_step update_run_step save_context advance handle_step_error put
settle position run_id step steps h = elim h.reply [
  | threw e ↦ handle_step_error position run_id step h.context steps e h.world
  | replied r ↦
      let c = record h.context {
        steps = put step.id (record { output = r.output; status = completed }) h.context.steps;
      } in
      advance run_id step steps r c
        (save_context c (update_run_step position (completed_step h.world.now r.output) h.world))
]

unfoldable pub new_run_step : String → Step → ℕ → RunStep
new_run_step run_id step now = record {
  run_id = run_id;
  step_id = step.id;
  step_type = step.kind;
  status = running;
  input = step.step_data.rest;
  output = [];
  error = none;
  attempts = 0;
  started_at = now;
  completed_at = none;
}

-- `executeStep`, at a step that was found
unfoldable pub perform : Outside → String → Step → List Step → Context → World → World
unfolding new_run_step create_run_step update_run run_step_handler settle
perform x run_id step steps c w =
    let noted =
      update_run run_id (λ r. record r { current_step_id = some step.id })
        (create_run_step (new_run_step run_id step w.now) w) in
    settle (length w.run_steps) run_id step steps (run_step_handler x step c steps noted)

-- `executeStep`
unfoldable pub execute : Outside → String → String → World → World
unfolding is_live perform complete_run
execute x run_id step_id w = elim (find_run run_id w) [
  | none ↦ w
  | some r ↦ if not (is_live r.status) then w else elim (load_context run_id w) [
    | none ↦ w
    | some c ↦ elim (find_workflow r.workflow_id w) [
      | none ↦ w
      | some f ↦ elim (find (λ s. str_eq s.id step_id) f.steps) [
        | none ↦ complete_run run_id c w
        | some step ↦ perform x run_id step f.steps c w
      ]
    ]
  ]
]
