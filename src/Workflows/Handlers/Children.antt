-- ===== src/Workflows/Handlers/Children.antt =====
-- `handleTriggerAnotherWorkflow` of src/modules/workflows/workflow-engine.service.ts.
use desk_be.Common.{
  String, List, [], ◌∷◌, Bool, true, false, Option, none, some, str_eq, opt_eq, find, present, not,
  ◌&&◌, if◌then◌else◌,
}
use desk_be.Workflows.Values.{Fields, text, flag, one, merge, optional, undefined}
use desk_be.Workflows.Config.{Step, Workflow, find_next_step}
use desk_be.Workflows.World.{Context, World, trigger, add_job}
use desk_be.Workflows.Handlers.{Result, skipped, is_start}

-- the workflow that a step triggers, if it may be triggered
target_of : String → String → World → Option Workflow
target_of id workspace w = find (λ f. str_eq f.id id && str_eq f.workspace_id workspace) w.workflows

-- what a step that triggers another workflow adds to the data of the trigger
abbrev child_fields : Step → Context → List Step → Fields
child_fields step c steps =
    ("triggeredByWorkflow", one (text c.workflow_id))
    ∷ ("triggeredByRunId", one (text c.run_id))
    ∷ ("triggeredByStepId", one (text step.id))
    ∷ ("resumeParentStepId", optional (find_next_step step.id steps none))
    ∷ ("startFrom", optional step.step_data.start_from)
    ∷ (
      "targetStepId",
      if opt_eq step.step_data.start_from "specific_step"
          then optional step.step_data.target_step_id
          else one undefined,
    )
    ∷ []

-- `handleTriggerAnotherWorkflow`, at a target that may be triggered
unfoldable pub start_child : Step → Context → List Step → String → World → Result × World
unfolding merge find_next_step add_job
start_child step c steps target w = (
  record {
    output =
        ("triggered", one (flag true))
        ∷ ("waitForCompletion", one (flag true))
        ∷ ("targetWorkflowId", one (text target))
        ∷ (
          "targetStepId",
          if opt_eq step.step_data.start_from "specific_step"
              then optional step.step_data.target_step_id
              else one undefined,
        )
        ∷ ("resumeParentStepId", optional (find_next_step step.id steps none))
        ∷ [];
    branch_connector_id = none;
    next_step_id = none;
    suspend = true;
    wait_for = none;
  },
  add_job
      (trigger c.workspace_id target c.contact_id c.conversation_id
        (merge c.trigger (child_fields step c steps)))
      0 w,
)

has_start : Option String → List Step → Bool
unfolding is_start
has_start target steps = elim (find (is_start target) steps) [ none ↦ false | some s ↦ true ]

-- `handleTriggerAnotherWorkflow`
unfoldable pub handle_trigger_another_workflow : Step → Context → List Step → World → Result × World
unfolding target_of has_start start_child
handle_trigger_another_workflow step c steps w = elim (present step.step_data.target_workflow_id) [
  | none ↦ (skipped "no targetWorkflowId", w)
  | some id ↦ elim (target_of id c.workspace_id w) [
    | none ↦ (skipped "target workflow not published", w)
    | some target ↦
        if not (str_eq target.status "published")
        then (skipped "target workflow not published", w)
        else if not (str_eq target.trigger.kind "manual_trigger")
        then (skipped "target workflow must use manual trigger", w)
        else if opt_eq step.step_data.start_from "specific_step"
            && not (has_start step.step_data.target_step_id target.steps)
        then (skipped "target step not found", w)
        else start_child step c steps id w
  ]
]
