-- ===== src/Workflows/Safety/Router.antt =====
-- Every handler leaves the rows of the runs and keeps the invariant (`runStepHandler` of
-- src/modules/workflows/workflow-engine.service.ts).
use desk_be.Common.{List, refl}
use desk_be.Workflows.Config.{
  Step, StepType, send_message, ask_question, assign_to, update_contact_tag, update_contact_field,
  branch, wait, http_request, jump_to, open_conversation, close_conversation, add_comment,
  date_time, trigger_another_workflow, branch_connector, unknown,
}
use desk_be.Workflows.World.{Context, World, add_job}
use desk_be.Workflows.Handlers.{Outside}
use desk_be.Workflows.Handlers.Steering.{handle_wait}
use desk_be.Workflows.Router.{handle_outside, handle_kind}
use desk_be.Workflows.Safety.Handling.{
  RunsOn, IsHandled, framed, effect-IsHandled, jump-IsHandled, triggered_frame,
}
use desk_be.Workflows.Safety.Asking.{ask_question-IsHandled}

outside-IsHandled :
    (x : Outside) (step : Step) (c : Context) (steps : List Step) (w : World)
    → RunsOn w c
    → IsHandled c w (handle_outside x step c steps w)
unfolding handle_outside
outside-IsHandled x step c steps w k = effect-IsHandled (x.handle w c step steps) _ c w k

-- Every handler leaves the rows of the runs and keeps the invariant.
pub handle_kind-IsHandled :
    (x : Outside) (kind : StepType) (step : Step) (c : Context) (steps : List Step) (w : World)
    → RunsOn w c
    → IsHandled c w (handle_kind x kind step c steps w)
unfolding handle_kind handle_wait add_job
handle_kind-IsHandled x branch step c steps w k = framed c c w w _ refl refl refl refl refl refl
handle_kind-IsHandled x branch_connector step c steps w k =
    framed c c w w _ refl refl refl refl refl refl
handle_kind-IsHandled x wait step c steps w k = framed c c w _ _ refl refl refl refl refl refl
handle_kind-IsHandled x jump_to step c steps w k = jump-IsHandled step c w
handle_kind-IsHandled x trigger_another_workflow step c steps w k =
    let f = triggered_frame step c steps w in framed c c w _ _ refl refl refl f.0 f.1 f.2
handle_kind-IsHandled x (unknown t) step c steps w k =
    framed c c w w _ refl refl refl refl refl refl
handle_kind-IsHandled x send_message step c steps w k = outside-IsHandled x step c steps w k
handle_kind-IsHandled x ask_question step c steps w k = ask_question-IsHandled x step c steps w k
handle_kind-IsHandled x assign_to step c steps w k = outside-IsHandled x step c steps w k
handle_kind-IsHandled x update_contact_tag step c steps w k = outside-IsHandled x step c steps w k
handle_kind-IsHandled x update_contact_field step c steps w k = outside-IsHandled x step c steps w k
handle_kind-IsHandled x http_request step c steps w k = outside-IsHandled x step c steps w k
handle_kind-IsHandled x open_conversation step c steps w k = outside-IsHandled x step c steps w k
handle_kind-IsHandled x close_conversation step c steps w k = outside-IsHandled x step c steps w k
handle_kind-IsHandled x add_comment step c steps w k = outside-IsHandled x step c steps w k
handle_kind-IsHandled x date_time step c steps w k = outside-IsHandled x step c steps w k
