-- ===== src/Workflows/Router.antt =====
-- `runStepHandler` of src/modules/workflows/workflow-engine.service.ts.
use desk_be.Common.{List, [], false, none}
use desk_be.Workflows.Config.{
  Step, StepType, ask_question, branch, wait, jump_to, trigger_another_workflow, branch_connector,
  unknown,
}
use desk_be.Workflows.World.{Context, World}
use desk_be.Workflows.Handlers.{Result, Outside, Handled, replied, effect_context, effect_world}
use desk_be.Workflows.Handlers.Branching.{handle_branch, handle_branch_connector}
use desk_be.Workflows.Handlers.Steering.{handle_wait, handle_jump_to}
use desk_be.Workflows.Handlers.Children.{handle_trigger_another_workflow}
use desk_be.Workflows.Handlers.Asking.{handle_ask_question}

abbrev handled : Context → Result × World → Handled
handled c r = record { reply = replied r.0; context = c; world = r.1 }

unfoldable pub handle_outside : Outside → Step → Context → List Step → World → Handled
unfolding effect_context effect_world
handle_outside x step c steps w =
    let e = x.handle w c step steps in
    record { reply = e.reply; context = effect_context e c; world = effect_world e c w }

abbrev unhandled : Result
unhandled = record {
  output = [];
  branch_connector_id = none;
  next_step_id = none;
  suspend = false;
  wait_for = none;
}

-- the switch of `runStepHandler`
unfoldable pub handle_kind : Outside → StepType → Step → Context → List Step → World → Handled
unfolding handle_outside handle_ask_question handle_branch handle_branch_connector handle_wait
    handle_jump_to handle_trigger_another_workflow
handle_kind x branch step c steps w = handled c (handle_branch x.numbers step c steps w, w)
handle_kind x branch_connector step c steps w = handled c (handle_branch_connector step steps, w)
handle_kind x wait step c steps w = handled c (handle_wait step c steps w)
handle_kind x jump_to step c steps w = handle_jump_to step c w
handle_kind x trigger_another_workflow step c steps w =
    handled c (handle_trigger_another_workflow step c steps w)
handle_kind x (unknown t) step c steps w = handled c (unhandled, w)
handle_kind x ask_question step c steps w = handle_ask_question x step c steps w
handle_kind x kind step c steps w = handle_outside x step c steps w

-- `runStepHandler`
unfoldable pub run_step_handler : Outside → Step → Context → List Step → World → Handled
unfolding handle_kind
run_step_handler x step c steps w = handle_kind x step.kind step c steps w
