-- ===== src/Workflows/Handlers.antt =====
-- The handlers of the steps of a run (`runStepHandler` and what it calls) in
-- src/modules/workflows/workflow-engine.service.ts: their results, and what they get from elsewhere.
pub mod Branching
pub mod Steering
pub mod Children
pub mod Asking
use desk_be.Common.{
  ℕ, suc, String, List, [], ◌∷◌, ◌++◌, ◌*◌, Bool, true, false, Option, none, some, str_eq, opt_eq,
  leb, length, lookup, join, keep, find, get_or, present, not, ◌&&◌, if◌then◌else◌,
}
use desk_be.Workflows.Values.{
  Value, Fields, text, number, flag, one, put, remove, merge, optional, undefined,
}
use desk_be.Workflows.Config.{
  Step, StepType, Workflow, send_message, ask_question, assign_to, update_contact_tag,
  update_contact_field, branch, wait, http_request, jump_to, open_conversation, close_conversation,
  add_comment, date_time, trigger_another_workflow, branch_connector, unknown, is_connector,
  is_else_branch_connector, find_else_branch_connector, first_child, find_next_step,
}
use desk_be.Workflows.Conditions.{Numbers, meets}
use desk_be.Workflows.Lookups.{resolve_branch_field}
use desk_be.Workflows.World.{Context, Job, Queued, World, trigger, resume, save_context, add_job}

-- `WorkflowStepHandlerResult`
pub record Result : Type 0 where
  pub output : Fields
  pub branch_connector_id : Option String
  pub next_step_id : Option String
  pub suspend : Bool
  pub wait_for : Option String

-- A handler ends with a result or throws a message.
pub data Reply : Type 0 where
  replied : Result → Reply
  threw : String → Reply

-- What a handler that is not modelled does with a run: the fields of the context that it may
-- write, whether it saves the context, and the jobs that it adds.
pub record Effect : Type 0 where
  pub vars : Fields
  pub contact : Fields
  pub conversation_id : Option String
  pub saves : Bool
  pub jobs : List Queued
  pub reply : Reply

-- What the engine gets from elsewhere: the database's ids, the contacts and conversations (`contact`
-- is `loadContactData`, `conversation` finds the run's or creates it), and the handlers of the
-- steps that work on messages, contacts and conversations. `send` is `handleSendMessage` of a
-- question, `write_contact` the update of a contact's field, which may throw, and `tag` finds or
-- creates a tag and gives its id and name. `keeps_timeout` says whether BullMQ has a job with the id
-- of the timeout of a run and a step, and so drops another one.
pub record Outside : Type 1 where
  pub numbers : Numbers
  pub uuid : World → String
  pub contact : World → String → Fields
  pub contact_row : World → String → Option Fields
  pub contact_of_conversation : World → String → Option String
  pub conversation : World → Context → String
  pub handle : World → Context → Step → List Step → Effect
  pub send : World → Context → Step → List Step → Effect
  pub well_formed : String → String → Bool
  pub write_contact : World → Context → String → String → Option String
  pub tag : World → String → String → String × String
  pub keeps_timeout : World → String → String → Bool

pub record Handled : Type 0 where
  pub reply : Reply
  pub context : Context
  pub world : World

abbrev pub skipped : String → Result
skipped reason = record {
  output = ("skipped", one (flag true)) ∷ ("reason", one (text reason)) ∷ [];
  branch_connector_id = none;
  next_step_id = none;
  suspend = false;
  wait_for = none;
}

-- the context and the world after a handler that is not modelled
unfoldable pub effect_context : Effect → Context → Context
effect_context e c = record c {
  vars = e.vars;
  contact = e.contact;
  conversation_id = e.conversation_id;
}

unfoldable pub effect_world : Effect → Context → World → World
unfolding effect_context save_context
effect_world e c w =
    let after = record w { queue = w.queue ++ e.jobs } in
    if e.saves then save_context (effect_context e c) after else after

-- a step that a workflow may be started at
unfoldable pub is_start : Option String → Step → Bool
unfolding is_connector
is_start target s = opt_eq target s.id && not (is_connector s.kind)
