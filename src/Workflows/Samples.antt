-- ===== src/Workflows/Samples.antt =====
-- A workflow of two steps and its first run, for tests of
-- src/modules/workflows/workflow-engine.service.ts.
use desk_be.Common.{ℕ, String, List, [], ◌∷◌, ◌*◌, true, false, Option, none, some, ltb, leb}
use desk_be.Workflows.Values.{Scalar}
use desk_be.Workflows.Config.{
  Step, StepData, Question, Message, Workflow, jump_to, close_conversation,
}
use desk_be.Workflows.Conditions.{Numbers}
use desk_be.Workflows.World.{Context, Job, World, trigger}
use desk_be.Workflows.Handlers.{Outside, Effect, replied}
use desk_be.Workflows.Resume.{run_job}
use desk_be.Workflows.Machine.{work, Reach, here, next, fresh}

abbrev pub numbers : Numbers
numbers = record {
  Num = ℕ;
  of_number = λ n. n;
  of_text = λ s. 0;
  parse_float = λ s. 0;
  parse_int = λ s. 0;
  is_nan = λ n. false;
  index = λ s. none;
  digits = λ n. "";
  time = λ v. 0;
  since = λ now v. Scalar.number now;
  times = λ a b. a * b;
  after = λ a b. ltb b a;
  at_least = λ a b. leb b a;
}

abbrev pub quiet : World → Context → Step → List Step → Effect
quiet w c s steps = record {
  vars = c.vars;
  contact = c.contact;
  conversation_id = c.conversation_id;
  saves = false;
  jobs = [];
  reply = replied (record {
    output = [];
    branch_connector_id = none;
    next_step_id = none;
    suspend = false;
    wait_for = none;
  });
}

abbrev pub outside : Outside
outside = record {
  numbers = numbers;
  uuid = λ w. "run-1";
  contact = λ w c. [];
  contact_row = λ w c. some [];
  contact_of_conversation = λ w c. some "contact-1";
  conversation = λ w c. "conversation-1";
  handle = quiet;
  send = quiet;
  well_formed = λ kind s. true;
  write_contact = λ w c field v. none;
  keeps_timeout = λ w run_id step_id. false;
  tag = λ w workspace name. ("tag-1", name);
}

abbrev pub no_question : Question
no_question = record {
  question_type = "text";
  options = [];
  number_min = none;
  number_max = none;
  save_as_variable = false;
  variable_name = none;
  save_as_contact_field = false;
  contact_field_id = none;
  save_as_tag = false;
  add_message_failure_branch = false;
  timeout_value = none;
  timeout_unit = "days";
}

abbrev pub no_message : Message
no_message = record {
  channel = none;
  delivery_strategy = none;
  text = none;
  attachments = 0;
  template_name = none;
  template_language = none;
  question_text = none;
}

abbrev pub step_data : Option String → StepData
step_data target = record {
  conditions = [];
  is_else = false;
  target_step_id = target;
  max_jumps = none;
  target_workflow_id = none;
  start_from = none;
  add_timeout_branch = false;
  connectors = [];
  template_button_branching = false;
  wait_value = 0;
  wait_unit = "hours";
  question = no_question;
  message = no_message;
  rest = [];
}

abbrev pub close_step : Step
close_step = record {
  id = "close";
  kind = close_conversation;
  name = none;
  parent_id = some "trigger";
  step_data = step_data none;
}

abbrev pub jump_step : Step
jump_step = record {
  id = "jump";
  kind = jump_to;
  name = none;
  parent_id = some "close";
  step_data = step_data (some "close");
}

abbrev pub flow : List Step → Workflow
flow steps = record {
  id = "flow-1";
  workspace_id = "workspace-1";
  name = "Flow";
  status = "published";
  trigger = record {
    kind = "manual_trigger";
    conditions = [];
    filter = record {
      sources = [];
      categories = [];
      tags = [];
      action = none;
      field_id = none;
      stage_selection = none;
      stages = [];
      trigger_when_cleared = false;
    };
    settings = record { trigger_once_per_contact = false; cooldown_hours = 0 };
  };
  steps = steps;
}

abbrev pub start : Job
start = trigger "workspace-1" "flow-1" "contact-1" (some "conversation-1") []

abbrev pub begun : List Step → World
begun steps = run_job outside start (fresh 0 (flow steps ∷ []))

abbrev pub begun-Reach :
    (steps : List Step) → Reach outside (fresh 0 (flow steps ∷ [])) (begun steps)
begun-Reach steps = next here (work (fresh 0 (flow steps ∷ [])) start)
