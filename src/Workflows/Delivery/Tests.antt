-- ===== src/Workflows/Delivery/Tests.antt =====
-- Workflows before publication, at concrete inputs
-- (src/modules/workflows/workflow-delivery-rulebook.ts).
use desk_be.Common.{
  ℕ, String, List, [], ◌∷◌, Bool, true, false, Option, none, some, all, is_some, not, ◌≡◌, refl,
  trim, to_lower,
}
use desk_be.Workflows.Config.{
  Step, StepType, StepData, Message, send_message, branch_connector, wait,
}
use desk_be.Workflows.Handlers.Steering.{to_ms}
use desk_be.Workflows.Samples.{no_question}
use desk_be.Workflows.Delivery.{ChannelFacts}
use desk_be.Workflows.Delivery.Publish.{validate_delivery, assert_delivery}
use desk_be.Workflows.Delivery.Deliverable.{is_deliverable}
use desk_be.Workflows.Delivery.Sound.{assert_delivery-is_deliverable}

abbrev on_whatsapp : Option String → Option String → Message
on_whatsapp text template = record {
  channel = some "channel-1";
  delivery_strategy = some "specific_channel";
  text = text;
  attachments = 0;
  template_name = template;
  template_language = template;
  question_text = none;
}

abbrev step_data : Message → Bool → ℕ → String → StepData
step_data message branching value unit = record {
  conditions = [];
  is_else = false;
  target_step_id = none;
  max_jumps = none;
  target_workflow_id = none;
  start_from = none;
  add_timeout_branch = false;
  connectors = [];
  template_button_branching = branching;
  wait_value = value;
  wait_unit = unit;
  question = no_question;
  message = message;
  rest = [];
}

abbrev step : String → String → StepType → Option String → StepData → Step
step id parent kind name d = record {
  id = id;
  kind = kind;
  name = name;
  parent_id = some parent;
  step_data = d;
}

abbrev nothing : Message
nothing = on_whatsapp none none

-- a template with buttons, a wait after the reply, and a text
abbrev flow : ℕ → String → List Step
flow value unit =
    step "offer" "trigger" send_message none (step_data (on_whatsapp none (some "offer")) true 0 "")
    ∷ step "reply" "offer" branch_connector (some "Yes") (step_data nothing false 0 "")
    ∷ step "pause" "reply" wait none (step_data nothing false value unit)
    ∷ step "thanks" "pause" send_message none
        (step_data (on_whatsapp (some "Thank you") none) false 0 "")
    ∷ []

abbrev channels : List ChannelFacts
channels = record { id = "channel-1"; kind = "whatsapp"; status = some "connected" } ∷ []

-- within the day that WhatsApp allows, the text can be sent
within_a_day : validate_delivery "manual_trigger" channels (flow 23 "hours") ≡ []
unfolding validate_delivery trim to_lower
within_a_day = refl

after_a_day :
    validate_delivery "manual_trigger" channels (flow 1 "days")
    ≡ record {
      step_id = "thanks";
      message = "Use an approved WhatsApp template for the first message.";
    }
      ∷ []
unfolding validate_delivery trim to_lower
after_a_day = refl

-- a wait without a unit is none before publication, and hours when the workflow runs
unit_missing :
    (validate_delivery "manual_trigger" channels (flow 30 "") ≡ []) × (to_ms 30 "" ≡ 108000000)
unfolding validate_delivery trim to_lower to_ms
unit_missing = (refl, refl)

assert_delivery-is_deliverable_example :
    not (is_some (assert_delivery "manual_trigger" channels (flow 23 "hours")))
    ≡ all (is_deliverable "manual_trigger" channels (flow 23 "hours")) (flow 23 "hours")
assert_delivery-is_deliverable_example =
    assert_delivery-is_deliverable "manual_trigger" channels (flow 23 "hours")
