-- ===== src/Workflows/Sending/Tests.antt =====
-- Messages at concrete inputs (`handleSendMessage` of
-- src/modules/workflows/workflow-engine.service.ts).
use desk_be.Common.{ℕ, String, List, [], ◌∷◌, true, Option, none, some, ◌≡◌, refl, trim, to_lower}
use desk_be.Workflows.Values.{Fields, one, text}
use desk_be.Workflows.Config.{Step, StepData, Message, send_message, ask_question, branch_connector}
use desk_be.Workflows.World.{Context}
use desk_be.Workflows.Handlers.{threw}
use desk_be.Workflows.Samples.{no_message, step_data}
use desk_be.Workflows.Delivery.{ChannelFacts}
use desk_be.Workflows.Sending.{Chat, Inbox}
use desk_be.Workflows.Delivery.Publish.{assert_delivery}
use desk_be.Workflows.Sending.Buttons.{is_button_step, handle_button_reply}
use desk_be.Workflows.Sending.Messages.{
  Fate, sent, failed, Sending, handle_send_message, as_message,
}
use desk_be.Workflows.Sending.Visits.{is_answered, send_step}
use desk_be.Workflows.Sending.Sound.{GoesOut, meant_channel, published-GoesOut}

abbrev messages : Message → StepData
messages m = let d = step_data none in record d { message = m }

abbrev hello : Step
hello = record {
  id = "hello";
  kind = send_message;
  name = none;
  parent_id = some "trigger";
  step_data = messages (record no_message {
    channel = some " email-1 ";
    delivery_strategy = some "specific_channel";
    text = some "Hello";
  });
}

-- a question that is asked in the chat that triggered
abbrev question : Step
question = record {
  id = "question";
  kind = ask_question;
  name = none;
  parent_id = some "hello";
  step_data = messages (record no_message { question_text = some "How are you?" });
}

abbrev channels : List ChannelFacts
channels = record { id = "email-1"; kind = "email"; status = some "connected" } ∷ []

abbrev context : Fields → Fields → Context
context trigger vars = record {
  run_id = "run-1";
  workflow_id = "flow-1";
  workflow_name = "Flow";
  workspace_id = "w";
  contact_id = "c";
  conversation_id = none;
  contact = [];
  trigger = trigger;
  steps = [];
  vars = vars;
}

abbrev chat : String → ℕ → Option String → Chat
chat id time last = record {
  id = id;
  workspace_id = "w";
  contact_id = "c";
  last_channel = last;
  updated_at = time;
}

abbrev inbox : List Chat → Inbox
inbox chats = record { now = 9; chats = chats; contacts = []; contexts = []; outgoing = [] }

abbrev plain : String → Context → String
plain s c = s

abbrev run_in : Fate → String → Step → List Chat → Sending
run_in fate trigger_type s chats =
    handle_send_message plain fate "new-chat" trigger_type (as_message s) (context [] [])
      (hello ∷ question ∷ []) (inbox chats)

-- the answer goes over the channel of the last message of the conversation updated last
latest_chat :
    (run_in sent "conversation_opened" question
      (chat "old" 1 (some "sms-1") ∷ chat "new" 2 (some "email-1") ∷ [])).inbox.outgoing
    ≡ record {
      workspace_id = "w";
      conversation_id = "new";
      channel_id = "email-1";
      text = some "How are you?";
      attachments = 0;
      template = none;
    }
      ∷ []
unfolding handle_send_message trim as_message
latest_chat = refl

-- without a branch for failures an error of the provider is thrown
failure_thrown : (run_in (failed "no route") "manual_trigger" hello []).reply ≡ threw "no route"
unfolding handle_send_message trim as_message to_lower
failure_thrown = refl

abbrev offer : Step
offer =
    let d = messages no_message in
    record hello { id = "offer"; step_data = record d { template_button_branching = true } }

abbrev button : Step
button = record hello {
  id = "yes";
  kind = branch_connector;
  name = some "Yes  please";
  parent_id = some "offer";
}

-- the button's name is compared without regard to case and the length of spaces
button_pressed :
    (handle_button_reply offer
      (context [] (("templateButtonReply", one (text " YES please ")) ∷ []))
      (button ∷ [])).0.branch_connector_id
    ≡ some "yes"
unfolding handle_button_reply trim to_lower
button_pressed = refl

published-GoesOut_example :
    (r : Sending) × (send_step plain sent "new-chat" "conversation_opened" question
        (context [] [])
        (hello ∷ question ∷ [])
        (inbox (chat "c" 1 (some "email-1") ∷ []))
      ≡ some r)
    × GoesOut
        (context [] [])
        (inbox (chat "c" 1 (some "email-1") ∷ []))
        (hello ∷ question ∷ [])
        question
        (meant_channel (context [] []) (inbox (chat "c" 1 (some "email-1") ∷ [])) question)
        r
unfolding assert_delivery is_button_step as_message is_answered
published-GoesOut_example =
    published-GoesOut "conversation_opened" channels (hello ∷ question ∷ []) (context [] [])
      (inbox (chat "c" 1 (some "email-1") ∷ [])) "new-chat" plain "question" question refl refl refl
      refl refl
