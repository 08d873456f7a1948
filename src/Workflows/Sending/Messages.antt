-- ===== src/Workflows/Sending/Messages.antt =====
-- `handleSendMessage` of src/modules/workflows/workflow-engine.service.ts. What the rendering of
-- variables makes of a text, and what becomes of the queued message, are arguments. Of a message's
-- metadata there are the template's name and language; its variables are left out.
use desk_be.Common.{
  ℕ, String, List, [], ◌∷◌, ◌++◌, Bool, true, false, Option, none, some, str_eq, opt_eq, truthy,
  present, coalesce, to_lower, includes, find, ltb, ◌==◌, not, ◌&&◌, if◌then◌else◌,
}
use desk_be.Workflows.Values.{Fields, one, text, flag, number, value_of, scalar_eq, optional}
use desk_be.Workflows.Config.{Step, Message, is_connector, send_message, ask_question}
use desk_be.Workflows.World.{Context}
use desk_be.Workflows.Handlers.{Result, Reply, replied, threw, skipped}
use desk_be.Workflows.Sending.{Outgoing, Inbox, Place, Target, channel, nowhere, resolve_target}
use desk_be.Workflows.Sending.Buttons.{is_button_step, button_count, handle_button_reply}

-- what becomes of a message: the queue refuses it, its job ends, or waiting for it fails
pub data Fate : Type 0 where
  sent : Fate
  refused failed : String → Fate

pub record Sending : Type 0 where
  pub reply : Reply
  pub context : Context
  pub inbox : Inbox

-- the connector's id in `data.connectors`, of success or failure
unfoldable pub listed_id : Bool → List String → Option String
listed_id success [] = none
listed_id true (id ∷ ids) = some id
listed_id false (id ∷ []) = none
listed_id false (id ∷ other ∷ ids) = some other

abbrev pub is_connector_of : Step → Step → Bool
unfolding is_connector
is_connector_of s candidate = opt_eq candidate.parent_id s.id && is_connector candidate.kind

abbrev connector_named : Bool → String
connector_named success = if success then "Success" else "Failure"

-- the connector of a listed id, where that is neither missing nor empty
unfoldable pub find_listed : Step → List Step → Option String → Option Step
find_listed s steps id = elim (present id) [
  | none ↦ none
  | some i ↦ find (λ candidate. is_connector_of s candidate && str_eq candidate.id i) steps
]

-- `findSendMessageConnector`; `data.addMessageFailureBranch` stands with those of a question
unfoldable pub find_connector : Step → List Step → Bool → Option Step
unfolding listed_id find_listed
find_connector s steps success =
    if not s.step_data.question.add_message_failure_branch
    then none
    else coalesce
        (find
          (λ candidate.
            is_connector_of s candidate && opt_eq candidate.name (connector_named success))
          steps)
        (find_listed s steps (
          if s.step_data.template_button_branching
          then none
          else listed_id success s.step_data.connectors))

abbrev by_connector : Fields → Option Step → Result
by_connector output connector = record {
  output = output;
  branch_connector_id = elim connector [ none ↦ none | some s ↦ some s.id ];
  next_step_id = none;
  suspend = false;
  wait_for = none;
}

-- `sendMessageSuccessResult`
unfoldable pub success_result : Step → List Step → Fields → Result
unfolding find_connector
success_result s steps output = by_connector output (find_connector s steps true)

-- `sendMessageFailureResult`
unfoldable pub failure_result : Step → List Step → String → Result
unfolding find_connector
failure_result s steps reason = elim (find_connector s steps false) [
  | none ↦ skipped reason
  | some connector ↦
      by_connector (("failed", one (flag true)) ∷ ("reason", one (text reason)) ∷ [])
        (some connector)
]

-- `renderedMetadata?.template?.name && renderedMetadata?.template?.language`
unfoldable pub has_template : Message → Bool
has_template m = truthy m.template_name && truthy m.template_language

-- `interpolate`, by the rendering of a template that is not empty
unfoldable pub interpolate : (String → Context → String) → Option String → Context → String
interpolate render template c = elim (present template) [ none ↦ "" | some t ↦ render t c ]

-- the outbound payload
unfoldable pub payload : Message → String → String → Place → Outgoing
unfolding has_template
payload m words channel_id place = record {
  workspace_id = place.context.workspace_id;
  conversation_id = place.chat.id;
  channel_id = channel_id;
  text = present (some words);
  attachments = m.attachments;
  template = if has_template m then m.template_name else none;
}

abbrev queued : Outgoing → Inbox → Inbox
queued message i = record i { outgoing = i.outgoing ++ message ∷ [] }

abbrev said : String → ℕ → Fields
said words attachments = ("text", one (text words)) ∷ ("attachments", one (number attachments)) ∷ []

-- what the step returns once its message is sent
unfoldable pub after_sent : Step → List Step → String → Result
unfolding has_template is_button_step button_count success_result
after_sent s steps words =
    let m = s.step_data.message in
    let output : Fields =
      ("sent", one (flag true)) ∷ said words m.attachments
      ++ (if has_template m then ("template", optional m.template_name) ∷ [] else []) in
    if is_button_step s && ltb 0 (button_count s steps)
    then record {
      output =
          output ++ ("waiting", one (flag true)) ∷ ("waitFor", one (text "template_button")) ∷ [];
      branch_connector_id = none;
      next_step_id = none;
      suspend = true;
      wait_for = some "template_button";
    }
    else success_result s steps output

-- what the step returns when waiting for the message's job has failed
unfoldable pub after_failed : Step → List Step → String → String → Reply
unfolding to_lower includes failure_result
after_failed s steps words message =
    if includes (to_lower message) "timed out"
    then replied (
        by_connector
          (("queued", one (flag true)) ∷ said words s.step_data.message.attachments
            ++ ("warning", one (text "outbound message still processing")) ∷ [])
          none)
    else if truthy (failure_result s steps message).branch_connector_id
    then replied (failure_result s steps message)
    else threw message

-- the message is queued, and its fate awaited
unfoldable pub dispatch : Fate → Step → List Step → String → String → Place → Sending
unfolding payload after_sent after_failed
dispatch fate s steps words channel_id place =
    let i = queued (payload s.step_data.message words channel_id place) place.inbox in
    elim fate [
      | refused e ↦ record { reply = threw e; context = place.context; inbox = place.inbox }
      | failed e ↦ record {
        reply = after_failed s steps words e;
        context = place.context;
        inbox = i;
      }
      | sent ↦ record {
        reply = replied (after_sent s steps words);
        context = place.context;
        inbox = i;
      }
    ]

unfoldable pub has_no_content : Message → Bool
unfolding has_template
has_no_content m = not (truthy m.text) && m.attachments == 0 && not (has_template m)

unfoldable pub send_to :
    (String → Context → String) → Fate → Step → Context → List Step → Inbox → Target → Sending
unfolding failure_result dispatch interpolate
send_to render fate s c steps i (nowhere reason) = record {
  reply = replied (failure_result s steps reason);
  context = c;
  inbox = i;
}
send_to render fate s c steps i (channel id place) =
    dispatch fate s steps (interpolate render s.step_data.message.text c) id place

-- `ctx.vars?.templateButtonReplyStepId === step.id`
unfoldable pub is_reply : Step → Context → Bool
unfolding value_of scalar_eq
is_reply s c = elim (value_of "templateButtonReplyStepId" c.vars) [
  | one v ↦ scalar_eq v (text s.id)
  | _ ↦ false
]

-- `handleSendMessage`; the id is that of the conversation if one is created
unfoldable pub handle_send_message :
    (String → Context → String)
    → Fate
    → String
    → String
    → Step
    → Context
    → List Step
    → Inbox
    → Sending
unfolding is_button_step is_reply handle_button_reply has_no_content failure_result resolve_target
    send_to
handle_send_message render fate fresh trigger_type s c steps i =
    let (button_result, replied_context) = handle_button_reply s c steps in
    if is_button_step s && is_reply s c
    then record { reply = replied button_result; context = replied_context; inbox = i }
    else if has_no_content s.step_data.message
    then record {
      reply = replied (failure_result s steps "no message content");
      context = c;
      inbox = i;
    }
    else send_to render fate s c steps i (resolve_target fresh trigger_type s.step_data.message c i)

-- the message of a question; the quick replies in its metadata are left out
unfoldable pub question_step : Step → Step
question_step s =
    let m = s.step_data.message in
    let d = s.step_data in
    record s {
      kind = send_message;
      step_data = record d {
        message = record {
          channel = coalesce m.channel (some "trigger_channel");
          delivery_strategy =
              coalesce m.delivery_strategy
                (if truthy m.channel then none else some "trigger_channel");
          text = m.question_text;
          attachments = 0;
          template_name = none;
          template_language = none;
          question_text = none;
        };
        question = record d.question { add_message_failure_branch = false };
        template_button_branching = false;
      };
    }

-- the step that is handed to `handleSendMessage`, by the router or by `handleAskQuestion`
unfoldable pub as_message : Step → Step
unfolding question_step
as_message s = elim s.kind [ ask_question ↦ question_step s | _ ↦ s ]
