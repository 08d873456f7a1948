-- ===== src/Workflows/Sending/Visits.antt =====
-- What a visit of a step sends (`runStepHandler` and `handleAskQuestion` of
-- src/modules/workflows/workflow-engine.service.ts).
use desk_be.Common.{String, List, Bool, false, Option, none, some, not, if◌then◌else◌}
use desk_be.Workflows.Values.{value_of}
use desk_be.Workflows.Config.{Step, ask_question}
use desk_be.Workflows.World.{Context}
use desk_be.Workflows.Handlers.Asking.{is_missing}
use desk_be.Workflows.Sending.{Inbox}
use desk_be.Workflows.Sending.Messages.{Fate, Sending, handle_send_message, as_message}

-- a question whose answer is there, which is not asked again
unfoldable pub is_answered : Step → Context → Bool
unfolding is_missing value_of
is_answered s c = elim s.kind [
  | ask_question ↦ not (is_missing (value_of "lastAnswer" c.vars))
  | _ ↦ false
]

-- The call of `handleSendMessage` that the visit of a message or a question makes, if it makes one.
unfoldable pub send_step :
    (String → Context → String)
    → Fate
    → String
    → String
    → Step
    → Context
    → List Step
    → Inbox
    → Option Sending
unfolding is_answered handle_send_message as_message
send_step render fate fresh trigger_type s c steps i =
    if is_answered s c
    then none
    else some (handle_send_message render fate fresh trigger_type (as_message s) c steps i)
