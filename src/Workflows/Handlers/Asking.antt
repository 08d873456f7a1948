-- ===== src/Workflows/Handlers/Asking.antt =====
-- `handleAskQuestion` of src/modules/workflows/workflow-engine.service.ts.
use desk_be.Common.{
  ℕ, String, List, [], ◌∷◌, Bool, true, false, Option, none, some, str_eq, length, keep, trim,
  present, not, ◌&&◌, ◌||◌, if◌then◌else◌, min,
}
use desk_be.Workflows.Values.{
  Value, Fields, undefined, text, number, flag, one, value_of, or_else, is_true, put, remove,
}
use desk_be.Workflows.Config.{Step, Question, find_ask_question_connector}
use desk_be.Workflows.Conditions.{Numbers, shown}
use desk_be.Workflows.World.{Context, World, ask_question_timeout, save_context, add_job}
use desk_be.Workflows.Answers.{mark_processed}
use desk_be.Workflows.Questions.{
  normalise_question_answer, validate_answer, ask_question_timeout_delay,
}
use desk_be.Workflows.Handlers.{
  Result, Reply, Outside, Handled, replied, threw, effect_context, effect_world,
}

-- how many quick replies `buildQuestionQuickReplies` gives
quick_reply_count : Question → ℕ
quick_reply_count q =
    if str_eq q.question_type "rating"
    then 5
    else if not (str_eq q.question_type "multiple_choice")
    then 0
    else min 13 (length (keep (λ o. not (str_eq (trim o) "")) q.options))

-- the id of a connector of the question, by its name
unfoldable pub connector_id : Step → List Step → String → Option String
unfolding find_ask_question_connector
connector_id step steps name = elim (find_ask_question_connector step steps name) [
  | none ↦ none
  | some s ↦ some s.id
]

-- `askQuestionMessageFailureResult`
unfoldable pub message_failure : Step → List Step → String → Reply
unfolding connector_id
message_failure step steps reason =
    elim (if step.step_data.question.add_message_failure_branch
      then connector_id step steps "Message Failure"
      else none) [
        | none ↦ threw reason
        | some id ↦ replied (record {
          output = ("messageFailed", one (flag true)) ∷ ("reason", one (text reason)) ∷ [];
          branch_connector_id = some id;
          next_step_id = none;
          suspend = false;
          wait_for = none;
        })
      ]

-- `scheduleAskQuestionTimeout`
unfoldable pub schedule_timeout : Outside → Step → Context → World → World
unfolding ask_question_timeout_delay add_job
schedule_timeout x step c w =
    if not step.step_data.add_timeout_branch || x.keeps_timeout w c.run_id step.id
    then w
    else elim (ask_question_timeout_delay step.step_data.question) [
      | none ↦ w
      | some delay ↦ add_job (ask_question_timeout c.run_id step.id) delay w
    ]

-- the question was sent, and the run waits for its answer
unfoldable pub asked : Step → Result
unfolding quick_reply_count
asked step = record {
  output =
      ("waiting", one (flag true))
      ∷ ("quickReplies", one (number (quick_reply_count step.step_data.question)))
      ∷ [];
  branch_connector_id = none;
  next_step_id = none;
  suspend = true;
  wait_for = none;
}

-- `output?.skipped || output?.failed`
unfoldable pub not_sent : Fields → Bool
unfolding is_true value_of
not_sent output = is_true (value_of "skipped" output) || is_true (value_of "failed" output)

-- `String(output.reason ?? 'question message failed')`
unfoldable pub failure_reason : Numbers → Fields → String
unfolding shown or_else value_of
failure_reason n output =
    shown n (or_else (value_of "reason" output) (one (text "question message failed")))

-- the first visit of a question: it is sent
unfoldable pub ask : Outside → Step → Context → List Step → World → Handled
unfolding message_failure schedule_timeout asked not_sent failure_reason effect_context effect_world
ask x step c steps w =
    let e = x.send w c step steps in
    let d = effect_context e c in
    let v = effect_world e c w in
    elim e.reply [
      | threw m ↦ record { reply = message_failure step steps m; context = d; world = v }
      | replied r ↦
          if not_sent r.output
          then record {
            reply = message_failure step steps (failure_reason x.numbers r.output);
            context = d;
            world = v;
          }
          else record {
            reply = replied (asked step);
            context = d;
            world = schedule_timeout x step d v;
          }
    ]

-- `String(answer ?? '')`
unfoldable pub answer_text : Numbers → Value → String
unfolding shown or_else
answer_text n v = shown n (or_else v (one (text "")))

-- `markProcessedAnswerMessage`, and the answer is deleted
unfoldable pub answered : Context → Context
unfolding mark_processed value_of remove
answered c =
    let d = mark_processed c (value_of "lastAnswerMessageId" c.vars) in
    record d { vars = remove "lastAnswerMessageId" (remove "lastAnswer" d.vars) }

-- the fields of a branch to a connector
abbrev to_connector : Option String → Fields → Result
to_connector id output = record {
  output = output;
  branch_connector_id = id;
  next_step_id = none;
  suspend = false;
  wait_for = none;
}

-- an answer that is refused
unfoldable pub refuse_answer : Step → Context → List Step → String → String → World → Handled
unfolding answered save_context connector_id
refuse_answer step c steps answer reason w = record {
  reply = replied (
      to_connector (connector_id step steps "Failure") (
        ("answer", one (text answer))
        ∷ ("valid", one (flag false))
        ∷ ("reason", one (text reason))
        ∷ []));
  context = answered c;
  world = save_context (answered c) w;
}

set_variable : Question → String → Fields → Fields
unfolding put
set_variable q answer vars = elim (if q.save_as_variable then present q.variable_name else none) [
  | none ↦ vars
  | some name ↦ put name (one (text answer)) vars
]

-- the contact's field that the answer is saved in
field_of : Question → Option String
field_of q = if q.save_as_contact_field then present q.contact_field_id else none

unfoldable pub set_contact : Question → String → Fields → Fields
unfolding put field_of
set_contact q answer contact = elim (field_of q) [
  | none ↦ contact
  | some field ↦ put field (one (text answer)) contact
]

-- the error of the update of the contact
unfoldable pub contact_error : Outside → Step → Context → String → World → Option String
unfolding field_of
contact_error x step c answer w = elim (field_of step.step_data.question) [
  | none ↦ none
  | some field ↦ x.write_contact w c field answer
]

unfoldable pub tag_fields : Outside → Question → Context → String → World → Fields
tag_fields x q c answer w =
    if q.save_as_tag && str_eq q.question_type "multiple_choice"
    then ("tagId", one (text (x.tag w c.workspace_id answer).0))
      ∷ ("tagName", one (text (x.tag w c.workspace_id answer).1))
      ∷ []
    else []

-- the answer in the variables of the run
unfoldable pub noted : Step → String → Context → Context
unfolding set_variable put
noted step answer c = record c {
  vars = set_variable step.step_data.question answer (put "lastAnswer" (one (text answer)) c.vars);
}

-- an answer that is valid
unfoldable pub accept_answer : Outside → Step → Context → List Step → String → World → Handled
unfolding answered save_context connector_id noted contact_error set_contact tag_fields
accept_answer x step c steps answer w = elim (contact_error x step c answer w) [
  | some e ↦ record { reply = threw e; context = noted step answer c; world = w }
  | none ↦
      let named = noted step answer c in
      let d =
        answered
          (record named { contact = set_contact step.step_data.question answer named.contact }) in
      record {
        reply = replied (
            to_connector (connector_id step steps "Success") (
              ("answer", one (text answer))
              ∷ ("valid", one (flag true))
              ∷ tag_fields x step.step_data.question c answer w));
        context = d;
        world = save_context d w;
      }
]

unfoldable pub is_missing : Value → Bool
is_missing (one undefined) = true
is_missing v = false

-- `handleAskQuestion`
unfoldable pub handle_ask_question : Outside → Step → Context → List Step → World → Handled
unfolding is_missing value_of ask answer_text normalise_question_answer validate_answer
    refuse_answer accept_answer
handle_ask_question x step c steps w =
    let raw = value_of "lastAnswer" c.vars in
    let answer =
      normalise_question_answer x.numbers (answer_text x.numbers raw) step.step_data.question in
    if is_missing raw
    then ask x step c steps w
    else elim (validate_answer x.numbers x.well_formed answer step.step_data.question) [
      | some reason ↦ refuse_answer step c steps answer reason w
      | none ↦ accept_answer x step c steps answer w
    ]
