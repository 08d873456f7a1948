-- ===== src/Workflows/Triggers.antt =====
-- How runs are triggered (`trigger`, `evaluateAndEnqueue`, `validateTriggerData`), the listeners of
-- events and the answers to a run that waits (`onInboundMessage`) in
-- src/modules/workflows/workflow-engine.service.ts.
use desk_be.Common.{
  String, List, [], ◌∷◌, ◌-◌, ◌*◌, Bool, true, false, Option, none, some, str_eq, opt_eq, leb, ◌==◌,
  length, lookup, find, any, get_or, coalesce, present, contains, not, ltb, ◌&&◌, ◌||◌,
  if◌then◌else◌,
}
use desk_be.Workflows.Values.{Value, Fields, null, text, keyed, one, value_of, string_of, optional}
use desk_be.Workflows.Config.{Step, Trigger, Workflow, send_message, is_question}
use desk_be.Workflows.Conditions.{meets}
use desk_be.Workflows.Lookups.{resolve_trigger_field}
use desk_be.Workflows.World.{
  Status, running, waiting, completed, Run, ActiveRun, World, trigger, resume, active_run_key,
  find_run, find_workflow, add_job,
}
use desk_be.Workflows.Runs.{is_waiting}
use desk_be.Workflows.Handlers.{Outside}

-- `xs.includes(value)`
unfoldable pub includes_value : List String → Value → Bool
includes_value xs (one (text s)) = contains xs s
includes_value xs v = false

is_missing : Value → Bool
is_missing (one null) = true
is_missing v = false

keys_of : Value → List String
keys_of (one (keyed ks)) = ks
keys_of v = []

-- a filter that is empty lets everything through
unfoldable pub passes : List String → Value → Bool
unfolding includes_value
passes [] v = true
passes (x ∷ xs) v = includes_value (x ∷ xs) v

-- `validateTriggerData`
unfoldable pub validate_trigger_data : Trigger → Fields → Bool
unfolding passes includes_value is_missing keys_of value_of string_of
validate_trigger_data t event =
    if str_eq t.kind "conversation_opened"
    then passes t.filter.sources (value_of "source" event)
    else if str_eq t.kind "conversation_closed"
    then passes t.filter.sources (value_of "source" event)
      && passes t.filter.categories (value_of "category" event)
    else if str_eq t.kind "contact_tag_updated"
    then passes t.filter.tags (value_of "tagId" event) && (elim (present t.filter.action) [
      | none ↦ true
      | some action ↦ opt_eq (string_of (value_of "action" event)) action
    ])
    else if str_eq t.kind "contact_field_updated"
    then (elim (present t.filter.field_id) [
      | none ↦ true
      | some field ↦ contains (keys_of (value_of "fields" event)) field
    ])
    else if str_eq t.kind "lifecycle_updated"
        && opt_eq t.filter.stage_selection "specific"
        && ltb 0 (length t.filter.stages)
    then (t.filter.trigger_when_cleared && is_missing (value_of "lifecycleId" event))
      || includes_value t.filter.stages (value_of "lifecycleId" event)
    else true

-- `['completed', 'running', 'waiting'].includes(status)`
counts_once : Status → Bool
counts_once completed = true
counts_once running = true
counts_once waiting = true
counts_once s = false

-- a run of the workflow with the contact
of_contact : String → String → Run → Bool
of_contact workflow contact r = str_eq r.workflow_id workflow && str_eq r.contact_id contact

-- the contact's active run is one of the workflow
unfoldable pub is_active : Workflow → String → World → Bool
unfolding active_run_key
is_active f contact w = elim (lookup (active_run_key f.workspace_id contact) w.active) [
  | none ↦ false
  | some a ↦ str_eq a.workflow_id f.id
]

-- `triggerOncePerContact`
unfoldable pub ran_before : Workflow → String → World → Bool
unfolding of_contact counts_once
ran_before f contact w =
    f.trigger.settings.trigger_once_per_contact
    && any (λ r. of_contact f.id contact r && counts_once r.status) w.runs

-- `cooldownHours`; 0 is none
unfoldable pub cools_down : Workflow → String → World → Bool
unfolding of_contact
cools_down f contact w =
    not (f.trigger.settings.cooldown_hours == 0)
    && any
        (λ r.
          of_contact f.id contact r
          && leb (w.now - f.trigger.settings.cooldown_hours * 3600000) r.started_at)
        w.runs

-- the conditions of the trigger and its filter
unfoldable pub accepts : Outside → Workflow → Fields → Fields → Bool
unfolding meets resolve_trigger_field validate_trigger_data
accepts x f contact event =
    meets x.numbers (λ c. resolve_trigger_field contact event c.field) f.trigger.conditions
    && validate_trigger_data f.trigger event

-- `evaluateAndEnqueue`
unfoldable pub evaluate_and_enqueue :
    Outside → Workflow → String → Option String → Fields → World → World
unfolding is_active ran_before cools_down accepts add_job
evaluate_and_enqueue x f contact conversation event w =
    if is_active f contact w || ran_before f contact w || cools_down f contact w
    then w
    else elim (x.contact_row w contact) [
      | none ↦ w
      | some row ↦
          if accepts x f row event
          then add_job (trigger f.workspace_id f.id contact conversation event) 0 w
          else w
    ]

-- the loop of `trigger`
unfoldable pub trigger_each :
    Outside → String → String → String → Option String → Fields → List Workflow → World → World
unfolding evaluate_and_enqueue
trigger_each x workspace event_type contact conversation event [] w = w
trigger_each x workspace event_type contact conversation event (f ∷ fs) w =
    if str_eq f.workspace_id workspace
      && str_eq f.status "published"
      && str_eq f.trigger.kind event_type
    then trigger_each x workspace event_type contact conversation event fs
        (evaluate_and_enqueue x f contact conversation event w)
    else trigger_each x workspace event_type contact conversation event fs w

-- `trigger`
unfoldable pub trigger_all :
    Outside → String → String → String → Option String → Fields → World → World
unfolding trigger_each
trigger_all x workspace event_type contact conversation event w =
    trigger_each x workspace event_type contact conversation event w.workflows w

-- A message, with the texts of the reply to its buttons where they are strings.
pub record Message : Type 0 where
  pub id : String
  pub direction : String
  pub text : Option String
  pub interactive_title : Option String
  pub interactive_id : Option String
  pub button_text : Option String
  pub button_payload : Option String

-- the title and the id in `resolveInboundButtonReply`
abbrev reply_title : Message → Option String
reply_title m = coalesce m.interactive_title m.button_text

abbrev reply_id : Message → Option String
reply_id m = coalesce m.interactive_id m.button_payload

-- `resolveInboundButtonReply`
button_reply : Message → String → Fields
button_reply m step_id =
    (
      "templateButtonReply",
      one (text (get_or m.text (get_or (reply_title m) (get_or (reply_id m) "")))),
    )
    ∷ ("templateButtonReplyTitle", optional (reply_title m))
    ∷ ("templateButtonReplyId", optional (reply_id m))
    ∷ ("templateButtonReplyMessageId", one (text m.id))
    ∷ ("templateButtonReplyStepId", one (text step_id))
    ∷ []

answer : Message → Fields
answer m =
    ("lastAnswer", one (text (get_or m.text ""))) ∷ ("lastAnswerMessageId", one (text m.id)) ∷ []

unfoldable pub is_send_message : Step → Bool
is_send_message s = elim s.kind [ send_message ↦ true | _ ↦ false ]

-- the answer to the step at which a run waits
unfoldable pub answer_step : String → Message → Step → World → World
unfolding is_send_message is_question button_reply answer add_job
answer_step run_id m s w =
    if is_send_message s && s.step_data.template_button_branching
    then add_job (resume run_id (button_reply m s.id)) 0 w
    else if is_question s.kind
    then add_job (resume run_id (answer m)) 0 w
    else w

unfoldable pub current_step : Run → List Step → Option Step
current_step r steps = find (λ s. opt_eq r.current_step_id s.id) steps

-- the run that a contact's key names, where it waits
unfoldable pub answer_run : Message → Option ActiveRun → World → World
unfolding is_waiting current_step answer_step
answer_run m none w = w
answer_run m (some a) w = elim (find_run a.run_id w) [
  | none ↦ w
  | some r ↦ if not (is_waiting r.status) then w else elim (find_workflow r.workflow_id w) [
    | none ↦ w
    | some f ↦ elim (current_step r f.steps) [ none ↦ w | some s ↦ answer_step r.id m s w ]
  ]
]

-- `onInboundMessage`
unfoldable pub on_inbound_message : Outside → String → String → Message → World → World
unfolding answer_run active_run_key
on_inbound_message x workspace conversation m w =
    if not (str_eq m.direction "incoming")
    then w
    else elim (x.contact_of_conversation w conversation) [
      | none ↦ w
      | some contact ↦ answer_run m (lookup (active_run_key workspace contact) w.active) w
    ]
