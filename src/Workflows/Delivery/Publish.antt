-- ===== src/Workflows/Delivery/Publish.antt =====
-- What is checked of a workflow's messages before it is published
-- (`validateWorkflowDeliveryForPublish`, `assertWorkflowDeliveryForPublish` of
-- src/modules/workflows/workflow-delivery-rulebook.ts).
use desk_be.Common.{
  String, List, [], ◌∷◌, ◌++◌, Bool, true, false, Option, none, some, str_eq, opt_eq, truthy, trim,
  get_or, find, ltb, join, is_some, not, ◌&&◌, ◌||◌, if◌then◌else◌,
}
use desk_be.Workflows.Config.{Step, send_message, ask_question}
use desk_be.Workflows.Delivery.{
  Strategy, trigger_channel, specific_channel, Mode, text, media, template, Composer, email, sms,
  ChannelFacts, Capability, capability_of, is_strategy_allowed, step_strategy, message_mode,
  specific_channel_id,
}
use desk_be.Workflows.Delivery.Windows.{Window, channel_by_id, is_template, open_windows}

-- `WorkflowDeliveryValidationIssue`
pub record Issue : Type 0 where
  pub step_id : String
  pub message : String

abbrev pub issue_if : Bool → String → String → List Issue
issue_if b id message = if b then record { step_id = id; message = message } ∷ [] else []

unfoldable pub is_blank : Option String → Bool
unfolding trim
is_blank s = str_eq (trim (get_or s "")) ""

-- `validateMessageContent`
unfoldable pub message_content : Step → List Issue
unfolding is_blank is_template
message_content s =
    let d = s.step_data in
    issue_if (is_blank d.message.text && not (ltb 0 d.message.attachments) && not (is_template d))
      s.id "Add message content."
    ++ issue_if (d.template_button_branching && not (is_template d)) s.id
        "Quick reply branching needs an approved template."

-- `validateQuestionContent`
unfoldable pub question_content : Step → List Issue
unfolding is_blank
question_content s = issue_if (is_blank s.step_data.message.question_text) s.id "Add question text."

unfoldable pub mode_name : Mode → String
mode_name text = "text"
mode_name media = "media"
mode_name template = "template"

unfoldable pub mode_eq : Mode → Mode → Bool
mode_eq text text = true
mode_eq media media = true
mode_eq template template = true
mode_eq a b = false

unfoldable pub supports : List Mode → Mode → Bool
unfolding mode_eq
supports [] m = false
supports (n ∷ ms) m = mode_eq n m || supports ms m

-- `validateSendMessageChannelRules`
unfoldable pub send_rules : Step → Capability → Bool → List Issue
unfolding supports message_mode mode_name is_template
send_rules s c is_open =
    if not (supports c.supported_modes (message_mode s.step_data))
    then issue_if true s.id (
        join c.label
          (join " does not support " (join (mode_name (message_mode s.step_data)) " messages.")))
    else if is_open
    then []
    else if c.requires_template && not (is_template s.step_data)
    then issue_if true s.id
        (join "Use an approved " (join c.label " template for the first message."))
    else issue_if (not c.can_start_outbound || c.needs_existing_chat) s.id
        (join c.label " can reply only after the contact has chatted there.")

unfoldable pub is_written : Composer → Bool
is_written email = true
is_written sms = true
is_written c = false

-- `validateAskQuestionChannelRules`
unfoldable pub ask_rules : Step → Capability → Bool → List Issue
unfolding is_written
ask_rules s c is_open = issue_if (not is_open && not (is_written c.composer)) s.id (
    join c.label
      " questions need an open chat. Ask by Email/SMS or place it after a contact reply branch.")

-- `validateTriggerChannelStep`
unfoldable pub content : Step → List Issue
unfolding message_content question_content
content s = elim s.kind [ send_message ↦ message_content s | _ ↦ question_content s ]

-- the rules of the channel that a step sends over
unfoldable pub channel_rules : Step → Capability → Bool → List Issue
unfolding send_rules ask_rules
channel_rules s c is_open = elim s.kind [
  | send_message ↦ send_rules s c is_open
  | _ ↦ ask_rules s c is_open
]

unfoldable pub is_disconnected : ChannelFacts → Bool
is_disconnected c = truthy c.status && not (opt_eq c.status "connected")

-- a step over a channel that is there
unfoldable pub channel_step : Step → ChannelFacts → Bool → List Issue
unfolding is_disconnected capability_of content channel_rules
channel_step s c is_open =
    if is_disconnected c
    then issue_if true s.id (join (capability_of c.kind).label " is disconnected.")
    else if not (capability_of c.kind).can_send_message
    then issue_if true s.id (join (capability_of c.kind).label " cannot send workflow messages.")
    else content s ++ channel_rules s (capability_of c.kind) is_open

unfoldable pub has_window : String → List Window → Bool
has_window channel windows = is_some (find (λ w. str_eq w.channel_id channel) windows)

-- `validateSpecificChannelStep`
unfoldable pub specific_channel_step : List ChannelFacts → Step → List Window → List Issue
unfolding specific_channel_id channel_by_id channel_step has_window
specific_channel_step channels s windows = elim (specific_channel_id s.step_data.message.channel) [
  | none ↦ issue_if true s.id "Choose one channel."
  | some id ↦ elim (channel_by_id channels id) [
    | none ↦ issue_if true s.id "Selected channel was not found in this workspace."
    | some c ↦ channel_step s c (has_window id windows)
  ]
]

unfoldable pub sends : Step → Bool
sends s = elim s.kind [ send_message ↦ true | ask_question ↦ true | _ ↦ false ]

unfoldable pub by_strategy : List ChannelFacts → List Step → Step → Strategy → List Issue
unfolding content specific_channel_step open_windows
by_strategy channels steps s trigger_channel = content s
by_strategy channels steps s specific_channel =
    specific_channel_step channels s (open_windows channels steps s.id)

-- the issues of one step
unfoldable pub step_issues : String → List ChannelFacts → List Step → Step → List Issue
unfolding sends is_strategy_allowed step_strategy by_strategy
step_issues trigger_type channels steps s =
    if not (sends s)
    then []
    else if not (is_strategy_allowed trigger_type (step_strategy s))
    then issue_if true s.id "This workflow does not start from a chat. Choose one channel."
    else by_strategy channels steps s (step_strategy s)

unfoldable pub issues_of : String → List ChannelFacts → List Step → List Step → List Issue
unfolding step_issues
issues_of trigger_type channels steps [] = []
issues_of trigger_type channels steps (s ∷ rest) =
    step_issues trigger_type channels steps s ++ issues_of trigger_type channels steps rest

-- `validateWorkflowDeliveryForPublish`
unfoldable pub validate_delivery : String → List ChannelFacts → List Step → List Issue
unfolding issues_of
validate_delivery trigger_type channels steps = issues_of trigger_type channels steps steps

unfoldable pub listed : List Issue → String
listed [] = ""
listed (i ∷ []) = join i.step_id (join ": " i.message)
listed (i ∷ j ∷ is) = join i.step_id (join ": " (join i.message (join "; " (listed (j ∷ is)))))

-- the message of the error that issues are thrown as
unfoldable pub thrown : List Issue → Option String
unfolding listed
thrown [] = none
thrown (i ∷ is) = some (join "Workflow delivery rules failed: " (listed (i ∷ is)))

-- `assertWorkflowDeliveryForPublish`; `some` is the message of the error that it throws
unfoldable pub assert_delivery : String → List ChannelFacts → List Step → Option String
unfolding validate_delivery thrown
assert_delivery trigger_type channels steps = thrown (validate_delivery trigger_type channels steps)
