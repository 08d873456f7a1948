-- ===== src/Workflows/Delivery/Windows.antt =====
-- The windows in which a contact who has replied can be written to, along the path to a step
-- (`getPathContext` of src/modules/workflows/workflow-delivery-rulebook.ts). Times are in seconds,
-- so that the minutes of a wait in seconds stay whole.
use desk_be.Common.{
  ℕ, zero, suc, ◌+◌, ◌*◌, String, List, [], ◌∷◌, ◌++◌, map, Bool, true, false, Option, none, some,
  str_eq, contains, keep, length, trim, to_lower, get_or, ltb, ◌==◌, not, ◌&&◌, ◌||◌, if◌then◌else◌,
}
use desk_be.Workflows.Config.{
  Step, StepType, StepData, send_message, ask_question, wait, is_connector,
}
use desk_be.Workflows.Delivery.{
  ChannelFacts, template, capability_of, message_mode, specific_channel_id,
}

-- `OpenChannelWindow`, in seconds
pub record Window : Type 0 where
  pub channel_id : String
  pub elapsed : ℕ
  pub expires_after : ℕ

-- a `Map` from ids: the last row of an id is the one that is found
unfoldable pub step_by_id : List Step → String → Option Step
step_by_id [] id = none
step_by_id (s ∷ steps) id = elim (step_by_id steps id) [
  | some t ↦ some t
  | none ↦ if str_eq s.id id then some s else none
]

unfoldable pub channel_by_id : List ChannelFacts → String → Option ChannelFacts
channel_by_id [] id = none
channel_by_id (c ∷ channels) id = elim (channel_by_id channels id) [
  | some d ↦ some d
  | none ↦ if str_eq c.id id then some c else none
]

-- `current?.parentId && current.parentId !== 'trigger'`
unfoldable pub parent_of : Step → Option String
parent_of s = elim s.parent_id [
  | none ↦ none
  | some p ↦ if str_eq p "" || str_eq p "trigger" then none else some p
]

-- the parent to go on with, unless it was visited
unfoldable pub next_parent : List Step → List String → Step → Option Step
unfolding parent_of step_by_id
next_parent steps visited s = elim (parent_of s) [
  | none ↦ none
  | some p ↦ elim (step_by_id steps p) [
    | none ↦ none
    | some parent ↦ if contains visited parent.id then none else some parent
  ]
]

-- the loop of `getStepLineage`, the nearest parent first
unfoldable pub lineage_from : ℕ → List Step → List String → Step → List Step
unfolding next_parent
lineage_from zero steps visited s = []
lineage_from (suc fuel) steps visited s = elim (next_parent steps visited s) [
  | none ↦ []
  | some parent ↦ parent ∷ lineage_from fuel steps (parent.id ∷ visited) parent
]

-- `getStepLineage` before it is reversed; each turn visits another step
unfoldable pub lineage : List Step → String → List Step
unfolding lineage_from step_by_id
lineage steps id = elim (step_by_id steps id) [
  | none ↦ []
  | some s ↦ lineage_from (suc (length steps)) steps [] s
]

-- `normalizeConnectorName`
unfoldable pub connector_name : Step → String
unfolding trim to_lower
connector_name s = to_lower (trim (get_or s.name ""))

-- `isCustomerReplyConnector`
unfoldable pub is_customer_reply : Step → Bool
unfolding connector_name
is_customer_reply s =
    not (contains ("failure" ∷ "message failure" ∷ "timeout" ∷ []) (connector_name s))

-- `buildOpenWindow`
unfoldable pub open_window : List ChannelFacts → String → Option Window
unfolding channel_by_id capability_of
open_window channels id = elim (channel_by_id channels id) [
  | none ↦ none
  | some c ↦ elim (capability_of c.kind).reply_window_minutes [
    | none ↦ none
    | some minutes ↦
        if minutes == 0
        then none
        else some (record { channel_id = id; elapsed = 0; expires_after = minutes * 60 })
  ]
]

unfoldable pub is_template : StepData → Bool
unfolding message_mode
is_template d = elim (message_mode d) [ template ↦ true | _ ↦ false ]

-- whether a connector of its parent tells of a reply of the customer
unfoldable pub tells_reply : Step → Step → Bool
unfolding is_customer_reply is_template connector_name
tells_reply connector parent = elim parent.kind [
  | send_message ↦
      is_customer_reply connector
      && parent.step_data.template_button_branching
      && is_template parent.step_data
  | ask_question ↦ str_eq (connector_name connector) "success"
  | _ ↦ false
]

-- `getWindowFromSendMessageConnector` and `getWindowFromAskQuestionConnector`
unfoldable pub window_from_parent : List ChannelFacts → Step → Step → Option Window
unfolding tells_reply specific_channel_id open_window
window_from_parent channels connector parent =
    if tells_reply connector parent
    then elim (specific_channel_id parent.step_data.message.channel) [
      | none ↦ none
      | some id ↦ open_window channels id
    ]
    else none

-- `getWindowFromConnector`
unfoldable pub window_from_connector : List ChannelFacts → List Step → Step → Option Window
unfolding window_from_parent step_by_id
window_from_connector channels steps connector = elim connector.parent_id [
  | none ↦ none
  | some p ↦ if str_eq p "" then none else elim (step_by_id steps p) [
    | none ↦ none
    | some parent ↦ window_from_parent channels connector parent
  ]
]

-- `replaceWindow`
unfoldable pub replace_window : List Window → Window → List Window
replace_window windows w = keep (λ v. not (str_eq v.channel_id w.channel_id)) windows ++ w ∷ []

unfoldable pub aged : ℕ → Window → Window
aged seconds w = record w { elapsed = w.elapsed + seconds }

-- `ageWindows`
unfoldable pub age_windows : ℕ → List Window → List Window
unfolding aged
age_windows seconds windows =
    if seconds == 0
    then windows
    else keep (λ w. ltb w.elapsed w.expires_after) (map (aged seconds) windows)

-- `waitToMinutes`, in seconds, of a wait that is a whole number
unfoldable pub wait_seconds : StepData → ℕ
wait_seconds d =
    if str_eq d.wait_unit "seconds"
    then d.wait_value
    else if str_eq d.wait_unit "minutes"
    then d.wait_value * 60
    else if str_eq d.wait_unit "hours"
    then d.wait_value * 3600
    else if str_eq d.wait_unit "days"
    then d.wait_value * 86400
    else 0

unfoldable pub is_wait : StepType → Bool
is_wait wait = true
is_wait t = false

-- a window that a connector opens
unfoldable pub with_window : Option Window → List Window → List Window
unfolding replace_window
with_window none windows = windows
with_window (some w) windows = replace_window windows w

-- one turn of the loop of `getPathContext`
unfoldable pub pass : List ChannelFacts → List Step → List Window → Step → List Window
unfolding is_connector is_wait window_from_connector with_window age_windows wait_seconds
pass channels steps windows s =
    if is_connector s.kind
    then with_window (window_from_connector channels steps s) windows
    else if is_wait s.kind
    then age_windows (wait_seconds s.step_data) windows
    else windows

unfoldable pub reversed : List Step → List Step → List Step
reversed [] done = done
reversed (s ∷ path) done = reversed path (s ∷ done)

unfoldable pub pass_all : List ChannelFacts → List Step → List Window → List Step → List Window
unfolding pass
pass_all channels steps windows [] = windows
pass_all channels steps windows (s ∷ path) =
    pass_all channels steps (pass channels steps windows s) path

-- `getPathContext`
unfoldable pub open_windows : List ChannelFacts → List Step → String → List Window
unfolding pass_all reversed lineage
open_windows channels steps id = pass_all channels steps [] (reversed (lineage steps id) [])
