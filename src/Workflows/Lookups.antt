-- ===== src/Workflows/Lookups.antt =====
-- The fields that conditions read (`resolveTriggerField`, `resolveBranchField`) in
-- src/modules/workflows/workflow-engine.service.ts.
use desk_be.Common.{
  ℕ, String, List, [], ◌∷◌, ◌++◌, Bool, true, false, none, some, str_eq, lookup, trim, not,
  if◌then◌else◌,
}
use desk_be.Workflows.Values.{
  Scalar, Value, Fields, undefined, null, text, number, one, array, value_of, or_else, is_true,
}
use desk_be.Workflows.Config.{Condition}
use desk_be.Workflows.World.{Context}
use desk_be.Workflows.Conditions.{Numbers}

-- `CONTACT_FIELD_ALIASES`
abbrev pub contact_field_aliases : List (String × String)
contact_field_aliases =
    ("firstName", "firstName")
    ∷ ("first_name", "firstName")
    ∷ ("lastName", "lastName")
    ∷ ("last_name", "lastName")
    ∷ ("email", "email")
    ∷ ("phone", "phone")
    ∷ ("company", "company")
    ∷ ("status", "status")
    ∷ []

-- `BRANCH_CONTACT_FIELD_ALIASES`
abbrev pub branch_contact_field_aliases : List (String × String)
branch_contact_field_aliases =
    contact_field_aliases
    ++ ("createdAt", "createdAt")
      ∷ ("created_at", "createdAt")
      ∷ ("updatedAt", "updatedAt")
      ∷ ("updated_at", "updatedAt")
      ∷ ("lifecycle", "lifecycleId")
      ∷ ("lifecycleId", "lifecycleId")
      ∷ ("lifecycle_id", "lifecycleId")
      ∷ ("lifecycleName", "lifecycleName")
      ∷ ("lifecycle_name", "lifecycleName")
      ∷ ("assignee", "assigneeId")
      ∷ ("assigneeId", "assigneeId")
      ∷ ("assignee_id", "assigneeId")
      ∷ ("team", "teamId")
      ∷ ("teamId", "teamId")
      ∷ ("team_id", "teamId")
      ∷ []

-- `resolveTriggerField`
unfoldable pub resolve_trigger_field : Fields → Fields → String → Value
unfolding value_of or_else
resolve_trigger_field contact event field = elim (lookup field contact_field_aliases) [
  | none ↦ or_else (value_of field contact) (value_of field event)
  | some alias ↦
      or_else (value_of alias contact)
        (or_else (value_of field contact) (or_else (value_of alias event) (value_of field event)))
]

contact_field : Fields → String → Value
unfolding value_of or_else
contact_field contact field = elim (lookup field branch_contact_field_aliases) [
  | none ↦ value_of field contact
  | some alias ↦ or_else (value_of alias contact) (value_of field contact)
]

-- a string that is not blank, or a number
is_branch_value : Scalar → Bool
is_branch_value (text s) = not (str_eq (trim s) "")
is_branch_value (number n) = true
is_branch_value s = false

-- what `compactBranchValues` keeps of a value: an array is no string
compact_value : Value → List Scalar
unfolding is_branch_value
compact_value (one s) = if is_branch_value s then s ∷ [] else []
compact_value (array vs) = []

compact_branch_values : List Value → List Scalar
unfolding compact_value
compact_branch_values [] = []
compact_branch_values (v ∷ vs) = compact_value v ++ compact_branch_values vs

-- `!value ? null : Date.now() - new Date(value).getTime()`
elapsed : (Value → Scalar) → Value → Value
unfolding is_true
elapsed since v = if is_true v then one (since v) else one null

-- `trigger?.[key] ?? contact?.[key]`
in_trigger_or_contact : Context → String → Value
unfolding value_of or_else
in_trigger_or_contact c key = or_else (value_of key c.trigger) (value_of key c.contact)

-- `resolveBranchField`, at the time `now`
unfoldable pub resolve_branch_field : Numbers → ℕ → Context → Condition → Value
unfolding value_of or_else contact_field compact_branch_values elapsed in_trigger_or_contact
resolve_branch_field n now c cond =
    if str_eq cond.category "contact_field"
    then contact_field c.contact cond.field
    else if str_eq cond.category "contact_tags"
    then or_else (value_of "tags" c.contact) (array [])
    else if str_eq cond.category "variable"
    then or_else (value_of cond.field c.vars) (value_of cond.field c.trigger)
    else if str_eq cond.category "assignee_status"
    then or_else (value_of "assigneeAvailability" c.contact) (one null)
    else if str_eq cond.category "last_interacted_channel"
    then array (
        compact_branch_values (
          value_of "channelId" c.trigger
          ∷ value_of "channel" c.trigger
          ∷ value_of "lastInteractedChannelId" c.contact
          ∷ value_of "lastInteractedChannelType" c.contact
          ∷ []))
    else if str_eq cond.category "last_incoming_message"
    then or_else (in_trigger_or_contact c "lastIncomingMessage") (one null)
    else if str_eq cond.category "last_outgoing_message"
    then or_else (in_trigger_or_contact c "lastOutgoingMessage") (one null)
    else if str_eq cond.category "last_outgoing_message_source"
    then or_else (in_trigger_or_contact c "lastOutgoingMessageSource") (one null)
    else if str_eq cond.category "time_since_last_incoming"
    then elapsed (n.since now) (in_trigger_or_contact c "lastIncomingAt")
    else if str_eq cond.category "time_since_last_outgoing"
    then elapsed (n.since now) (in_trigger_or_contact c "lastOutgoingAt")
    else one undefined
