-- ===== src/Workflows/Sending.antt =====
-- Where a step sends its message (`ensureWorkflowConversation`, `resolveWorkflowConversation`,
-- `resolveWorkflowMessageTarget` of src/modules/workflows/workflow-engine.service.ts), on the tables
-- of conversations and contacts.
pub mod Buttons
pub mod Messages
pub mod Visits
pub mod Targets
pub mod Content
pub mod Published
pub mod Sound
mod Tests
use desk_be.Common.{
  ℕ, String, List, [], ◌∷◌, ◌++◌, map, Bool, true, false, Option, none, some, str_eq, opt_eq,
  present, coalesce, get_or, trim, find, keep, ltb, not, ◌&&◌, ◌||◌, if◌then◌else◌,
}
use desk_be.Workflows.Values.{Scalar, Value, one, text, scalar_eq, value_of, put, filled}
use desk_be.Workflows.World.{Context}
use desk_be.Workflows.Assignment.{Assigned}
use desk_be.Workflows.Config.{Message}
use desk_be.Workflows.Delivery.{
  Strategy, trigger_channel, specific_channel, resolve_strategy, is_strategy_allowed,
  specific_channel_id,
}

-- `Conversation` with the channel of its last message
pub record Chat : Type 0 where
  pub id : String
  pub workspace_id : String
  pub contact_id : String
  pub last_channel : Option String
  pub updated_at : ℕ

-- `outbound.send_message`, a job of the queue of outbound messages
pub record Outgoing : Type 0 where
  pub workspace_id : String
  pub conversation_id : String
  pub channel_id : String
  pub text : Option String
  pub attachments : ℕ
  pub template : Option String

-- `contexts` are the keys `wf:ctx:…` of Redis, `outgoing` the messages that were queued.
pub record Inbox : Type 0 where
  pub now : ℕ
  pub chats : List Chat
  pub contacts : List Assigned
  pub contexts : List (String × Context)
  pub outgoing : List Outgoing

abbrev pub is_chat_of : Context → Chat → Bool
is_chat_of c chat = str_eq chat.workspace_id c.workspace_id && str_eq chat.contact_id c.contact_id

-- the first row in the order of `updatedAt`, descending
unfoldable pub latest : List Chat → Option Chat
latest [] = none
latest (chat ∷ chats) = elim (latest chats) [
  | none ↦ some chat
  | some other ↦ if ltb chat.updated_at other.updated_at then some other else some chat
]

-- the run's own conversation
unfoldable pub scoped_chat : Context → Inbox → Option Chat
scoped_chat c i = elim (present c.conversation_id) [
  | none ↦ none
  | some id ↦ find (λ chat. str_eq chat.id id && is_chat_of c chat) i.chats
]

-- `resolveWorkflowConversation`
unfoldable pub resolve_conversation : Context → Inbox → Option Chat
unfolding scoped_chat latest
resolve_conversation c i = coalesce (scoped_chat c i) (latest (keep (is_chat_of c) i.chats))

-- a conversation, and the context and the tables that it leaves
pub record Place : Type 0 where
  pub chat : Chat
  pub context : Context
  pub inbox : Inbox

-- `saveContext`
unfoldable pub save : Context → Inbox → Inbox
unfolding put
save c i = record i { contexts = put c.run_id c i.contexts }

abbrev new_chat : String → Context → Inbox → Chat
new_chat fresh c i = record {
  id = fresh;
  workspace_id = c.workspace_id;
  contact_id = c.contact_id;
  last_channel = none;
  updated_at = i.now;
}

-- the conversation, created with the id `fresh` where there is none
unfoldable pub found_or_created : String → Context → Inbox → Chat × Inbox
unfolding resolve_conversation
found_or_created fresh c i = elim (resolve_conversation c i) [
  | some chat ↦ (chat, i)
  | none ↦ (new_chat fresh c i, record i { chats = i.chats ++ new_chat fresh c i ∷ [] })
]

unfoldable pub contact_is_open : Context → Bool
unfolding value_of scalar_eq
contact_is_open c = elim (value_of "status" c.contact) [
  | one v ↦ scalar_eq v (text "open")
  | _ ↦ false
]

-- `contact.updateMany`
unfoldable pub open_contact : Context → List Assigned → List Assigned
open_contact c contacts =
    map
      (λ a.
        if str_eq a.id c.contact_id && str_eq a.workspace_id c.workspace_id
        then record a { status = some "open" }
        else a)
      contacts

-- the context, the tables and whether the context is to be saved, once the contact is open
unfoldable pub opened : Bool → Context → Inbox → Bool → (Context × Inbox) × Bool
unfolding contact_is_open open_contact put
opened opens c i changed =
    if opens && not (contact_is_open c)
    then (
      (
        record c { contact = put "status" (one (text "open")) c.contact },
        record i { contacts = open_contact c i.contacts },
      ),
      true,
    )
    else ((c, i), changed)

-- `ensureWorkflowConversation`
unfoldable pub ensure_chat : String → Bool → Bool → Context → Inbox → Place
unfolding found_or_created opened save
ensure_chat fresh opens saves c i =
    let (chat, j) = found_or_created fresh c i in
    let named = record c { conversation_id = some chat.id } in
    let ((d, k), changed) = opened opens named j (not (opt_eq c.conversation_id chat.id)) in
    record { chat = chat; context = d; inbox = if changed && saves then save d k else k }

-- `nonEmptyString`
unfoldable pub non_empty : Value → Option String
unfolding filled trim
non_empty v = elim (filled v) [ none ↦ none | some s ↦ some (trim s) ]

abbrev text_of : Option String → Value
text_of none = one Scalar.null
text_of (some s) = one (text s)

-- where a message goes, or the error that is thrown for it
pub data Target : Type 0 where
  channel : String → Place → Target
  nowhere : String → Target

-- `triggerChannelId ?? conversationChannelId`
unfoldable pub chat_channel : Context → Option Chat → Option String
unfolding non_empty value_of
chat_channel c chat =
    coalesce (non_empty (value_of "channelId" c.trigger))
      (elim chat [ none ↦ none | some t ↦ non_empty (text_of t.last_channel) ])

abbrev no_chat : Target
no_chat = nowhere "This workflow did not start from a chat channel."

-- the run goes on in a conversation
unfoldable pub moved : Chat → Context → Inbox → Place
unfolding save
moved chat c i =
    let named = record c { conversation_id = some chat.id } in
    if opt_eq c.conversation_id chat.id
    then record { chat = chat; context = c; inbox = i }
    else record { chat = chat; context = named; inbox = save named i }

-- `resolveTriggerChannelTarget`
unfoldable pub trigger_target : Context → Inbox → Target
unfolding resolve_conversation chat_channel moved
trigger_target c i = elim (resolve_conversation c i) [
  | none ↦ no_chat
  | some chat ↦ elim (chat_channel c (some chat)) [
    | none ↦ no_chat
    | some id ↦ channel id (moved chat c i)
  ]
]

-- `Choose one channel.` or the conversation, over the channel of the step
unfoldable pub specific_target : String → Option String → Context → Inbox → Target
unfolding specific_channel_id ensure_chat
specific_target fresh id c i = elim (specific_channel_id id) [
  | none ↦ nowhere "Choose one channel."
  | some channel_id ↦ channel channel_id (ensure_chat fresh true true c i)
]

-- `getWorkflowStrategyIssue`, of a trigger whose type is not blank
unfoldable pub strategy_issue : String → Strategy → Option String
unfolding is_strategy_allowed trim
strategy_issue trigger_type strategy =
    if str_eq (trim trigger_type) "" || is_strategy_allowed trigger_type strategy
    then none
    else some "This workflow does not start from a chat. Choose one channel."

unfoldable pub target_by : String → Strategy → Option String → Context → Inbox → Target
unfolding trigger_target specific_target
target_by fresh trigger_channel id c i = trigger_target c i
target_by fresh specific_channel id c i = specific_target fresh id c i

-- `resolveWorkflowMessageTarget`
unfoldable pub resolve_target : String → String → Message → Context → Inbox → Target
unfolding resolve_strategy strategy_issue target_by
resolve_target fresh trigger_type m c i =
    let strategy = resolve_strategy m.delivery_strategy m.channel in
    elim (strategy_issue trigger_type strategy) [
      | some issue ↦ nowhere issue
      | none ↦ target_by fresh strategy m.channel c i
    ]
