-- ===== src/Workflows/Delivery.antt =====
-- What a channel can do and which channel a step sends over
-- (src/modules/workflows/workflow-delivery-rulebook.ts).
pub mod Windows
pub mod Publish
pub mod Lineage
pub mod Unique
pub mod Above
pub mod Deliverable
pub mod Content
pub mod Sound
mod Tests
use Prim.Native.Char.{code}
use Prim.Native.String.{String as Text}
use desk_be.Common.{
  ℕ, String, List, [], ◌∷◌, ◌*◌, Bool, true, false, Option, none, some, str_eq, opt_eq, contains,
  lookup, trim, to_lower, get_or, coalesce, truthy, ltb, not, ◌&&◌, ◌||◌, ◌==◌, if◌then◌else◌,
}
use desk_be.Workflows.Config.{Step, StepType, StepData, Message, ask_question}

-- `WorkflowChannelStrategy`
pub data Strategy : Type 0 where
  trigger_channel specific_channel : Strategy

-- `WorkflowChannelMessageMode`
pub data Mode : Type 0 where
  text media template : Mode

pub data Composer : Type 0 where
  chat email sms : Composer

pub data Family : Type 0 where
  chat commerce contact manual meta general : Family

pub record ChannelFacts : Type 0 where
  pub id : String
  pub kind : String
  pub status : Option String

-- `WorkflowChannelCapability`; the window of replies is in minutes
pub record Capability : Type 0 where
  pub label : String
  pub can_send_message : Bool
  pub can_start_outbound : Bool
  pub needs_existing_chat : Bool
  pub requires_template : Bool
  pub supported_modes : List Mode
  pub composer : Composer
  pub reply_window_minutes : Option ℕ

abbrev pub chat_modes : List Mode
chat_modes = text ∷ media ∷ []

abbrev pub template_modes : List Mode
template_modes = text ∷ media ∷ template ∷ []

-- a chat that answers only who has written
abbrev pub reply_only : String → Option ℕ → Capability
reply_only label window = record {
  label = label;
  can_send_message = true;
  can_start_outbound = false;
  needs_existing_chat = true;
  requires_template = false;
  supported_modes = chat_modes;
  composer = Composer.chat;
  reply_window_minutes = window;
}

-- a channel over which a conversation can be started
abbrev pub outbound : String → List Mode → Composer → Capability
outbound label modes composer = record {
  label = label;
  can_send_message = true;
  can_start_outbound = true;
  needs_existing_chat = false;
  requires_template = false;
  supported_modes = modes;
  composer = composer;
  reply_window_minutes = none;
}

abbrev pub day_minutes : ℕ
day_minutes = 24 * 60

-- `CHANNEL_CAPABILITIES_BY_KEY`
abbrev pub capabilities : List (String × Capability)
capabilities =
    (
      "whatsapp",
      record (outbound "WhatsApp" template_modes Composer.chat) {
        requires_template = true;
        reply_window_minutes = some day_minutes;
      },
    )
    ∷ (
      "messenger",
      record (reply_only "Messenger" (some day_minutes)) { supported_modes = template_modes },
    )
    ∷ ("instagram", reply_only "Instagram" (some day_minutes))
    ∷ ("webchat", reply_only "Website chat" none)
    ∷ ("email", outbound "Email" chat_modes email)
    ∷ ("gmail", outbound "Gmail" chat_modes email)
    ∷ ("sms", outbound "SMS" (text ∷ []) sms)
    ∷ ("telegram", reply_only "Telegram" (some day_minutes))
    ∷ ("viber", reply_only "Viber" (some day_minutes))
    ∷ ("line", reply_only "LINE" (some day_minutes))
    ∷ ("wechat", reply_only "WeChat" (some day_minutes))
    ∷ (
      "exotel_call",
      record (reply_only "Call" none) {
        can_send_message = false;
        needs_existing_chat = false;
        supported_modes = [];
      },
    )
    ∷ []

-- `UNKNOWN_CHANNEL_CAPABILITY`
abbrev pub unknown_capability : Capability
unknown_capability = record (reply_only "This channel" none) {
  can_send_message = false;
  supported_modes = [];
}

-- `normalizeWorkflowChannelType`
unfoldable pub normalize_channel_type : String → String
unfolding trim to_lower
normalize_channel_type value = to_lower (trim value)

-- `getWorkflowChannelCapability`
unfoldable pub capability_of : String → Capability
unfolding normalize_channel_type
capability_of kind = get_or (lookup (normalize_channel_type kind) capabilities) unknown_capability

-- `s.startsWith(prefix)`
starts_with : String → String → Bool
starts_with Text.[] s = true
starts_with (Text.◌∷◌ c p) Text.[] = false
starts_with (Text.◌∷◌ c p) (Text.◌∷◌ d s) = let rest = starts_with p s in (code c == code d) && rest

abbrev contact_triggers : List String
contact_triggers =
    "contact_tag_updated" ∷ "contact_field_updated" ∷ "contact_assigned" ∷ "lifecycle_updated" ∷ []

abbrev chat_triggers : List String
chat_triggers =
    "conversation_opened" ∷ "conversation_closed" ∷ "menu_click" ∷ "story_reply" ∷ "template_send"
    ∷ []

-- `getWorkflowTriggerFamily`
unfoldable pub trigger_family : String → Family
unfolding starts_with
trigger_family kind =
    if starts_with "commerce." kind
    then commerce
    else if str_eq kind "meta_ad_click"
    then meta
    else if contains contact_triggers kind
    then contact
    else if str_eq kind "manual_trigger" || str_eq kind "shortcut"
    then manual
    else if contains chat_triggers kind
    then Family.chat
    else general

-- `workflowTriggerHasConversation`
unfoldable pub has_conversation : String → Bool
unfolding trigger_family
has_conversation kind = elim (trigger_family kind) [ Family.chat ↦ true | meta ↦ true | _ ↦ false ]

-- `isSpecificWorkflowChannel`
unfoldable pub is_specific_channel : Option String → Bool
unfolding trim
is_specific_channel none = false
is_specific_channel (some s) =
    not (str_eq (trim s) "") && not (contains ("trigger_channel" ∷ "last_interacted" ∷ []) (trim s))

-- `isWorkflowChannelStrategy`
strategy_named : Option String → Option Strategy
strategy_named none = none
strategy_named (some s) =
    if str_eq s "trigger_channel"
    then some trigger_channel
    else if str_eq s "specific_channel"
    then some specific_channel
    else none

-- `resolveWorkflowChannelStrategy`
unfoldable pub resolve_strategy : Option String → Option String → Strategy
unfolding strategy_named is_specific_channel
resolve_strategy strategy channel = elim (strategy_named strategy) [
  | some s ↦ s
  | none ↦
      if is_specific_channel channel
      then specific_channel
      else if opt_eq channel "trigger_channel" || opt_eq channel "last_interacted"
      then trigger_channel
      else specific_channel
]

-- `isWorkflowStrategyAllowedForTrigger`; `getWorkflowStrategyIssue` is an issue where this is not
unfoldable pub is_strategy_allowed : String → Strategy → Bool
unfolding has_conversation
is_strategy_allowed kind trigger_channel = has_conversation kind
is_strategy_allowed kind specific_channel = true

-- `resolveStepStrategy`
unfoldable pub step_strategy : Step → Strategy
unfolding resolve_strategy
step_strategy s =
    let m = s.step_data.message in
    resolve_strategy m.delivery_strategy
      (elim s.kind [ ask_question ↦ coalesce m.channel (some "trigger_channel") | _ ↦ m.channel ])

-- `inferWorkflowMessageMode`
unfoldable pub message_mode : StepData → Mode
message_mode d =
    if truthy d.message.template_name && truthy d.message.template_language
    then template
    else if ltb 0 d.message.attachments
    then media
    else text

-- `getSpecificChannelId`
unfoldable pub specific_channel_id : Option String → Option String
unfolding is_specific_channel trim
specific_channel_id channel =
    if is_specific_channel channel then some (trim (get_or channel "")) else none
