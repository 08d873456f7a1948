-- ===== src/Workflows/Delivery/Deliverable.antt =====
-- Which messages of a workflow can be delivered, told without the check's lists of issues
-- (src/modules/workflows/workflow-delivery-rulebook.ts).
use desk_be.Common.{String, List, Bool, false, none, some, ltb, is_some, not, ◌&&◌, ◌||◌}
use desk_be.Workflows.Config.{Step, send_message}
use desk_be.Workflows.Delivery.{
  Strategy, trigger_channel, specific_channel, ChannelFacts, Capability, capability_of,
  is_strategy_allowed, step_strategy, message_mode, specific_channel_id,
}
use desk_be.Workflows.Delivery.Windows.{channel_by_id, is_template, lineage}
use desk_be.Workflows.Delivery.Publish.{is_blank, supports, is_written, is_disconnected, sends}
use desk_be.Workflows.Delivery.Above.{nearest}

-- a step has something to say
unfoldable pub has_content : Step → Bool
unfolding is_blank is_template
has_content s =
    let d = s.step_data in
    elim s.kind [
      | send_message ↦
          (not (is_blank d.message.text) || ltb 0 d.message.attachments || is_template d)
          && (not d.template_button_branching || is_template d)
      | _ ↦ not (is_blank d.message.question_text)
    ]

-- a channel takes a step's message, at an open window or not
unfoldable pub takes : Step → Capability → Bool → Bool
unfolding supports message_mode is_template is_written
takes s c is_open = elim s.kind [
  | send_message ↦
      supports c.supported_modes (message_mode s.step_data)
      && (is_open
          || ((not c.requires_template || is_template s.step_data)
              && c.can_start_outbound
              && not c.needs_existing_chat))
  | _ ↦ is_open || is_written c.composer
]

-- a channel that is connected and can send takes the step's message
unfoldable pub carries : Step → ChannelFacts → Bool → Bool
unfolding is_disconnected capability_of has_content takes
carries s c is_open =
    not (is_disconnected c)
    && (capability_of c.kind).can_send_message
    && has_content s
    && takes s (capability_of c.kind) is_open

module _ (trigger_type : String) (channels : List ChannelFacts) (steps : List Step) where
  -- the channel of a step carries it, with the window that the way up from the step opens
  unfoldable pub reaches : Step → Bool
  unfolding specific_channel_id channel_by_id carries nearest lineage
  reaches s = elim (specific_channel_id s.step_data.message.channel) [
    | none ↦ false
    | some id ↦ elim (channel_by_id channels id) [
      | none ↦ false
      | some c ↦ carries s c (is_some (nearest channels steps id 0 (lineage steps s.id)))
    ]
  ]

  unfoldable pub goes_by : Step → Strategy → Bool
  unfolding has_content reaches
  goes_by s trigger_channel = has_content s
  goes_by s specific_channel = reaches s

  -- The message of a step, if it has one, can be delivered: its workflow's trigger allows its
  -- strategy, and it is said in the chat that triggered or reaches over its channel.
  unfoldable pub is_deliverable : Step → Bool
  unfolding sends is_strategy_allowed step_strategy goes_by
  is_deliverable s =
      not (sends s)
      || (is_strategy_allowed trigger_type (step_strategy s) && goes_by s (step_strategy s))
