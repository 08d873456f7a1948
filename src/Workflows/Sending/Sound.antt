-- ===== src/Workflows/Sending/Sound.antt =====
-- A workflow that was published says its messages (`handleSendMessage` of
-- src/modules/workflows/workflow-engine.service.ts, `assertWorkflowDeliveryForPublish` of
-- src/modules/workflows/workflow-delivery-rulebook.ts).
use mathlib.Core.Path.{subst}
use desk_be.Common.{
  String, List, [], ◌∷◌, ◌++◌, Bool, true, false, Option, none, some, str_eq, find, trim,
  Bool-cases, not, ◌&&◌, ◌||◌, inl, inr, ◌≡◌, refl, sym, ap, ◌∙◌, arith,
}
use desk_be.Workflows.Config.{Step}
use desk_be.Workflows.World.{Context}
use desk_be.Workflows.Handlers.{replied}
use desk_be.Workflows.Delivery.{
  Strategy, trigger_channel, specific_channel, ChannelFacts, is_strategy_allowed, step_strategy,
  specific_channel_id,
}
use desk_be.Workflows.Delivery.Publish.{sends, assert_delivery}
use desk_be.Workflows.Delivery.Deliverable.{goes_by, is_deliverable}
use desk_be.Workflows.Sending.{
  Chat, Inbox, Outgoing, Target, channel, nowhere, specific_target, is_chat_of, strategy_issue,
  target_by, resolve_target,
}
use desk_be.Workflows.Sending.Buttons.{is_button_step}
use desk_be.Workflows.Sending.Messages.{
  Sending, sent, failure_result, send_to, dispatch, is_reply, handle_send_message, as_message,
  payload, interpolate,
}
use desk_be.Workflows.Sending.Visits.{is_answered, send_step}
use desk_be.Workflows.Sending.Targets.{
  Fits, trigger_channel_of, trigger_target-Fits, specific_target-IsTarget,
}
use desk_be.Workflows.Sending.Content.{content_enough}
use desk_be.Workflows.Sending.Published.{
  found_deliverable, goes_by-content, reaches-channel, engine_channel, engine_strategy,
  engine_strategy-same,
}

-- The channel that a step is meant to go over: its own, or that of the chat that triggered.
unfoldable pub meant_channel : Context → Inbox → Step → Option String
unfolding trigger_channel_of
meant_channel c i s = elim (step_strategy s) [
  | trigger_channel ↦ trigger_channel_of c i
  | specific_channel ↦ specific_channel_id s.step_data.message.channel
]

-- One message is queued, over a channel and in a conversation of the contact; without a channel the
-- step, which was to go to the chat that triggered, fails for want of one.
unfoldable pub GoesOut : Context → Inbox → List Step → Step → Option String → Sending → Type 0
GoesOut c i steps s (some id) r =
    (o : Outgoing) × (chat : Chat) × (r.inbox.outgoing ≡ i.outgoing ++ o ∷ [])
    × (o.channel_id ≡ id)
    × (o.conversation_id ≡ chat.id)
    × (is_chat_of c chat ≡ true)
GoesOut c i steps s none r =
    (step_strategy s ≡ trigger_channel)
    × (r.inbox ≡ i)
    × (r.reply
        ≡ replied (
            failure_result (as_message s) steps "This workflow did not start from a chat channel."))

parts : (a b c : Bool) → (not a || (b && c)) ≡ true → a ≡ true → (b ≡ true) × (c ≡ true)
parts a b c h k = ground (arith, h, k)

allowed-no_issue :
    (trigger_type : String) (t : Strategy)
    → is_strategy_allowed trigger_type t ≡ true
    → strategy_issue trigger_type t ≡ none
unfolding strategy_issue
allowed-no_issue trigger_type t h = elim (Bool-cases (str_eq (trim trigger_type) "")) [
  | inl e ↦ rw (e) refl
  | inr e ↦ rw (strategy_issue, e, h) refl
]

module _ (trigger_type : String) (channels : List ChannelFacts) (steps : List Step) where
  module _ (c : Context) (i : Inbox) (fresh : String) where
    target_followed :
        (s : Step)
        → engine_strategy s ≡ step_strategy s
        → is_strategy_allowed trigger_type (step_strategy s) ≡ true
        → resolve_target fresh trigger_type (as_message s).step_data.message c i
          ≡ target_by fresh (step_strategy s) (as_message s).step_data.message.channel c i
    unfolding resolve_target
    target_followed s e h =
        ap
          (λ t. elim (strategy_issue trigger_type t) [
            | some issue ↦ nowhere issue
            | none ↦ target_by fresh t (as_message s).step_data.message.channel c i
          ])
          e
        ∙ ap
            (λ o. elim o [
              | some issue ↦ nowhere issue
              | none ↦
                  target_by fresh (step_strategy s) (as_message s).step_data.message.channel c i
            ])
            (allowed-no_issue trigger_type (step_strategy s) h)

    target-Fits :
        (s : Step)
        → sends s ≡ true
        → goes_by trigger_type channels steps s (step_strategy s) ≡ true
        → Fits c i
            (meant_channel c i s)
            (target_by fresh (step_strategy s) (as_message s).step_data.message.channel c i)
    unfolding meant_channel target_by goes_by
    target-Fits s h g = by_strategy (step_strategy s) g
      where
        by_strategy :
            (t : Strategy)
            → goes_by trigger_type channels steps s t ≡ true
            → Fits c i
                (elim t [
                  | trigger_channel ↦ trigger_channel_of c i
                  | specific_channel ↦ specific_channel_id s.step_data.message.channel
                ])
                (target_by fresh t (as_message s).step_data.message.channel c i)
        by_strategy trigger_channel g = trigger_target-Fits c i
        by_strategy specific_channel g =
            let (id, e) = reaches-channel trigger_type channels steps s g in
            subst
              (λ o. Fits c i o (specific_target fresh (as_message s).step_data.message.channel c i))
              (sym e)
              (specific_target-IsTarget c i fresh (as_message s).step_data.message.channel id
                (engine_channel s id h e))

    meant_none :
        (s : Step)
        → goes_by trigger_type channels steps s (step_strategy s) ≡ true
        → meant_channel c i s ≡ none
        → step_strategy s ≡ trigger_channel
    unfolding meant_channel goes_by
    meant_none s g m = by_strategy (step_strategy s) g m
      where
        by_strategy :
            (t : Strategy)
            → goes_by trigger_type channels steps s t ≡ true
            → elim t [
              | trigger_channel ↦ trigger_channel_of c i
              | specific_channel ↦ specific_channel_id s.step_data.message.channel
            ]
              ≡ none
            → t ≡ trigger_channel
        by_strategy trigger_channel g m = refl
        by_strategy specific_channel g m =
            ground (arith, sym m ∙ (reaches-channel trigger_type channels steps s g).1)

    target-GoesOut :
        (render : String → Context → String) (s : Step) (o : Option String) (t : Target)
        → (o ≡ none → step_strategy s ≡ trigger_channel)
        → Fits c i o t
        → GoesOut c i steps s o (send_to render sent (as_message s) c steps i t)
    unfolding GoesOut send_to dispatch payload
    target-GoesOut render s none t h e =
        subst (λ t. GoesOut c i steps s none (send_to render sent (as_message s) c steps i t))
          (sym e) (h refl, refl, refl)
    target-GoesOut render s (some id) (nowhere reason) h e = ground (arith, e)
    target-GoesOut render s (some id) (channel x p) h (e, f, g, k) =
        let m = (as_message s).step_data.message in
        let o = payload m (interpolate render m.text c) x p in
        (o, p.chat, ap (λ l. l ++ o ∷ []) k, e, refl, f)

    called-GoesOut :
        (render : String → Context → String) (id : String) (s : Step)
        → assert_delivery trigger_type channels steps ≡ none
        → find (λ t. str_eq t.id id) steps ≡ some s
        → sends s ≡ true
        → (is_button_step (as_message s) && is_reply (as_message s) c) ≡ false
        → GoesOut c i steps s
            (meant_channel c i s)
            (handle_send_message render sent fresh trigger_type (as_message s) c steps i)
    unfolding handle_send_message is_deliverable
    called-GoesOut render id s published found h pressed =
        let (allowed, g) =
          parts (sends s) _ _ (found_deliverable trigger_type channels steps id s published found)
            h in
        let content =
          content_enough s h (goes_by-content trigger_type channels steps s (step_strategy s) g) in
        let same = engine_strategy-same trigger_type channels steps s h g in
        rw (handle_send_message, pressed, content, target_followed s same allowed)
          (target-GoesOut render s (meant_channel c i s) _ (meant_none s g) (target-Fits s h g))

    -- In a workflow that passed the check before publication, when a run comes to a step that sends
    -- a message, unless it is a template one of whose buttons the contact has pressed, or to a
    -- question that has no answer yet, handleSendMessage is called for it, and if the queue takes
    -- the message and sends it, exactly one message is queued, in a conversation of the contact,
    -- over the channel of the step or, if it answers in the chat that triggered, over the channel
    -- of that chat; if that chat is missing or has no channel, nothing is queued or changed and the
    -- call fails for this reason.
    pub published-GoesOut :
        (render : String → Context → String) (id : String) (s : Step)
        → assert_delivery trigger_type channels steps ≡ none
        → find (λ t. str_eq t.id id) steps ≡ some s
        → sends s ≡ true
        → (is_button_step (as_message s) && is_reply (as_message s) c) ≡ false
        → is_answered s c ≡ false
        → (r : Sending) × (send_step render sent fresh trigger_type s c steps i ≡ some r)
          × GoesOut c i steps s (meant_channel c i s) r
    unfolding send_step
    published-GoesOut render id s published found h pressed asked =
        let r = handle_send_message render sent fresh trigger_type (as_message s) c steps i in
        (r, rw (send_step, asked) refl, called-GoesOut render id s published found h pressed)
