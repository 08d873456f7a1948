-- ===== src/Workflows/Sending/Published.antt =====
-- What the check before publication (src/modules/workflows/workflow-delivery-rulebook.ts) is worth
-- when a workflow runs (`handleSendMessage` of src/modules/workflows/workflow-engine.service.ts).
use mathlib.Core.Path.{subst}
use desk_be.Common.{
  all-find, String, List, Bool, true, false, Option, none, some, str_eq, find, is_some, truthy,
  trim, coalesce, not, ◌&&◌, ◌⊎◌, inl, inr, ◌≡◌, refl, sym, ap, ◌∙◌, Bool-cases, eq_iff,
  if◌then◌else◌, arith,
}
use desk_be.Workflows.Config.{Step, StepType, Message, send_message, ask_question}
use desk_be.Workflows.Delivery.{
  Strategy, trigger_channel, specific_channel, ChannelFacts, capability_of, is_specific_channel,
  resolve_strategy, step_strategy, specific_channel_id,
}
use desk_be.Workflows.Delivery.Windows.{channel_by_id}
use desk_be.Workflows.Delivery.Publish.{is_disconnected, sends, assert_delivery}
use desk_be.Workflows.Delivery.Deliverable.{
  has_content, takes, carries, reaches, goes_by, is_deliverable,
}
use desk_be.Workflows.Delivery.Sound.{assert_delivery-is_deliverable}
use desk_be.Workflows.Sending.Messages.{as_message, question_step}
use desk_be.Workflows.Sending.Content.{sends-cases, as_message-send, as_message-ask}

-- the empty channel is neither specific nor the trigger's
empty_channel :
    {G : Type 0}
    → (is_some (specific_channel_id (some "")) ≡ true)
      ⊎ (resolve_strategy none (some "") ≡ trigger_channel)
    → G
unfolding resolve_strategy specific_channel_id is_specific_channel trim
empty_channel (inl h) = ground (arith, h)
empty_channel (inr h) = ground (arith, h)

-- Where the strategy of a step lets it say its message, the engine follows the same strategy.
strategy_same :
    (m : Message)
    → is_some (specific_channel_id m.channel) ≡ true
      ⊎ (resolve_strategy m.delivery_strategy (coalesce m.channel (some "trigger_channel"))
          ≡ trigger_channel)
    → resolve_strategy
        (coalesce m.delivery_strategy (if truthy m.channel then none else some "trigger_channel"))
        (coalesce m.channel (some "trigger_channel"))
      ≡ resolve_strategy m.delivery_strategy (coalesce m.channel (some "trigger_channel"))
unfolding resolve_strategy specific_channel_id is_specific_channel trim
strategy_same m h = by_fields m.delivery_strategy m.channel h
  where
    by_fields :
        (o c : Option String)
        → (is_some (specific_channel_id c) ≡ true)
          ⊎ (resolve_strategy o (coalesce c (some "trigger_channel")) ≡ trigger_channel)
        → resolve_strategy
            (coalesce o (if truthy c then none else some "trigger_channel"))
            (coalesce c (some "trigger_channel"))
          ≡ resolve_strategy o (coalesce c (some "trigger_channel"))
    by_fields (some o) c h = refl
    by_fields none none h = refl
    by_fields none (some c) h = elim (Bool-cases (str_eq c "")) [
      | inl e ↦ empty_channel (
          subst
            (λ t.
              (is_some (specific_channel_id (some t)) ≡ true)
              ⊎ (resolve_strategy none (some t) ≡ trigger_channel))
            ((eq_iff c "").0 e) h)
      | inr e ↦ rw (e) refl
    ]

some_of :
    {A : Type 0} (o : Option A) (f : A → Bool)
    → elim o [ none ↦ false | some a ↦ f a ] ≡ true
    → (a : A) × (o ≡ some a) × (f a ≡ true)
some_of none f h = ground (arith, h)
some_of (some a) f h = (a, refl, h)

third : (a b c d : Bool) → (a && b && c && d) ≡ true → c ≡ true
third a b c d h = ground (arith, h)

carries-content :
    (s : Step) (c : ChannelFacts) (is_open : Bool)
    → carries s c is_open ≡ true
    → has_content s ≡ true
unfolding carries
carries-content s c is_open h =
    third (not (is_disconnected c)) (capability_of c.kind).can_send_message (has_content s)
      (takes s (capability_of c.kind) is_open) h

module _ (trigger_type : String) (channels : List ChannelFacts) (steps : List Step) where
  pub found_deliverable :
      (id : String) (s : Step)
      → assert_delivery trigger_type channels steps ≡ none
      → find (λ t. str_eq t.id id) steps ≡ some s
      → is_deliverable trigger_type channels steps s ≡ true
  found_deliverable id s e f =
      all-find (is_deliverable trigger_type channels steps) _ steps s
        (sym (assert_delivery-is_deliverable trigger_type channels steps)
          ∙ ap (λ o. not (is_some o)) e)
        f

  reaches-content : (s : Step) → reaches trigger_type channels steps s ≡ true → has_content s ≡ true
  unfolding reaches
  reaches-content s h =
      let (id, e, r) = some_of (specific_channel_id s.step_data.message.channel) _ h in
      let (c, f, q) = some_of (channel_by_id channels id) _ r in carries-content s c _ q

  pub goes_by-content :
      (s : Step) (t : Strategy)
      → goes_by trigger_type channels steps s t ≡ true
      → has_content s ≡ true
  unfolding goes_by
  goes_by-content s trigger_channel h = h
  goes_by-content s specific_channel h = reaches-content s h

  pub reaches-channel :
      (s : Step)
      → reaches trigger_type channels steps s ≡ true
      → (id : String) × (specific_channel_id s.step_data.message.channel ≡ some id)
  unfolding reaches
  reaches-channel s h =
      let (id, e, r) = some_of (specific_channel_id s.step_data.message.channel) _ h in (id, e)

strategy_of : Message → StepType → Strategy
unfolding resolve_strategy
strategy_of m k =
    resolve_strategy m.delivery_strategy
      (elim k [ ask_question ↦ coalesce m.channel (some "trigger_channel") | _ ↦ m.channel ])

step_strategy-kind :
    (s : Step) (k : StepType) → s.kind ≡ k → step_strategy s ≡ strategy_of s.step_data.message k
unfolding step_strategy strategy_of
step_strategy-kind s k e = ap (strategy_of s.step_data.message) e

coalesce-specific :
    (o : Option String) (id : String)
    → specific_channel_id o ≡ some id
    → specific_channel_id (coalesce o (some "trigger_channel")) ≡ some id
unfolding specific_channel_id is_specific_channel
coalesce-specific none id h = ground (arith, h)
coalesce-specific (some c) id h = h

pub engine_channel :
    (s : Step) (id : String)
    → sends s ≡ true
    → specific_channel_id s.step_data.message.channel ≡ some id
    → specific_channel_id (as_message s).step_data.message.channel ≡ some id
unfolding question_step
engine_channel s id h e = elim (sends-cases s h) [
  | inl k ↦ ap (λ t. specific_channel_id t.step_data.message.channel) (as_message-send s k) ∙ e
  | inr k ↦
      ap (λ t. specific_channel_id t.step_data.message.channel) (as_message-ask s k)
      ∙ coalesce-specific s.step_data.message.channel id e
]

-- the strategy that the engine follows
abbrev pub engine_strategy : Step → Strategy
engine_strategy s =
    let m = (as_message s).step_data.message in resolve_strategy m.delivery_strategy m.channel

pub engine_strategy-same :
    (trigger_type : String) (channels : List ChannelFacts) (steps : List Step) (s : Step)
    → sends s ≡ true
    → goes_by trigger_type channels steps s (step_strategy s) ≡ true
    → engine_strategy s ≡ step_strategy s
unfolding goes_by question_step strategy_of
engine_strategy-same trigger_type channels steps s h g = elim (sends-cases s h) [
  | inl k ↦
      ap (λ t. resolve_strategy t.step_data.message.delivery_strategy t.step_data.message.channel)
        (as_message-send s k)
      ∙ sym (step_strategy-kind s send_message k)
  | inr k ↦
      ap (λ t. resolve_strategy t.step_data.message.delivery_strategy t.step_data.message.channel)
        (as_message-ask s k)
      ∙ strategy_same s.step_data.message
          (by_strategy (step_strategy s) (sym (step_strategy-kind s ask_question k)) g)
      ∙ sym (step_strategy-kind s ask_question k)
]
  where
    by_strategy :
        (t : Strategy)
        → resolve_strategy s.step_data.message.delivery_strategy
            (coalesce s.step_data.message.channel (some "trigger_channel"))
          ≡ t
        → goes_by trigger_type channels steps s t ≡ true
        → (is_some (specific_channel_id s.step_data.message.channel) ≡ true)
          ⊎ (resolve_strategy s.step_data.message.delivery_strategy
                (coalesce s.step_data.message.channel (some "trigger_channel"))
              ≡ trigger_channel)
    by_strategy trigger_channel e g = inr e
    by_strategy specific_channel e g =
        inl (ap is_some (reaches-channel trigger_type channels steps s g).1)
