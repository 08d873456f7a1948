-- ===== src/Workflows/Delivery/Sound.antt =====
-- The check before publication lets through exactly the workflows whose messages can be delivered
-- (`assertWorkflowDeliveryForPublish` of src/modules/workflows/workflow-delivery-rulebook.ts).
use desk_be.Common.{
  String, List, [], ◌∷◌, Bool, true, false, all, is_some, ◌≡◌, refl, ◌∙◌, ap, not, ◌&&◌, ◌||◌,
  Option-cases, inl, inr, if◌then◌else◌,
}
use desk_be.Workflows.Config.{Step}
use desk_be.Workflows.Delivery.{
  Strategy, trigger_channel, specific_channel, ChannelFacts, is_strategy_allowed, step_strategy,
  specific_channel_id,
}
use desk_be.Workflows.Delivery.Windows.{channel_by_id, open_windows, lineage}
use desk_be.Workflows.Delivery.Publish.{
  Issue, has_window, specific_channel_step, sends, by_strategy, step_issues, issues_of,
  validate_delivery, assert_delivery, thrown,
}
use desk_be.Workflows.Delivery.Above.{nearest, open_windows-nearest}
use desk_be.Workflows.Delivery.Deliverable.{carries, reaches, goes_by, is_deliverable}
use desk_be.Workflows.Delivery.Content.{is_empty, empty-append, step_empty, content_empty}

no_exception : (xs : List Issue) → not (is_some (thrown xs)) ≡ is_empty xs
unfolding thrown is_empty
no_exception [] = refl
no_exception (i ∷ is) = refl

module _ (trigger_type : String) (channels : List ChannelFacts) (steps : List Step) where
  window_same :
      (s : Step) (id : String)
      → has_window id (open_windows channels steps s.id)
        ≡ is_some (nearest channels steps id 0 (lineage steps s.id))
  unfolding has_window
  window_same s id = ap is_some (open_windows-nearest channels steps s.id id)

  reaches_empty :
      (s : Step)
      → is_empty (specific_channel_step channels s (open_windows channels steps s.id))
        ≡ reaches trigger_type channels steps s
  unfolding specific_channel_step reaches is_empty
  reaches_empty s = elim (Option-cases (specific_channel_id s.step_data.message.channel)) [
    | inl e ↦ rw (specific_channel_step, reaches, e) refl
    | inr (id, e) ↦ elim (Option-cases (channel_by_id channels id)) [
      | inl g ↦ rw (specific_channel_step, reaches, e, g) refl
      | inr (c, g) ↦
          rw (specific_channel_step, reaches, e, g)
            (step_empty s c (has_window id (open_windows channels steps s.id))
              ∙ ap (carries s c) (window_same s id))
    ]
  ]

  by_empty :
      (s : Step) (g : Strategy)
      → is_empty (by_strategy channels steps s g) ≡ goes_by trigger_type channels steps s g
  unfolding by_strategy goes_by
  by_empty s trigger_channel = content_empty s
  by_empty s specific_channel = reaches_empty s

  issues_empty :
      (s : Step)
      → is_empty (step_issues trigger_type channels steps s)
        ≡ is_deliverable trigger_type channels steps s
  unfolding step_issues is_deliverable is_empty
  issues_empty s =
      branches (sends s) (is_strategy_allowed trigger_type (step_strategy s))
        (goes_by trigger_type channels steps s (step_strategy s)) _ _ (by_empty s (step_strategy s))
    where
      branches :
          (b allowed x : Bool) (xs : List Issue) (m : Issue)
          → is_empty xs ≡ x
          → is_empty (if not b then [] else if not allowed then m ∷ [] else xs)
            ≡ (not b || (allowed && x))
      branches false allowed x xs m h = refl
      branches true true x xs m h = h
      branches true false x xs m h = refl

  all_empty :
      (rest : List Step)
      → is_empty (issues_of trigger_type channels steps rest)
        ≡ all (is_deliverable trigger_type channels steps) rest
  unfolding issues_of is_empty
  all_empty [] = refl
  all_empty (s ∷ rest) =
      empty-append (step_issues trigger_type channels steps s) _
      ∙ ap (λ b. b && is_empty (issues_of trigger_type channels steps rest)) (issues_empty s)
      ∙ ap (λ b. is_deliverable trigger_type channels steps s && b) (all_empty rest)

  -- A workflow may be published exactly where the message of every step can be delivered: the
  -- trigger allows its strategy, it has content, and over a channel of its own the channel is
  -- connected, takes this kind of message, and may either start a conversation with it or has a
  -- window that the nearest reply above the step opened and the waits in between have not closed.
  pub assert_delivery-is_deliverable :
      not (is_some (assert_delivery trigger_type channels steps))
      ≡ all (is_deliverable trigger_type channels steps) steps
  unfolding assert_delivery validate_delivery is_empty
  assert_delivery-is_deliverable =
      no_exception (issues_of trigger_type channels steps steps) ∙ all_empty steps
