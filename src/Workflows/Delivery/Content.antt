-- ===== src/Workflows/Delivery/Content.antt =====
-- A step has no issue where its message can be delivered (`validateMessageContent` and the rules of
-- channels of src/modules/workflows/workflow-delivery-rulebook.ts).
use desk_be.Common.{
  String, List, [], ◌∷◌, ◌++◌, Bool, true, false, ltb, ◌≡◌, refl, ◌∙◌, ap, not, ◌&&◌, ◌||◌,
  if◌then◌else◌, arith,
}
use desk_be.Workflows.Config.{
  Step, StepType, unknown, send_message, ask_question, assign_to, update_contact_tag,
  update_contact_field, branch, wait, http_request, jump_to, open_conversation, close_conversation,
  add_comment, date_time, trigger_another_workflow, branch_connector,
}
use desk_be.Workflows.Delivery.{ChannelFacts, Capability, capability_of, message_mode}
use desk_be.Workflows.Delivery.Windows.{is_template}
use desk_be.Workflows.Delivery.Publish.{
  Issue, issue_if, is_blank, message_content, question_content, supports, send_rules, is_written,
  ask_rules, content, channel_rules, is_disconnected, channel_step,
}
use desk_be.Workflows.Delivery.Deliverable.{has_content, takes, carries}

unfoldable pub is_empty : List Issue → Bool
is_empty [] = true
is_empty (i ∷ is) = false

pub empty-append : (xs ys : List Issue) → is_empty (xs ++ ys) ≡ (is_empty xs && is_empty ys)
unfolding is_empty
empty-append [] ys = refl
empty-append (x ∷ xs) ys = refl

pub empty-issue_if : (b : Bool) (id message : String) → is_empty (issue_if b id message) ≡ not b
unfolding is_empty
empty-issue_if true id message = refl
empty-issue_if false id message = refl

send_content :
    (s : Step)
    → is_empty (message_content s) ≡ (
        (not (is_blank s.step_data.message.text)
          || ltb 0 s.step_data.message.attachments
          || is_template s.step_data)
        && (not s.step_data.template_button_branching || is_template s.step_data))
unfolding message_content
send_content s =
    let d = s.step_data in
    let a = is_blank d.message.text && not (ltb 0 d.message.attachments) && not (is_template d) in
    let b = d.template_button_branching && not (is_template d) in
    empty-append (issue_if a s.id "Add message content.") _
    ∙ bools (is_blank d.message.text) (ltb 0 d.message.attachments) (is_template d)
        d.template_button_branching _ _ (empty-issue_if a s.id "Add message content.")
        (empty-issue_if b s.id "Quick reply branching needs an approved template.")
  where
    bools :
        (blank attached template branching x y : Bool)
        → x ≡ not (blank && not attached && not template)
        → y ≡ not (branching && not template)
        → (x && y) ≡ ((not blank || attached || template) && (not branching || template))
    bools blank attached template branching x y h k = ground arith

rules_empty :
    (s : Step) (c : Capability) (is_open : Bool)
    → is_empty (send_rules s c is_open) ≡ (
        supports c.supported_modes (message_mode s.step_data)
        && (is_open
            || ((not c.requires_template || is_template s.step_data)
                && c.can_start_outbound
                && not c.needs_existing_chat)))
unfolding send_rules is_empty
rules_empty s c is_open = ground arith

-- the two kinds of steps that send
pub kind_cong :
    (k : StepType) (a b : List Issue) (x y : Bool)
    → is_empty a ≡ x
    → is_empty b ≡ y
    → is_empty (elim k [ send_message ↦ a | _ ↦ b ]) ≡ elim k [ send_message ↦ x | _ ↦ y ]
kind_cong send_message a b x y h g = h
kind_cong ask_question a b x y h g = g
kind_cong assign_to a b x y h g = g
kind_cong update_contact_tag a b x y h g = g
kind_cong update_contact_field a b x y h g = g
kind_cong branch a b x y h g = g
kind_cong wait a b x y h g = g
kind_cong http_request a b x y h g = g
kind_cong jump_to a b x y h g = g
kind_cong open_conversation a b x y h g = g
kind_cong close_conversation a b x y h g = g
kind_cong add_comment a b x y h g = g
kind_cong date_time a b x y h g = g
kind_cong trigger_another_workflow a b x y h g = g
kind_cong branch_connector a b x y h g = g
kind_cong (unknown t) a b x y h g = g

pub content_empty : (s : Step) → is_empty (content s) ≡ has_content s
unfolding content has_content question_content
content_empty s =
    kind_cong s.kind (message_content s) (question_content s) _ _ (send_content s)
      (empty-issue_if (is_blank s.step_data.message.question_text) s.id "Add question text.")

ask_empty :
    (s : Step) (c : Capability) (is_open : Bool)
    → is_empty (ask_rules s c is_open) ≡ (is_open || is_written c.composer)
unfolding ask_rules
ask_empty s c is_open =
    empty-issue_if (not is_open && not (is_written c.composer)) s.id _ ∙ ground arith

channel_empty :
    (s : Step) (c : Capability) (is_open : Bool)
    → is_empty (channel_rules s c is_open) ≡ takes s c is_open
unfolding channel_rules takes
channel_empty s c is_open =
    kind_cong s.kind (send_rules s c is_open) (ask_rules s c is_open) _ _ (rules_empty s c is_open)
      (ask_empty s c is_open)

pub step_empty :
    (s : Step) (c : ChannelFacts) (is_open : Bool)
    → is_empty (channel_step s c is_open) ≡ carries s c is_open
unfolding channel_step carries is_empty
step_empty s c is_open =
    let a = content_empty s in
    let b = channel_empty s (capability_of c.kind) is_open in
    let both = empty-append (content s) (channel_rules s (capability_of c.kind) is_open) in
    branches (is_disconnected c) (capability_of c.kind).can_send_message (has_content s)
      (takes s (capability_of c.kind) is_open) _ _ _
      (both
        ∙ ap (λ x. x && is_empty (channel_rules s (capability_of c.kind) is_open)) a
        ∙ ap (λ x. has_content s && x) b)
  where
    branches :
        (off can x y : Bool) (xs : List Issue) (m n : Issue)
        → is_empty xs ≡ (x && y)
        → is_empty (if off then m ∷ [] else if not can then n ∷ [] else xs)
          ≡ (not off && can && x && y)
    branches true can x y xs m n h = refl
    branches false true x y xs m n h = h
    branches false false x y xs m n h = refl
