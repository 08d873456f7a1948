-- ===== src/Workflows/Sending/Content.antt =====
-- What the check before publication asks of a message is enough for `handleSendMessage` of
-- src/modules/workflows/workflow-engine.service.ts to have something to send.
use desk_be.Common.{
  String, Bool, true, false, Option, none, some, str_eq, truthy, trim, ltb, not, ◌&&◌, ◌||◌, ◌⊎◌,
  inl, inr, ◌≡◌, refl, sym, ap, ◌∙◌, Bool-cases, eq_iff, if◌then◌else◌, arith,
}
use desk_be.Workflows.Config.{Step, StepType, send_message, ask_question}
use desk_be.Workflows.Delivery.{template, media, text, message_mode}
use desk_be.Workflows.Delivery.Windows.{is_template}
use desk_be.Workflows.Delivery.Publish.{is_blank, sends}
use desk_be.Workflows.Delivery.Deliverable.{has_content}
use desk_be.Workflows.Sending.Messages.{has_template, has_no_content, as_message, question_step}

pub sends-cases : (s : Step) → sends s ≡ true → (s.kind ≡ send_message) ⊎ (s.kind ≡ ask_question)
unfolding sends
sends-cases s h = by_kind s.kind h
  where
    by_kind :
        (k : StepType)
        → elim k [ send_message ↦ true | ask_question ↦ true | _ ↦ false ] ≡ true
        → (k ≡ send_message) ⊎ (k ≡ ask_question)
    by_kind send_message h = inl refl
    by_kind ask_question h = inr refl
    by_kind k h = ground (arith, h)

pub as_message-send : (s : Step) → s.kind ≡ send_message → as_message s ≡ s
unfolding as_message
as_message-send s k = ap (λ t. elim t [ ask_question ↦ question_step s | _ ↦ s ]) k

pub as_message-ask : (s : Step) → s.kind ≡ ask_question → as_message s ≡ question_step s
unfolding as_message
as_message-ask s k = ap (λ t. elim t [ ask_question ↦ question_step s | _ ↦ s ]) k

-- a text that is not blank is not empty
written : (o : Option String) → is_blank o ≡ false → truthy o ≡ true
unfolding is_blank trim
written none h = ground (arith, h)
written (some s) h = elim (Bool-cases (str_eq s "")) [
  | inl e ↦ ground (arith, h, ap (λ t. str_eq (trim t) "") ((eq_iff s "").0 e))
  | inr e ↦ rw (e) refl
]

template_same : (s : Step) → is_template s.step_data ≡ has_template s.step_data.message
unfolding is_template message_mode has_template
template_same s =
    by_tests (has_template s.step_data.message) (ltb 0 s.step_data.message.attachments)
  where
    by_tests :
        (b m : Bool)
        → elim (if b then template else if m then media else text) [ template ↦ true | _ ↦ false ]
          ≡ b
    by_tests true m = refl
    by_tests false true = refl
    by_tests false false = refl

send_content :
    (s : Step)
    → s.kind ≡ send_message
    → has_content s ≡ true
    → has_no_content s.step_data.message ≡ false
unfolding has_no_content has_content
send_content s k c =
    let h =
      sym (
        ap
          (λ t. elim t [
            | send_message ↦
                (not (is_blank s.step_data.message.text)
                  || ltb 0 s.step_data.message.attachments
                  || is_template s.step_data)
                && (not s.step_data.template_button_branching || is_template s.step_data)
            | _ ↦ not (is_blank s.step_data.message.question_text)
          ])
          k)
      ∙ c in
    ground (arith, h, template_same s, written s.step_data.message.text)

ask_content :
    (s : Step)
    → s.kind ≡ ask_question
    → has_content s ≡ true
    → has_no_content (question_step s).step_data.message ≡ false
unfolding has_no_content question_step has_content
ask_content s k c =
    let h =
      sym (
        ap
          (λ t. elim t [
            | send_message ↦
                (not (is_blank s.step_data.message.text)
                  || ltb 0 s.step_data.message.attachments
                  || is_template s.step_data)
                && (not s.step_data.template_button_branching || is_template s.step_data)
            | _ ↦ not (is_blank s.step_data.message.question_text)
          ])
          k)
      ∙ c in
    ground (arith, h, written s.step_data.message.question_text)

-- what the check asks of the content is enough for the engine
pub content_enough :
    (s : Step)
    → sends s ≡ true
    → has_content s ≡ true
    → has_no_content (as_message s).step_data.message ≡ false
content_enough s h c = elim (sends-cases s h) [
  | inl k ↦ ap (λ t. has_no_content t.step_data.message) (as_message-send s k) ∙ send_content s k c
  | inr k ↦ ap (λ t. has_no_content t.step_data.message) (as_message-ask s k) ∙ ask_content s k c
]
