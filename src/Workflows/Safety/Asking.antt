-- ===== src/Workflows/Safety/Asking.antt =====
-- A question leaves the rows of the runs and keeps the invariant (`handleAskQuestion` of
-- src/modules/workflows/workflow-engine.service.ts).
use desk_be.Common.{
  String, List, Option, none, some, ◌≡◌, refl, Option-cases, inl, inr, if◌then◌else◌, arith,
}
use desk_be.Workflows.Config.{Step}
use desk_be.Workflows.World.{Context, World, add_job}
use desk_be.Workflows.Handlers.{Reply, Outside, replied, threw, effect_context, effect_world}
use desk_be.Workflows.Handlers.Asking.{
  schedule_timeout, answered, refuse_answer, noted, contact_error, accept_answer, ask, asked,
  set_contact, not_sent, failure_reason, message_failure, is_missing, answer_text,
  handle_ask_question,
}
use desk_be.Workflows.Values.{Value, value_of, filled}
use desk_be.Workflows.Answers.{mark_processed}
use desk_be.Workflows.Questions.{normalise_question_answer, validate_answer}
use desk_be.Workflows.Safety.Handling.{
  RunsOn, IsHandled, framed, if-IsHandled, effect-IsHandled, saved-IsHandled, then_framed,
}

scheduled_frame :
    (x : Outside) (step : Step) (c : Context) (w : World)
    → let v = schedule_timeout x step c w in
      (v.runs ≡ w.runs) × (v.contexts ≡ w.contexts) × (v.active ≡ w.active)
unfolding schedule_timeout add_job
scheduled_frame x step c w = ground arith

sent_reply :
    (x : Outside) (step : Step) (c : Context) (steps : List Step) (w : World) (reply : Reply)
    → RunsOn w c
    → let e = x.send w c step steps in
      IsHandled c w (elim reply [
        | threw m ↦ record {
          reply = message_failure step steps m;
          context = effect_context e c;
          world = effect_world e c w;
        }
        | replied r ↦
            if not_sent r.output
            then record {
              reply = message_failure step steps (failure_reason x.numbers r.output);
              context = effect_context e c;
              world = effect_world e c w;
            }
            else record {
              reply = replied (asked step);
              context = effect_context e c;
              world = schedule_timeout x step (effect_context e c) (effect_world e c w);
            }
      ])
sent_reply x step c steps w (threw m) k = effect-IsHandled (x.send w c step steps) _ c w k
sent_reply x step c steps w (replied r) k =
    let e = x.send w c step steps in
    let i = effect-IsHandled e (replied r) c w k in
    if-IsHandled (not_sent r.output) c w _ _ (effect-IsHandled e _ c w k) (
      then_framed c w _ (replied (asked step))
        (schedule_timeout x step (effect_context e c) (effect_world e c w)) i
        (scheduled_frame x step (effect_context e c) (effect_world e c w)))

marked_ids :
    (c : Context) (m : Value)
    → ((mark_processed c m).run_id ≡ c.run_id)
      × ((mark_processed c m).workspace_id ≡ c.workspace_id)
      × ((mark_processed c m).contact_id ≡ c.contact_id)
unfolding mark_processed
marked_ids c m = elim (Option-cases (filled m)) [
  | inl h ↦ rw (mark_processed, h) (refl, refl, refl)
  | inr (id, h) ↦ rw (mark_processed, h) (refl, refl, refl)
]

refused-IsHandled :
    (step : Step) (c : Context) (steps : List Step) (answer reason : String) (w : World)
    → RunsOn w c
    → IsHandled c w (refuse_answer step c steps answer reason w)
unfolding refuse_answer answered
refused-IsHandled step c steps answer reason w k =
    let e = marked_ids c (value_of "lastAnswerMessageId" c.vars) in
    saved-IsHandled _ c (answered c) w e.0 e.1 e.2 k

accepted-IsHandled :
    (x : Outside) (step : Step) (c : Context) (steps : List Step) (answer : String) (w : World)
    → RunsOn w c
    → IsHandled c w (accept_answer x step c steps answer w)
unfolding accept_answer answered noted
accepted-IsHandled x step c steps answer w k =
    elim (Option-cases (contact_error x step c answer w)) [
      | inr (e, h) ↦
          rw (accept_answer, h) (framed c (noted step answer c) w w _ refl refl refl refl refl refl)
      | inl h ↦
          rw (accept_answer, h)
            (let named = noted step answer c in
              let d : Context = record named {
                contact = set_contact step.step_data.question answer named.contact;
              } in
              let e = marked_ids d (value_of "lastAnswerMessageId" d.vars) in
              saved-IsHandled _ c (answered d) w e.0 e.1 e.2 k)
    ]

answer-IsHandled :
    (x : Outside) (step : Step) (c : Context) (steps : List Step) (answer : String)
    (reason : Option String) (w : World)
    → RunsOn w c
    → IsHandled c w (elim reason [
      | some r ↦ refuse_answer step c steps answer r w
      | none ↦ accept_answer x step c steps answer w
    ])
answer-IsHandled x step c steps answer (some r) w k = refused-IsHandled step c steps answer r w k
answer-IsHandled x step c steps answer none w k = accepted-IsHandled x step c steps answer w k

-- A question leaves the rows of the runs and keeps the invariant.
pub ask_question-IsHandled :
    (x : Outside) (step : Step) (c : Context) (steps : List Step) (w : World)
    → RunsOn w c
    → IsHandled c w (handle_ask_question x step c steps w)
unfolding handle_ask_question ask
ask_question-IsHandled x step c steps w k =
    let raw = value_of "lastAnswer" c.vars in
    let answer =
      normalise_question_answer x.numbers (answer_text x.numbers raw) step.step_data.question in
    if-IsHandled (is_missing raw) c w _ _
      (sent_reply x step c steps w (x.send w c step steps).reply k)
      (answer-IsHandled x step c steps answer
        (validate_answer x.numbers x.well_formed answer step.step_data.question) w k)
