-- ===== src/Workflows/Safety/Jobs.antt =====
-- The jobs of the worker keep the invariant and the runs that ended (`startRun`, `executeStep`,
-- `resumeRun`, `handleAskQuestionTimeout` of src/modules/workflows/workflow-engine.service.ts).
use mathlib.Core.Path.{subst}
use desk_be.Common.{
  String, List, Bool, true, false, Option, none, some, ◌≡◌, refl, sym, ◌∙◌, find, not, present,
  str_eq, opt_eq, Option-cases, inl, inr, if◌then◌else◌, ◌&&◌,
}
use desk_be.Workflows.Values.{Fields, value_of}
use desk_be.Workflows.Config.{Step, find_ask_question_connector, find_next_step}
use desk_be.Workflows.World.{
  running, Run, Context, World, find_run, find_workflow, update_run, set_status, save_context,
  load_context, add_job, enqueue_step,
}
use desk_be.Workflows.Runs.{is_live, is_waiting}
use desk_be.Workflows.Handlers.Steering.{forget_answer}
use desk_be.Workflows.Handlers.{Outside}
use desk_be.Workflows.Engine.{execute}
use desk_be.Workflows.Safety.Invariant.{
  IsRunning, Keeps, Keeps-refl, Keeps-trans, Keeps-given, Keeps-if,
}
use desk_be.Workflows.Safety.Changes.{IsRunning-update, Keeps-update, Keeps-frame}
use desk_be.Workflows.Safety.Keys.{IsRunning-saved, Keeps-save_context}
use desk_be.Workflows.Safety.Ending.{Keeps-complete_run}
use desk_be.Workflows.Answers.{has_processed}
use desk_be.Workflows.Resume.{
  is_timed, timed_out, time_out, resume_message, resume_step, resumed_context, go_on, wake, is_set,
  resume_run, handle_ask_question_timeout,
}
use desk_be.Workflows.Safety.Steps.{running-GoesOn, Keeps-go_to, runs_on}
use desk_be.Workflows.Safety.Performing.{Keeps-perform}

-- a run that has a context goes on, with the context's ids
abbrev Context-Keeps : World → String → (Context → World) → Type 0
Context-Keeps w run_id f =
    (c : Context)
    → c.run_id ≡ run_id
    → IsRunning w run_id c.workspace_id c.contact_id
    → Keeps w (f c)

with_context :
    (w : World) (run_id : String) (f : Context → World)
    → Context-Keeps w run_id f
    → Keeps w (elim (load_context run_id w) [ none ↦ w | some c ↦ f c ])
with_context w run_id f k = elim (Option-cases (load_context run_id w)) [
  | inl h ↦ rw (h) (Keeps-refl w)
  | inr (c, h) ↦ rw (h) (Keeps-given (λ s. let o = s.contexts run_id c h in k c o.own o.runs))
]

pub Keeps-option :
    {A : Type 0} (o : Option A) (w : World) (f : A → World)
    → ((a : A) → Keeps w (f a))
    → Keeps w (elim o [ none ↦ w | some a ↦ f a ])
Keeps-option none w f k = Keeps-refl w
Keeps-option (some a) w f k = k a

pub Keeps-not : (b : Bool) (w v : World) → Keeps w v → Keeps w (if not b then w else v)
Keeps-not true w v k = k
Keeps-not false w v k = Keeps-refl w

-- `executeStep` keeps the invariant.
pub Keeps-execute :
    (x : Outside) (run_id step_id : String) (w : World) → Keeps w (execute x run_id step_id w)
unfolding execute
Keeps-execute x run_id step_id w = Keeps-option (find_run run_id w) w _ (λ r.
    Keeps-not (is_live r.status) w _ (
      with_context w run_id _ (λ c own k. Keeps-option (find_workflow r.workflow_id w) w _ (λ f.
        elim (Option-cases (find (λ s. str_eq s.id step_id) f.steps)) [
          | inl h ↦ rw (h) (Keeps-complete_run run_id c w k own)
          | inr (step, h) ↦ rw (h) (Keeps-perform run_id c own x step f.steps w k)
        ]))))

Keeps-go_on : (step : Option String) (run_id : String) (w : World) → Keeps w (go_on step run_id w)
unfolding go_on enqueue_step add_job
Keeps-go_on none run_id w = Keeps-refl w
Keeps-go_on (some step) run_id w = Keeps-frame w _ refl refl refl

-- The context is saved and the run goes on.
woken :
    (run_id : String) (c d : Context) (w : World)
    → c.run_id ≡ run_id
    → d.run_id ≡ c.run_id
    → d.workspace_id ≡ c.workspace_id
    → d.contact_id ≡ c.contact_id
    → IsRunning w run_id c.workspace_id c.contact_id
    → Keeps w (update_run run_id (set_status running) (save_context d w))
      × IsRunning
          (update_run run_id (set_status running) (save_context d w))
          run_id
          d.workspace_id
          d.contact_id
woken run_id c d w own hr hw hc k =
    let kd =
      subst (λ x. IsRunning w run_id x d.contact_id) (sym hw)
        (subst (IsRunning w run_id c.workspace_id) (sym hc) k) in
    let ks = IsRunning-saved w d run_id d.workspace_id d.contact_id kd in
    (
      Keeps-trans (Keeps-save_context w d (runs_on run_id d (hr ∙ own) w kd)) (
          Keeps-update run_id (set_status running) running-GoesOn (save_context d w) d.workspace_id
            d.contact_id ks),
      IsRunning-update run_id (set_status running) running-GoesOn (save_context d w) run_id
          d.workspace_id d.contact_id ks,
    )

Keeps-wake :
    (r : Run) (run_id : String) (fields : Fields) (c : Context) (w : World)
    → c.run_id ≡ run_id
    → IsRunning w run_id c.workspace_id c.contact_id
    → Keeps w (wake r run_id fields c w)
unfolding wake resumed_context
Keeps-wake r run_id fields c w own k =
    let d = resumed_context c fields in
    let v = woken run_id c d w own refl refl refl k in
    Keeps-trans v.0 (
      Keeps-if (is_set (value_of "completeAfterWait" fields)) _ _ _
        (Keeps-complete_run run_id d _ v.1 own) (Keeps-go_on (resume_step r fields) run_id _))

-- `resumeRun` keeps the invariant.
pub Keeps-resume_run :
    (run_id : String) (fields : Fields) (w : World) → Keeps w (resume_run run_id fields w)
unfolding resume_run
Keeps-resume_run run_id fields w = Keeps-option (find_run run_id w) w _ (λ r.
    Keeps-not (is_waiting r.status) w _ (
      with_context w run_id _ (λ c own k.
        Keeps-if (has_processed c (resume_message fields)) w _ _ (Keeps-refl w)
          (Keeps-wake r run_id fields c w own k))))

Keeps-time_out :
    (step : Step) (steps : List Step) (run_id : String) (connector : Step) (c : Context) (w : World)
    → c.run_id ≡ run_id
    → IsRunning w run_id c.workspace_id c.contact_id
    → Keeps w (time_out step steps run_id connector c w)
unfolding time_out timed_out forget_answer
Keeps-time_out step steps run_id connector c w own k =
    let v = woken run_id c (timed_out step.id c) w own refl refl refl k in
    Keeps-trans v.0 (
      Keeps-go_to run_id (timed_out step.id c) own
        (present (find_next_step step.id steps (some connector.id))) _ v.1)

-- `handleAskQuestionTimeout` keeps the invariant.
pub Keeps-timeout :
    (run_id step_id : String) (w : World) → Keeps w (handle_ask_question_timeout run_id step_id w)
unfolding handle_ask_question_timeout
Keeps-timeout run_id step_id w = Keeps-option (find_run run_id w) w _ (λ r.
    Keeps-not (is_waiting r.status && opt_eq r.current_step_id step_id) w _ (
      with_context w run_id _ (λ c own k. Keeps-option (find_workflow r.workflow_id w) w _ (λ f.
        Keeps-option (find (is_timed step_id) f.steps) w _ (λ step.
          Keeps-not step.step_data.add_timeout_branch w _ (
            Keeps-option (find_ask_question_connector step f.steps "Timeout") w _
              (λ connector. Keeps-time_out step f.steps run_id connector c w own k)))))))
