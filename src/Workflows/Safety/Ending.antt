-- ===== src/Workflows/Safety/Ending.antt =====
-- The end of a run keeps the invariant: its context and its contact's key are gone (`completeRun`,
-- `failRun`, `cleanupRun` and `resumeParentWorkflowAfterChild` of
-- src/modules/workflows/workflow-engine.service.ts).
use mathlib.Core.Path.{subst}
use desk_be.Common.{
  ℕ, zero, suc, String, Option, none, some, find, str_eq, ◌≡◌, refl, sym, ◌∙◌, ap, Option-cases,
  inl, inr, length,
}
use desk_be.Workflows.Values.{filled, value_of}
use desk_be.Workflows.World.{
  Run, Context, World, find_run, update_run, save_context, load_context, add_job,
}
use desk_be.Workflows.Runs.{
  end_as_completed, record_activity, cleanup_run, parent_waits, parent_left, complete_parent,
  go_on_parent, completed_now, failed_now, resume_parent, complete_within, complete_run, fail_run,
}
use desk_be.Workflows.Tables.{find-map_update}
use desk_be.Workflows.Safety.Invariant.{
  IsRunning, Keeps, Keeps-refl, Keeps-trans, Keeps-given, Keeps-if,
}
use desk_be.Workflows.Safety.Cleanup.{IsEnding, Keeps-cleanup}
use desk_be.Workflows.Safety.Changes.{Keeps-frame}
use desk_be.Workflows.Safety.Keys.{Keeps-save_context, IsRunning-saved}

-- the timeline is no table of the runs
activity_frame :
    (c : Context) (event_type : String) (e : Option String) (w : World)
    → ((record_activity c event_type e w).runs ≡ w.runs)
      × ((record_activity c event_type e w).contexts ≡ w.contexts)
      × ((record_activity c event_type e w).active ≡ w.active)
unfolding record_activity
activity_frame c event_type e w = elim (Option-cases c.conversation_id) [
  | inl h ↦ rw (h) (refl, refl, refl)
  | inr (x, h) ↦ rw (h) (refl, refl, refl)
]

pub Keeps-activity :
    (c : Context) (event_type : String) (e : Option String) (w : World)
    → Keeps w (record_activity c event_type e w)
Keeps-activity c event_type e w =
    let f = activity_frame c event_type e w in Keeps-frame w _ f.0 f.1 f.2

-- The update of the status, the activity and the cleanup.
pub ending :
    (id event_type : String) (c : Context) (e : Option String) (f : Run → Run) (w : World)
    → ((r : Run) → (f r).id ≡ r.id)
    → IsEnding id f w (record_activity c event_type e (update_run id f w))
unfolding update_run
ending id event_type c e f w h =
    let a = activity_frame c event_type e (update_run id f w) in
    record {
      rows = λ j. ap (find (λ r. str_eq r.id j)) a.0 ∙ find-map_update id j f w.runs h;
      contexts = a.1;
      active = a.2;
    }

-- What completes a run keeps the invariant.
abbrev KeepsOf : (String → Context → World → World) → Type 0
KeepsOf complete =
    (id : String) (c : Context) (w : World)
    → IsRunning w id c.workspace_id c.contact_id
    → c.run_id ≡ id
    → Keeps w (complete id c w)

Keeps-complete_parent :
    (complete : String → Context → World → World) (c : Context) (status : String)
    (e : Option String) (parent : String) (w : World)
    → KeepsOf complete
    → Keeps w (complete_parent complete c status e parent w)
unfolding complete_parent parent_left
Keeps-complete_parent complete c status e parent w k = elim (Option-cases (load_context parent w)) [
  | inl h ↦ rw (complete_parent, h) (Keeps-refl w)
  | inr (p, h) ↦
      rw (complete_parent, h)
        (Keeps-given (λ s.
          let o = s.contexts parent p h in
          Keeps-trans
            (Keeps-save_context w (parent_left p c status e)
              (subst (λ x. IsRunning w x p.workspace_id p.contact_id) (sym o.own) o.runs))
            (k parent (parent_left p c status e) (save_context (parent_left p c status e) w)
              (IsRunning-saved w (parent_left p c status e) parent p.workspace_id p.contact_id
                o.runs)
              o.own)))
]

Keeps-go_on_parent :
    (complete : String → Context → World → World) (c : Context) (status : String)
    (e : Option String) (parent : String) (w : World)
    → KeepsOf complete
    → Keeps w (go_on_parent complete c status e parent w)
unfolding go_on_parent add_job
Keeps-go_on_parent complete c status e parent w k =
    elim (Option-cases (filled (value_of "resumeParentStepId" c.trigger))) [
      | inl h ↦ rw (go_on_parent, h) (Keeps-complete_parent complete c status e parent w k)
      | inr (step, h) ↦ rw (go_on_parent, h) (Keeps-frame w _ refl refl refl)
    ]

-- What follows the end of a child keeps the invariant.
pub Keeps-resume_parent :
    (complete : String → Context → World → World) (c : Context) (status : String)
    (e : Option String) (w : World)
    → KeepsOf complete
    → Keeps w (resume_parent complete c status e w)
unfolding resume_parent
Keeps-resume_parent complete c status e w k =
    elim (Option-cases (filled (value_of "triggeredByRunId" c.trigger))) [
      | inl h ↦ rw (resume_parent, h) (Keeps-refl w)
      | inr (parent, h) ↦
          rw (resume_parent, h)
            (Keeps-if (parent_waits (find_run parent w)) w _ w
              (Keeps-go_on_parent complete c status e parent w k) (Keeps-refl w))
    ]

-- The end of a run, by any update that keeps its id.
pub Keeps-end :
    (id event_type : String) (c : Context) (e : Option String) (f : Run → Run) (w : World)
    → ((r : Run) → (f r).id ≡ r.id)
    → IsRunning w id c.workspace_id c.contact_id
    → Keeps w (cleanup_run id c (record_activity c event_type e (update_run id f w)))
Keeps-end id event_type c e f w h k = Keeps-cleanup id f w _ (ending id event_type c e f w h) c k

-- `completeRun` keeps the invariant.
pub Keeps-complete_within : (n : ℕ) → KeepsOf (complete_within n)
unfolding complete_within end_as_completed completed_now
Keeps-complete_within zero id c w k o = Keeps-refl w
Keeps-complete_within (suc n) id c w k o =
    Keeps-trans (Keeps-end id "workflow_ended" c none (completed_now w.now) w (λ r. refl) k)
      (Keeps-resume_parent (complete_within n) c "completed" none _ (Keeps-complete_within n))

pub Keeps-complete_run : KeepsOf complete_run
unfolding complete_run
Keeps-complete_run id c w = Keeps-complete_within (suc (length w.runs)) id c w

-- `failRun` keeps the invariant.
pub Keeps-fail_run :
    (id : String) (c : Context) (e : String) (w : World)
    → IsRunning w id c.workspace_id c.contact_id
    → Keeps w (fail_run id c e w)
unfolding fail_run failed_now
Keeps-fail_run id c e w k =
    Keeps-trans (Keeps-end id "workflow_failed" c (some e) (failed_now w.now e) w (λ r. refl) k)
      (Keeps-resume_parent complete_run c "failed" (some e) _ Keeps-complete_run)
