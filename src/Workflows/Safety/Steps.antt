-- ===== src/Workflows/Safety/Steps.antt =====
-- What follows a step keeps the invariant and the runs that ended (`executeStep` and
-- `handleStepError` of src/modules/workflows/workflow-engine.service.ts).
use mathlib.Core.Path.{subst}
use desk_be.Common.{ℕ, String, List, Option, none, some, ◌≡◌, refl, sym, Option-cases, inl, inr}
use desk_be.Workflows.Config.{Step}
use desk_be.Workflows.World.{
  running, waiting, Context, World, update_run, set_status, add_job, enqueue_step, update_run_step,
}
use desk_be.Workflows.Runs.{is_live}
use desk_be.Workflows.Handlers.{Result}
use desk_be.Workflows.Engine.{
  error_connector, handle_step_error, awaits_reply, suspend_run, next_of, go_to, advance,
}
use desk_be.Workflows.Safety.Invariant.{IsRunning, Keeps, Keeps-refl, Keeps-trans, Keeps-if}
use desk_be.Workflows.Safety.Changes.{
  GoesOn, IsRunning-frame, IsRunning-update, Keeps-update, Keeps-frame,
}
use desk_be.Workflows.Safety.Keys.{Keeps-mark_active_run}
use desk_be.Workflows.Safety.Ending.{Keeps-complete_run, Keeps-fail_run}
use desk_be.Workflows.Safety.Handling.{RunsOn}

pub waiting-GoesOn : GoesOn (set_status waiting)
unfolding is_live
waiting-GoesOn = record {
  id = λ r. refl;
  workspace = λ r. refl;
  contact = λ r. refl;
  live = λ r h. refl;
}

pub running-GoesOn : GoesOn (set_status running)
unfolding is_live
running-GoesOn = record {
  id = λ r. refl;
  workspace = λ r. refl;
  contact = λ r. refl;
  live = λ r h. refl;
}

-- the ways on from a step
module _ (run_id : String) (c : Context) (own : c.run_id ≡ run_id) where
  pub Keeps-go_to :
      (next : Option String) (w : World)
      → IsRunning w run_id c.workspace_id c.contact_id
      → Keeps w (go_to next run_id c w)
  unfolding go_to enqueue_step add_job
  Keeps-go_to none w k = Keeps-complete_run run_id c w k own
  Keeps-go_to (some next) w k = Keeps-frame w _ refl refl refl

  pub runs_on : (w : World) → IsRunning w run_id c.workspace_id c.contact_id → RunsOn w c
  runs_on w k = subst (λ x. IsRunning w x c.workspace_id c.contact_id) (sym own) k

  pub Keeps-suspend_run :
      (step : Step) (r : Result) (w : World)
      → IsRunning w run_id c.workspace_id c.contact_id
      → Keeps w (suspend_run run_id step r c w)
  unfolding suspend_run
  Keeps-suspend_run step r w k =
      let v = update_run run_id (set_status waiting) w in
      let kept =
        Keeps-update run_id (set_status waiting) waiting-GoesOn w c.workspace_id c.contact_id k in
      Keeps-trans kept (
        Keeps-if (awaits_reply step r) v _ v
          (Keeps-mark_active_run v c (
            runs_on v (
              IsRunning-update run_id (set_status waiting) waiting-GoesOn w run_id c.workspace_id
                c.contact_id k)))
          (Keeps-refl v))

  pub Keeps-advance :
      (step : Step) (steps : List Step) (r : Result) (w : World)
      → IsRunning w run_id c.workspace_id c.contact_id
      → Keeps w (advance run_id step steps r c w)
  unfolding advance
  Keeps-advance step steps r w k =
      Keeps-if r.suspend w _ _ (Keeps-suspend_run step r w k)
        (Keeps-go_to (next_of step steps r) w k)

  pub Keeps-handle_step_error :
      (position : ℕ) (step : Step) (steps : List Step) (e : String) (w : World)
      → IsRunning w run_id c.workspace_id c.contact_id
      → Keeps w (handle_step_error position run_id step c steps e w)
  unfolding handle_step_error update_run_step enqueue_step add_job
  Keeps-handle_step_error position step steps e w k =
      elim (Option-cases (error_connector step steps)) [
        | inl h ↦
            rw (handle_step_error, h)
              (Keeps-trans (Keeps-frame w _ refl refl refl) (
                Keeps-fail_run run_id c e _
                  (IsRunning-frame w _ run_id c.workspace_id c.contact_id refl k)))
        | inr (connector, h) ↦ rw (handle_step_error, h) (Keeps-frame w _ refl refl refl)
      ]
