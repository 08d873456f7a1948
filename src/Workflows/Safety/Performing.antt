-- ===== src/Workflows/Safety/Performing.antt =====
-- The execution of a step keeps the invariant (`executeStep` of
-- src/modules/workflows/workflow-engine.service.ts).
use mathlib.Core.Path.{subst}
use desk_be.Common.{ℕ, String, List, some, ◌≡◌, refl, sym, ◌∙◌, length}
use desk_be.Workflows.Values.{put}
use desk_be.Workflows.Config.{Step}
use desk_be.Workflows.World.{
  completed, Run, Context, World, update_run, save_context, create_run_step, update_run_step,
}
use desk_be.Workflows.Router.{run_step_handler}
use desk_be.Workflows.Handlers.{Reply, replied, threw, Outside, Handled}
use desk_be.Workflows.Engine.{completed_step, settle, new_run_step, perform}
use desk_be.Workflows.Safety.Invariant.{IsRunning, Keeps, Keeps-trans}
use desk_be.Workflows.Safety.Changes.{
  GoesOn, IsRunning-frame, IsRunning-update, Keeps-update, Keeps-frame,
}
use desk_be.Workflows.Safety.Keys.{IsRunning-saved, Keeps-save_context}
use desk_be.Workflows.Safety.Handling.{IsHandled}
use desk_be.Workflows.Safety.Router.{handle_kind-IsHandled}
use desk_be.Workflows.Safety.Steps.{runs_on, Keeps-advance, Keeps-handle_step_error}

-- a step's own id as the run's current one
abbrev pub at_step : String → Run → Run
at_step id r = record r { current_step_id = some id }

pub at_step-GoesOn : (id : String) → GoesOn (at_step id)
at_step-GoesOn id = record {
  id = λ r. refl;
  workspace = λ r. refl;
  contact = λ r. refl;
  live = λ r h. h;
}

module _ (run_id : String) (c : Context) (own : c.run_id ≡ run_id) where
  pub handled-IsRunning :
      (w : World) (h : Handled)
      → IsHandled c w h
      → IsRunning w run_id c.workspace_id c.contact_id
      → IsRunning h.world run_id h.context.workspace_id h.context.contact_id
  handled-IsRunning w h i k =
      subst (λ x. IsRunning h.world run_id x h.context.contact_id) (sym i.workspace)
        (subst (IsRunning h.world run_id c.workspace_id) (sym i.contact)
          (IsRunning-frame w h.world run_id c.workspace_id c.contact_id i.rows k))

  settled :
      (position : ℕ) (step : Step) (steps : List Step) (w : World) (reply : Reply) (d : Context)
      (v : World)
      → IsHandled c w (record { reply = reply; context = d; world = v })
      → IsRunning w run_id c.workspace_id c.contact_id
      → Keeps v
          (settle position run_id step steps (record { reply = reply; context = d; world = v }))
  unfolding settle update_run_step save_context
  settled position step steps w (threw e) d v i k =
      Keeps-handle_step_error run_id d (i.run_id ∙ own) position step steps e v
        (handled-IsRunning w _ i k)
  settled position step steps w (replied r) d v i k =
      let here = handled-IsRunning w _ i k in
      let after = record d {
        steps = put step.id (record { output = r.output; status = completed }) d.steps;
      } in
      let updated = update_run_step position (completed_step v.now r.output) v in
      let running = IsRunning-frame v updated run_id d.workspace_id d.contact_id refl here in
      Keeps-trans (Keeps-frame v updated refl refl refl) (
        Keeps-trans
          (Keeps-save_context updated after (runs_on run_id after (i.run_id ∙ own) updated running))
          (Keeps-advance run_id after (i.run_id ∙ own) step steps r (save_context after updated)
            (IsRunning-saved updated after run_id d.workspace_id d.contact_id running)))

  -- A step keeps the invariant.
  pub Keeps-perform :
      (x : Outside) (step : Step) (steps : List Step) (w : World)
      → IsRunning w run_id c.workspace_id c.contact_id
      → Keeps w (perform x run_id step steps c w)
  unfolding perform create_run_step run_step_handler
  Keeps-perform x step steps w k =
      let noted = create_run_step (new_run_step run_id step w.now) w in
      let kn = IsRunning-frame w noted run_id c.workspace_id c.contact_id refl k in
      let at = update_run run_id (at_step step.id) noted in
      let ka =
        IsRunning-update run_id (at_step step.id) (at_step-GoesOn step.id) noted run_id
          c.workspace_id c.contact_id kn in
      let i = handle_kind-IsHandled x step.kind step c steps at (runs_on run_id c own at ka) in
      Keeps-trans (Keeps-frame w noted refl refl refl) (
        Keeps-trans
          (Keeps-update run_id (at_step step.id) (at_step-GoesOn step.id) noted c.workspace_id
            c.contact_id kn)
          (Keeps-trans i.keeps (settled (length w.run_steps) step steps at _ _ _ i ka)))
