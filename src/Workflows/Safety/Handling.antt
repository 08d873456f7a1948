-- ===== src/Workflows/Safety/Handling.antt =====
-- The handlers of steps leave the rows of the runs as they are and keep the invariant
-- (`runStepHandler` of src/modules/workflows/workflow-engine.service.ts).
use mathlib.Core.Path.{subst}
use desk_be.Common.{
  List, ◌++◌, Bool, true, false, ◌≡◌, refl, sym, ◌∙◌, sym, ◌∙◌, leb, get_or, present, Option-cases,
  inl, inr, if◌then◌else◌, arith,
}
use desk_be.Workflows.Config.{Step}
use desk_be.Workflows.World.{Context, World, save_context, add_job}
use desk_be.Workflows.Handlers.{Reply, Handled, Effect, effect_context, effect_world}
use desk_be.Workflows.Handlers.Steering.{jump_key, jump_count, forget_answer, handle_jump_to}
use desk_be.Workflows.Handlers.Children.{handle_trigger_another_workflow, start_child}
use desk_be.Workflows.Safety.Invariant.{IsRunning, Keeps, Keeps-refl, Keeps-trans, Keeps-if}
use desk_be.Workflows.Safety.Changes.{IsRunning-frame, Keeps-frame}
use desk_be.Workflows.Safety.Keys.{Keeps-save_context}

abbrev pub RunsOn : World → Context → Type 0
RunsOn w c = IsRunning w c.run_id c.workspace_id c.contact_id

-- A handler leaves the context's run and the rows of the runs, and keeps the invariant.
pub record IsHandled (c : Context) (w : World) (h : Handled) : Type 0 where
  pub run_id : h.context.run_id ≡ c.run_id
  pub workspace : h.context.workspace_id ≡ c.workspace_id
  pub contact : h.context.contact_id ≡ c.contact_id
  pub rows : h.world.runs ≡ w.runs
  pub keeps : Keeps w h.world

-- a handler that leaves the runs, the contexts and the keys
pub framed :
    (c d : Context) (w v : World) (r : Reply)
    → d.run_id ≡ c.run_id
    → d.workspace_id ≡ c.workspace_id
    → d.contact_id ≡ c.contact_id
    → v.runs ≡ w.runs
    → v.contexts ≡ w.contexts
    → v.active ≡ w.active
    → IsHandled c w (record { reply = r; context = d; world = v })
framed c d w v r hr hw hc rows contexts active = record {
  run_id = hr;
  workspace = hw;
  contact = hc;
  rows = rows;
  keeps = Keeps-frame w v rows contexts active;
}

pub if-IsHandled :
    (b : Bool) (c : Context) (w : World) (h k : Handled)
    → IsHandled c w h
    → IsHandled c w k
    → IsHandled c w (if b then h else k)
if-IsHandled true c w h k i j = i
if-IsHandled false c w h k i j = j

-- a handler that is not modelled
pub effect-IsHandled :
    (e : Effect) (reply : Reply) (c : Context) (w : World)
    → RunsOn w c
    → IsHandled c w
        (record { reply = reply; context = effect_context e c; world = effect_world e c w })
unfolding effect_context effect_world save_context
effect-IsHandled e reply c w k =
    let after : World = record w { queue = w.queue ++ e.jobs } in
    record {
      run_id = refl;
      workspace = refl;
      contact = refl;
      rows = saved_rows e.saves after (effect_context e c);
      keeps = Keeps-trans (Keeps-frame w after refl refl refl) (
          Keeps-if e.saves after (save_context (effect_context e c) after) after
            (Keeps-save_context after (effect_context e c)
              (IsRunning-frame w after c.run_id c.workspace_id c.contact_id refl k))
            (Keeps-refl after));
    }
  where
    saved_rows :
        (b : Bool) (v : World) (d : Context) → (if b then save_context d v else v).runs ≡ v.runs
    saved_rows true v d = refl
    saved_rows false v d = refl

-- a handler that saves the context last
pub saved-IsHandled :
    (reply : Reply) (c d : Context) (w : World)
    → d.run_id ≡ c.run_id
    → d.workspace_id ≡ c.workspace_id
    → d.contact_id ≡ c.contact_id
    → RunsOn w c
    → IsHandled c w (record { reply = reply; context = d; world = save_context d w })
unfolding save_context
saved-IsHandled reply c d w hr hw hc k = record {
  run_id = hr;
  workspace = hw;
  contact = hc;
  rows = refl;
  keeps = Keeps-save_context w d (
      subst (λ i. IsRunning w i d.workspace_id d.contact_id) (sym hr)
        (subst (λ i. IsRunning w c.run_id i d.contact_id) (sym hw)
          (subst (IsRunning w c.run_id c.workspace_id) (sym hc) k)));
}

-- a change after a handler that leaves the runs, the contexts and the keys
pub then_framed :
    (c : Context) (w : World) (h : Handled) (reply : Reply) (v : World)
    → IsHandled c w h
    → (v.runs ≡ h.world.runs) × (v.contexts ≡ h.world.contexts) × (v.active ≡ h.world.active)
    → IsHandled c w (record { reply = reply; context = h.context; world = v })
then_framed c w h reply v i f = record {
  run_id = i.run_id;
  workspace = i.workspace;
  contact = i.contact;
  rows = f.0 ∙ i.rows;
  keeps = Keeps-trans i.keeps (Keeps-frame h.world v f.0 f.1 f.2);
}

pub jump-IsHandled :
    (step : Step) (c : Context) (w : World) → IsHandled c w (handle_jump_to step c w)
unfolding handle_jump_to forget_answer
jump-IsHandled step c w = elim (Option-cases (present step.step_data.target_step_id)) [
  | inl h ↦ rw (handle_jump_to, h) (framed c c w w _ refl refl refl refl refl refl)
  | inr (t, h) ↦
      rw (handle_jump_to, h)
        (if-IsHandled
          (leb (get_or step.step_data.max_jumps 3) (jump_count (jump_key c.run_id step.id) w)) c w _
          _ (framed c c w w _ refl refl refl refl refl refl)
          (framed c _ w _ _ refl refl refl refl refl refl))
]

pub triggered_frame :
    (step : Step) (c : Context) (steps : List Step) (w : World)
    → let v = (handle_trigger_another_workflow step c steps w).1 in
      (v.runs ≡ w.runs) × (v.contexts ≡ w.contexts) × (v.active ≡ w.active)
unfolding handle_trigger_another_workflow start_child add_job
triggered_frame step c steps w = ground arith
