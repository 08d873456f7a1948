-- ===== src/Workflows/Safety/Starting.antt =====
-- The start of a run keeps the invariant and the runs that ended (`startRun` of
-- src/modules/workflows/workflow-engine.service.ts).
use mathlib.Core.Path.{subst}
use desk_be.Common.{
  String, [], ◌∷◌, ◌++◌, Bool, true, false, Option, none, some, ◌≡◌, refl, sym, find, str_eq,
  Option-cases, inl, inr, if◌then◌else◌, arith, ◌&&◌,
}
use desk_be.Workflows.Values.{Fields}
use desk_be.Workflows.Config.{Step, Workflow}
use desk_be.Workflows.World.{
  Run, Context, World, find_run, save_context, mark_active_run, add_job, enqueue_step,
}
use desk_be.Workflows.Runs.{is_live, record_activity}
use desk_be.Workflows.Handlers.{Outside}
use desk_be.Workflows.Engine.{
  ensure_run_conversation, ensure_conversation, new_run, new_context, is_triggered_sub_workflow,
  resolve_initial_step, begin, launch, start_run,
}
use desk_be.Workflows.Safety.Invariant.{IsRunning, Keeps, Keeps-refl, Keeps-trans, Keeps-if}
use desk_be.Workflows.Safety.Changes.{IsRunning-frame, IsRunning-create, Keeps-frame, Keeps-create}
use desk_be.Workflows.Safety.Keys.{Keeps-save_context, Keeps-mark_active_run}
use desk_be.Workflows.Safety.Ending.{Keeps-activity, Keeps-complete_run}
use desk_be.Workflows.Safety.Handling.{RunsOn}
use desk_be.Workflows.Safety.Jobs.{Keeps-option, Keeps-not}

Keeps-begin :
    (first : Option Step) (c : Context) (w : World) → RunsOn w c → Keeps w (begin first c w)
unfolding begin enqueue_step add_job
Keeps-begin none c w k = Keeps-complete_run c.run_id c w k refl
Keeps-begin (some step) c w k = Keeps-frame w _ refl refl refl

activity_runs :
    (c : Context) (event_type : String) (e : Option String) (w : World)
    → (record_activity c event_type e w).runs ≡ w.runs
unfolding record_activity
activity_runs c event_type e w = elim (Option-cases c.conversation_id) [
  | inl h ↦ rw (h) refl
  | inr (x, h) ↦ rw (h) refl
]

marked_runs :
    (b : Bool) (c : Context) (w : World) → (if b then w else mark_active_run c w).runs ≡ w.runs
unfolding mark_active_run
marked_runs true c w = refl
marked_runs false c w = refl

-- A new run starts, with its context and its contact's key.
Keeps-launch :
    (f : Workflow) (r : Run) (c : Context) (w : World)
    → RunsOn (record w { runs = w.runs ++ r ∷ [] }) c
    → Keeps w (launch f r c w)
unfolding launch save_context
Keeps-launch f r c w k =
    let created : World = record w { runs = w.runs ++ r ∷ [] } in
    let saved = save_context c created in
    let noted = record_activity c "workflow_started" none saved in
    let sub = is_triggered_sub_workflow c.trigger in
    let kn =
      IsRunning-frame created noted c.run_id c.workspace_id c.contact_id
        (activity_runs c "workflow_started" none saved) k in
    let km =
      IsRunning-frame noted (if sub then noted else mark_active_run c noted) c.run_id c.workspace_id
        c.contact_id (marked_runs sub c noted) kn in
    Keeps-trans (Keeps-create w r) (
      Keeps-trans (Keeps-save_context created c k) (
        Keeps-trans (Keeps-activity c "workflow_started" none saved) (
          Keeps-trans
            (Keeps-if sub noted noted _ (Keeps-refl noted) (Keeps-mark_active_run noted c kn))
            (Keeps-begin (resolve_initial_step f.steps c.trigger) c _ km))))

-- the ids of a context that gets its conversation
ensured :
    (x : Outside) (t : String) (c : Context) (w : World)
    → let d = ensure_run_conversation x t c w in
      (d.run_id ≡ c.run_id) × (d.workspace_id ≡ c.workspace_id) × (d.contact_id ≡ c.contact_id)
unfolding ensure_run_conversation ensure_conversation
ensured x t c w = ground arith

-- the start of a run whose id is new
started :
    (x : Outside) (f : Workflow) (workspace contact : String) (conversation : Option String)
    (fields : Fields) (w : World)
    → find_run (x.uuid w) w ≡ none
    → Keeps w (
        launch f
          (new_run (x.uuid w) workspace f contact fields w)
          (ensure_run_conversation x f.trigger.kind
            (new_context (x.uuid w) workspace f contact conversation (x.contact w contact) fields)
            w)
          w)
unfolding new_run new_context is_live
started x f workspace contact conversation fields w h =
    let r = new_run (x.uuid w) workspace f contact fields w in
    let first =
      new_context (x.uuid w) workspace f contact conversation (x.contact w contact) fields in
    let c = ensure_run_conversation x f.trigger.kind first w in
    let e = ensured x f.trigger.kind first w in
    let created : World = record w { runs = w.runs ++ r ∷ [] } in
    Keeps-launch f r c w (
      subst (λ i. IsRunning created i c.workspace_id c.contact_id) (sym e.0)
        (subst (λ i. IsRunning created (x.uuid w) i c.contact_id) (sym e.1)
          (subst (IsRunning created (x.uuid w) workspace) (sym e.2) (IsRunning-create w r h refl))))

-- `startRun` keeps the invariant.
pub Keeps-start_run :
    (x : Outside) (workspace workflow contact : String) (conversation : Option String)
    (fields : Fields) (w : World)
    → Keeps w (start_run x workspace workflow contact conversation fields w)
unfolding start_run
Keeps-start_run x workspace workflow contact conversation fields w =
    Keeps-option (find (λ f. str_eq f.id workflow && str_eq f.workspace_id workspace) w.workflows) w
      _
      (λ f.
        Keeps-not (str_eq f.status "published") w _ (elim (Option-cases (find_run (x.uuid w) w)) [
          | inr (taken, h) ↦ rw (h) (Keeps-refl w)
          | inl h ↦ rw (h) (started x f workspace contact conversation fields w h)
        ]))
