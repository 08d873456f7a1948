-- ===== src/Workflows/Safety/Progress.antt =====
-- What the job of a step leaves of its run: an end, a wait, or the job of the right next step
-- (`executeStep` of src/modules/workflows/workflow-engine.service.ts).
use mathlib.Core.Path.{subst}
use desk_be.Common.{
  ℕ, String, List, Bool, true, false, Option, none, some, find, length, str_eq, ◌≡◌, refl, sym, ◌∙◌,
  ap, eq_iff, not, Option-cases, [], ◌∷◌, ◌++◌, inl, inr, if◌then◌else◌,
}
use desk_be.Workflows.Values.{put}
use desk_be.Workflows.Config.{Step, Workflow}
use desk_be.Workflows.World.{
  waiting, completed, failed, execute_step, Run, Context, World, find_run, find_workflow,
  update_run, set_status, save_context, load_context, mark_active_run, add_job, enqueue_step,
  create_run_step, update_run_step,
}
use desk_be.Workflows.Runs.{is_live}
use desk_be.Workflows.Router.{run_step_handler}
use desk_be.Workflows.Handlers.{Result, Reply, replied, threw, Outside}
use desk_be.Workflows.Engine.{
  error_connector, handle_step_error, failed_step, completed_step, awaits_reply, suspend_run,
  next_of, go_to, advance, settle, new_run_step, perform, execute,
}
use desk_be.Workflows.Safety.Expected.{
  IsFirst, ForErrors, Follows, Outcome, ends, waits, goes_to, Expected, fails, diverts, suspends,
  goes_on, is_over, error_connector-IsFirst, next_of-Follows,
}
use desk_be.Workflows.Tables.{at_some, changed, find-map_update, find-id}
use desk_be.Workflows.Safety.Invariant.{IsRunning, IsSound, Keeps-trans}
use desk_be.Workflows.Safety.Changes.{IsRunning-frame, IsRunning-update, Keeps-update, Keeps-frame}
use desk_be.Workflows.Safety.Keys.{IsRunning-saved, Keeps-save_context}
use desk_be.Workflows.Safety.Handling.{IsHandled}
use desk_be.Workflows.Safety.Router.{handle_kind-IsHandled}
use desk_be.Workflows.Safety.Steps.{runs_on}
use desk_be.Workflows.Safety.Performing.{at_step, at_step-GoesOn, handled-IsRunning}
use desk_be.Workflows.Safety.Alive.{IsAlive, complete_run-IsAlive, fail_run-IsAlive}

-- What has to follow a reply does.
abbrev Answered : Step → List Step → Reply → World → String → Type 0
Answered step steps reply w id = (o : Outcome) × Expected step steps reply o × IsAlive w id o

-- the job of a step as the last of the queue, at the row of the run
goes-IsAlive :
    (next id : String) (c : Context) (w v : World)
    → v.runs ≡ w.runs
    → v.queue ≡ w.queue ++ record { job = execute_step id next; delay = 0 } ∷ []
    → IsRunning w id c.workspace_id c.contact_id
    → IsAlive v id (goes_to next)
goes-IsAlive next id c w v rows queue k = record {
  run = k.run;
  found = ap (find (λ r. str_eq r.id id)) rows ∙ k.found;
  rests = (
    k.live,
    w.queue,
    subst (λ i. v.queue ≡ w.queue ++ record { job = execute_step i next; delay = 0 } ∷ [])
        (sym (find-id id w.runs k.run k.found)) queue,
  );
}

go_to-Answered :
    (next : Option String) (id : String) (step : Step) (steps : List Step) (r : Result)
    (c : Context) (w : World)
    → r.suspend ≡ false
    → Follows step steps r next
    → IsSound w
    → IsRunning w id c.workspace_id c.contact_id
    → Answered step steps (replied r) (go_to next id c w) id
unfolding go_to enqueue_step add_job
go_to-Answered none id step steps r c w plain f s k =
    (ends completed, is_over plain f, complete_run-IsAlive id c w s k)
go_to-Answered (some next) id step steps r c w plain f s k =
    (goes_to next, goes_on plain f, goes-IsAlive next id c w _ refl refl k)

if_found :
    (b : Bool) (id : String) (c : Context) (w : World) (r : Run)
    → find_run id w ≡ some r
    → find_run id (if b then mark_active_run c w else w) ≡ some r
unfolding mark_active_run
if_found true id c w r h = h
if_found false id c w r h = h

suspend_run-IsAlive :
    (id : String) (step : Step) (r : Result) (c : Context) (w : World)
    → IsRunning w id c.workspace_id c.contact_id
    → IsAlive (suspend_run id step r c w) id waits
unfolding suspend_run update_run
suspend_run-IsAlive id step r c w k = record {
  run = set_status waiting k.run;
  found =
      if_found (awaits_reply step r) id c (update_run id (set_status waiting) w)
        (set_status waiting k.run)
        (find-map_update id id (set_status waiting) w.runs (λ x. refl)
          ∙ ap (changed id (set_status waiting)) k.found
          ∙ ap (λ b. some (if b then set_status waiting k.run else k.run))
              ((eq_iff k.run.id id).1 (find-id id w.runs k.run k.found)));
  rests = refl;
}

-- `advance`, at its test
either-Answered :
    (b : Bool) (id : String) (step : Step) (steps : List Step) (r : Result) (c : Context)
    (w : World)
    → r.suspend ≡ b
    → IsSound w
    → IsRunning w id c.workspace_id c.contact_id
    → Answered step steps
        (replied r)
        (if b then suspend_run id step r c w else go_to (next_of step steps r) id c w)
        id
either-Answered true id step steps r c w e s k =
    (waits, suspends e, suspend_run-IsAlive id step r c w k)
either-Answered false id step steps r c w e s k =
    go_to-Answered (next_of step steps r) id step steps r c w e (next_of-Follows step steps r) s k

advance-Answered :
    (id : String) (step : Step) (steps : List Step) (r : Result) (c : Context) (w : World)
    → IsSound w
    → IsRunning w id c.workspace_id c.contact_id
    → Answered step steps (replied r) (advance id step steps r c w) id
unfolding advance
advance-Answered id step steps r c w s k = either-Answered r.suspend id step steps r c w refl s k

error-Answered :
    (position : ℕ) (id : String) (step : Step) (c : Context) (steps : List Step) (e : String)
    (w : World)
    → IsSound w
    → IsRunning w id c.workspace_id c.contact_id
    → Answered step steps (threw e) (handle_step_error position id step c steps e w) id
unfolding handle_step_error update_run_step enqueue_step add_job
error-Answered position id step c steps e w s k =
    let noted = update_run_step position (failed_step w.now e) w in
    let i = error_connector-IsFirst step steps in
    elim (Option-cases (error_connector step steps)) [
      | inl h ↦
          rw (handle_step_error, h)
            (
              ends failed,
              fails (subst (IsFirst (ForErrors step) steps) h i),
              fail_run-IsAlive id c e noted ((Keeps-frame w noted refl refl refl).sound s)
                  (IsRunning-frame w noted id c.workspace_id c.contact_id refl k),
            )
      | inr (connector, h) ↦
          rw (handle_step_error, h)
            (
              goes_to connector.id,
              diverts (subst (IsFirst (ForErrors step) steps) h i),
              goes-IsAlive connector.id id c w _ refl refl k,
            )
    ]

-- the world in which the handler of a step is called
abbrev pub at_work : String → Step → World → World
unfolding create_run_step update_run
at_work id step w = update_run id (at_step step.id) (create_run_step (new_run_step id step w.now) w)

module _ (id : String) (c : Context) (own : c.run_id ≡ id) where
  settle-Answered :
      (position : ℕ) (step : Step) (steps : List Step) (w : World) (reply : Reply) (d : Context)
      (v : World)
      → IsSound v
      → IsHandled c w (record { reply = reply; context = d; world = v })
      → IsRunning w id c.workspace_id c.contact_id
      → Answered step steps reply
          (settle position id step steps (record { reply = reply; context = d; world = v }))
          id
  unfolding settle update_run_step save_context
  settle-Answered position step steps w (threw e) d v s i k =
      error-Answered position id step d steps e v s (handled-IsRunning id c own w _ i k)
  settle-Answered position step steps w (replied r) d v s i k =
      let here = handled-IsRunning id c own w _ i k in
      let after = record d {
        steps = put step.id (record { output = r.output; status = completed }) d.steps;
      } in
      let updated = update_run_step position (completed_step v.now r.output) v in
      let running = IsRunning-frame v updated id d.workspace_id d.contact_id refl here in
      let kept =
        Keeps-trans (Keeps-frame v updated refl refl refl)
          (Keeps-save_context updated after (runs_on id after (i.run_id ∙ own) updated running)) in
      advance-Answered id step steps r after (save_context after updated) (kept.sound s)
        (IsRunning-saved updated after id d.workspace_id d.contact_id running)

  perform-Answered :
      (x : Outside) (step : Step) (steps : List Step) (w : World)
      → IsSound w
      → IsRunning w id c.workspace_id c.contact_id
      → Answered step steps
          (run_step_handler x step c steps (at_work id step w)).reply
          (perform x id step steps c w)
          id
  unfolding perform create_run_step run_step_handler
  perform-Answered x step steps w s k =
      let noted = create_run_step (new_run_step id step w.now) w in
      let kn = IsRunning-frame w noted id c.workspace_id c.contact_id refl k in
      let at = update_run id (at_step step.id) noted in
      let go = at_step-GoesOn step.id in
      let ka = IsRunning-update id (at_step step.id) go noted id c.workspace_id c.contact_id kn in
      let i = handle_kind-IsHandled x step.kind step c steps at (runs_on id c own at ka) in
      let kept = Keeps-trans (Keeps-frame w noted refl refl refl) (
        Keeps-trans (Keeps-update id (at_step step.id) go noted c.workspace_id c.contact_id kn)
          i.keeps) in
      settle-Answered (length w.run_steps) step steps at _ _ _ (kept.sound s) i ka

-- a run that has not ended
at_live :
    (P : World → Type 0) (b : Bool) (w v : World) → b ≡ true → P v → P (if not b then w else v)
at_live P b w v e p = subst (λ b. P (if not b then w else v)) (sym e) p

-- What has to follow the job of a step of a workflow: its own end, if the step is gone, or what has
-- to follow the reply of the handler of the step.
pub data Leads (x : Outside) (id step_id : String) (c : Context) (f : Workflow) (w : World)
    : Outcome → Type 0 where
  gone : find (λ t. str_eq t.id step_id) f.steps ≡ none → Leads x id step_id c f w (ends completed)
  handled :
      {step : Step} {o : Outcome}
      → find (λ t. str_eq t.id step_id) f.steps ≡ some step
      → Expected step f.steps (run_step_handler x step c f.steps (at_work id step w)).reply o
      → Leads x id step_id c f w o

-- In a sound state, the job of a step of a run that has not ended, whose context and workflow are
-- there, does what has to follow: it completes the run if the step is gone, or calls the step's
-- handler and then, at a result that suspends, leaves the run waiting; at another result, leaves
-- the run going on with the job of the step that the result leads to at the end of the queue, or
-- completed if it leads to none; at an error, leaves the run going on with the job of the step's
-- connector for errors at the end of the queue, or failed if it has none.
pub execute-IsAlive :
    (x : Outside) (id step_id : String) (w : World) (r : Run) (c : Context) (f : Workflow)
    → IsSound w
    → find_run id w ≡ some r
    → is_live r.status ≡ true
    → load_context id w ≡ some c
    → find_workflow r.workflow_id w ≡ some f
    → (o : Outcome) × Leads x id step_id c f w o × IsAlive (execute x id step_id w) id o
unfolding execute
execute-IsAlive x id step_id w r c f s hr hl hc hf =
    let own = s.contexts id c hc in
    let P : World → Type 0 = λ v. (o : Outcome) × Leads x id step_id c f w o × IsAlive v id o in
    at_some P (find_run id w) r w _ hr (
      at_live P (is_live r.status) w _ hl (
        at_some P (load_context id w) c w _ hc (
          at_some P (find_workflow r.workflow_id w) f w _ hf
            (elim (Option-cases (find (λ t. str_eq t.id step_id) f.steps)) [
              | inl h ↦ rw (h) (ends completed, gone h, complete_run-IsAlive id c w s own.runs)
              | inr (step, h) ↦
                  let (o, e, a) = perform-Answered id c own.own x step f.steps w s own.runs in
                  rw (h) (o, handled h e, a)
            ]))))
