-- ===== src/Workflows/Safety/Alive.antt =====
-- What a run has come to, and the ends of a run (`completeRun` and `failRun` of
-- src/modules/workflows/workflow-engine.service.ts).
use desk_be.Common.{
  String, List, [], ◌∷◌, ◌++◌, true, Option, none, some, length, ◌≡◌, refl, ◌∙◌, ap, eq_iff,
  if◌then◌else◌,
}
use desk_be.Workflows.World.{
  waiting, completed, failed, Run, Context, Queued, World, execute_step, find_run, update_run,
}
use desk_be.Workflows.Runs.{
  is_live, completed_now, failed_now, end_as_completed, complete_within, complete_run, fail_run,
  cleanup_run, record_activity,
}
use desk_be.Workflows.Tables.{changed, find-id}
use desk_be.Workflows.Safety.Invariant.{IsRunning, IsSound}
use desk_be.Workflows.Safety.Expected.{Outcome, ends, waits, goes_to}
use desk_be.Workflows.Safety.Ending.{
  ending, Keeps-end, Keeps-resume_parent, Keeps-complete_within, Keeps-complete_run,
}

-- What a run has come to: its end with a status, a wait, or a step whose job is the last of the
-- queue while the run goes on.
abbrev pub Rests : World → Run → Outcome → Type 0
Rests w r (ends status) = r.status ≡ status
Rests w r waits = r.status ≡ waiting
Rests w r (goes_to step) =
    (is_live r.status ≡ true)
    × (before : List Queued) × (w.queue
        ≡ before ++ record { job = execute_step r.id step; delay = 0 } ∷ [])

pub record IsAlive (w : World) (id : String) (o : Outcome) : Type 0 where
  pub run : Run
  pub found : find_run id w ≡ some run
  pub rests : Rests w run o

-- the row of a run that ends
ended_row :
    (id event_type : String) (c : Context) (e : Option String) (f : Run → Run) (w : World)
    (k : IsRunning w id c.workspace_id c.contact_id)
    → ((r : Run) → (f r).id ≡ r.id)
    → find_run id (cleanup_run id c (record_activity c event_type e (update_run id f w)))
      ≡ some (f k.run)
unfolding cleanup_run
ended_row id event_type c e f w k h =
    (ending id event_type c e f w h).rows id
    ∙ ap (changed id f) k.found
    ∙ ap (λ b. some (if b then f k.run else k.run))
        ((eq_iff k.run.id id).1 (find-id id w.runs k.run k.found))

-- A run that is completed has ended.
pub complete_run-IsAlive :
    (id : String) (c : Context) (w : World)
    → IsSound w
    → IsRunning w id c.workspace_id c.contact_id
    → IsAlive (complete_run id c w) id (ends completed)
unfolding complete_run complete_within end_as_completed completed_now is_live
complete_run-IsAlive id c w s k =
    let f = completed_now w.now in
    let v = end_as_completed id c w in
    record {
      run = f k.run;
      found =
          ((Keeps-resume_parent (complete_within (length w.runs)) c "completed" none v
                (Keeps-complete_within (length w.runs))).ended
              ((Keeps-end id "workflow_ended" c none f w (λ r. refl) k).sound s)).stay
            id (f k.run) (ended_row id "workflow_ended" c none f w k (λ r. refl)) refl;
      rests = refl;
    }

-- A run that fails has ended.
pub fail_run-IsAlive :
    (id : String) (c : Context) (e : String) (w : World)
    → IsSound w
    → IsRunning w id c.workspace_id c.contact_id
    → IsAlive (fail_run id c e w) id (ends failed)
unfolding fail_run failed_now is_live
fail_run-IsAlive id c e w s k =
    let f = failed_now w.now e in
    record {
      run = f k.run;
      found =
          ((Keeps-resume_parent complete_run c "failed" (some e) _ Keeps-complete_run).ended
              ((Keeps-end id "workflow_failed" c (some e) f w (λ r. refl) k).sound s)).stay
            id (f k.run) (ended_row id "workflow_failed" c (some e) f w k (λ r. refl)) refl;
      rests = refl;
    }
