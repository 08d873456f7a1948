-- ===== src/Workflows/Safety/Machine.antt =====
-- What holds of the engine over every sequence of its steps
-- (src/modules/workflows/workflow-engine.service.ts).
use desk_be.Common.{
  ℕ, String, List, false, some, lookup, str_eq, ◌≡◌, refl, sym, ◌∙◌, Bool-cases, inl, inr, arith,
  eq_iff,
}
use desk_be.Workflows.Values.{remove}
use desk_be.Workflows.Config.{Workflow}
use desk_be.Workflows.World.{
  Run, Job, World, trigger, execute_step, resume, ask_question_timeout, find_run,
}
use desk_be.Workflows.Runs.{is_live}
use desk_be.Workflows.Handlers.{Outside}
use desk_be.Workflows.Resume.{run_job}
use desk_be.Workflows.Machine.{
  Step, work, hear, expire_context, expire_active, edit, tick, Reach, here, next, fresh,
}
use desk_be.Workflows.Tables.{lookup-remove_same, lookup-remove_other}
use desk_be.Workflows.Safety.Invariant.{IsSound, Keeps, Keeps-refl, Keeps-trans}
use desk_be.Workflows.Safety.Changes.{Keeps-frame, IsRunning-frame}
use desk_be.Workflows.Safety.Jobs.{Keeps-execute, Keeps-resume_run, Keeps-timeout}
use desk_be.Workflows.Safety.Starting.{Keeps-start_run}
use desk_be.Workflows.Safety.Events.{Keeps-on_event}

Keeps-run_job : (x : Outside) (job : Job) (w : World) → Keeps w (run_job x job w)
unfolding run_job
Keeps-run_job x (trigger workspace workflow contact conversation fields) w =
    Keeps-start_run x workspace workflow contact conversation fields w
Keeps-run_job x (execute_step run_id step_id) w = Keeps-execute x run_id step_id w
Keeps-run_job x (resume run_id fields) w = Keeps-resume_run run_id fields w
Keeps-run_job x (ask_question_timeout run_id step_id) w = Keeps-timeout run_id step_id w

-- what is found without a key was there with it
found_before :
    {A : Type 0} (key other : String) (a : A) (m : List (String × A))
    → lookup other (remove key m) ≡ some a
    → lookup other m ≡ some a
found_before key other a m h = elim (Bool-cases (str_eq key other)) [
  | inl e ↦ absurd (ground (arith, (eq_iff key other).0 e, h, lookup-remove_same key m))
  | inr e ↦ sym (lookup-remove_other key other m e) ∙ h
]

Step-Keeps : {x : Outside} {u w : World} → Step x u w → Keeps u w
Step-Keeps (work w job) = Keeps-run_job _ job w
Step-Keeps (hear w event) = Keeps-on_event _ event w
Step-Keeps (expire_context w run_id) = record {
  sound = λ s. record {
    contexts = λ j c h.
        let o = s.contexts j c (found_before run_id j c w.contexts h) in
        record {
          own = o.own;
          runs = IsRunning-frame w _ j c.workspace_id c.contact_id refl o.runs;
        };
    active = λ key a h.
        let o = s.active key a h in
        record {
          workspace = o.workspace;
          contact = o.contact;
          of_key = o.of_key;
          runs = IsRunning-frame w _ a.run_id o.workspace o.contact refl o.runs;
        };
  };
  ended = λ s. record { stay = λ j r h e. h };
}
Step-Keeps (expire_active w expired) = record {
  sound = λ s. record {
    contexts = λ j c h.
        let o = s.contexts j c h in
        record {
          own = o.own;
          runs = IsRunning-frame w _ j c.workspace_id c.contact_id refl o.runs;
        };
    active = λ key a h.
        let o = s.active key a (found_before expired key a w.active h) in
        record {
          workspace = o.workspace;
          contact = o.contact;
          of_key = o.of_key;
          runs = IsRunning-frame w _ a.run_id o.workspace o.contact refl o.runs;
        };
  };
  ended = λ s. record { stay = λ j r h e. h };
}
Step-Keeps (edit w workflows) = Keeps-frame w _ refl refl refl
Step-Keeps (tick w now h) = Keeps-frame w _ refl refl refl

Reach-Keeps : {x : Outside} {u w : World} → Reach x u w → Keeps u w
Reach-Keeps here = Keeps-refl _
Reach-Keeps (next r s) = Keeps-trans (Reach-Keeps r) (Step-Keeps s)

fresh-IsSound : (now : ℕ) (workflows : List Workflow) → IsSound (fresh now workflows)
unfolding fresh
fresh-IsSound now workflows = record {
  contexts = λ j c h. absurd (ground (arith, h));
  active = λ key a h. absurd (ground (arith, h));
}

-- In every state that the engine reaches from one without runs, by jobs in any order, taken late or
-- twice, by events, by keys that run out and by edits of the workflows: a context is that of a run
-- which has not ended, and the run that a contact's active-run key names is there, has not ended,
-- and is a run of this contact in this workspace. So no run that ended blocks its contact.
pub reachable-IsSound :
    (x : Outside) (now : ℕ) (workflows : List Workflow) (w : World)
    → Reach x (fresh now workflows) w
    → IsSound w
reachable-IsSound x now workflows w r = (Reach-Keeps r).sound (fresh-IsSound now workflows)

-- A run that has ended in a state that the engine reached is the same row in every state that it
-- reaches from there: no job that is late or taken twice, no answer, no timeout and no child wakes
-- or changes it.
pub ended_runs_stay :
    (x : Outside) (now : ℕ) (workflows : List Workflow) (u w : World) (id : String) (r : Run)
    → Reach x (fresh now workflows) u
    → Reach x u w
    → find_run id u ≡ some r
    → is_live r.status ≡ false
    → find_run id w ≡ some r
ended_runs_stay x now workflows u w id r before after h e =
    ((Reach-Keeps after).ended (reachable-IsSound x now workflows u before)).stay id r h e
