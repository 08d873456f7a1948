-- ===== src/Workflows/Safety/Events.antt =====
-- The listeners of events keep the invariant (`trigger` and `onInboundMessage` of
-- src/modules/workflows/workflow-engine.service.ts).
use desk_be.Common.{
  String, List, [], ◌∷◌, Option, none, some, lookup, str_eq, ◌≡◌, refl, arith, ◌&&◌, ◌||◌,
}
use desk_be.Workflows.Values.{Fields}
use desk_be.Workflows.Config.{Workflow}
use desk_be.Workflows.Config.{Step as ConfigStep}
use desk_be.Workflows.World.{ActiveRun, World, find_run, find_workflow, active_run_key, add_job}
use desk_be.Workflows.Runs.{is_waiting}
use desk_be.Workflows.Handlers.{Outside}
use desk_be.Workflows.Triggers.{
  Message, evaluate_and_enqueue, trigger_all, answer_step, answer_run, on_inbound_message,
  is_active, ran_before, cools_down, accepts, trigger_each, current_step,
}
use desk_be.Workflows.Machine.{Event, Heard, triggers, answers, heard, react, on_event}
use desk_be.Workflows.Safety.Invariant.{Keeps, Keeps-refl, Keeps-trans, Keeps-if}
use desk_be.Workflows.Safety.Changes.{Keeps-frame}
use desk_be.Workflows.Safety.Jobs.{Keeps-option, Keeps-not}

Keeps-evaluate :
    (x : Outside) (f : Workflow) (contact : String) (conversation : Option String) (event : Fields)
    (w : World)
    → Keeps w (evaluate_and_enqueue x f contact conversation event w)
unfolding evaluate_and_enqueue add_job
Keeps-evaluate x f contact conversation event w =
    Keeps-if (is_active f contact w || ran_before f contact w || cools_down f contact w) w w _
      (Keeps-refl w)
      (Keeps-option (x.contact_row w contact) w _ (λ row.
        Keeps-if (accepts x f row event) w _ w (Keeps-frame w _ refl refl refl) (Keeps-refl w)))

Keeps-each :
    (x : Outside) (workspace event_type contact : String) (conversation : Option String)
    (event : Fields) (fs : List Workflow) (w : World)
    → Keeps w (trigger_each x workspace event_type contact conversation event fs w)
unfolding trigger_each
Keeps-each x workspace event_type contact conversation event [] w = Keeps-refl w
Keeps-each x workspace event_type contact conversation event (f ∷ fs) w =
    Keeps-if
      (str_eq f.workspace_id workspace
        && str_eq f.status "published"
        && str_eq f.trigger.kind event_type)
      w _ _
      (Keeps-trans (Keeps-evaluate x f contact conversation event w)
        (Keeps-each x workspace event_type contact conversation event fs _))
      (Keeps-each x workspace event_type contact conversation event fs w)

Keeps-trigger_all :
    (x : Outside) (workspace event_type contact : String) (conversation : Option String)
    (event : Fields) (w : World)
    → Keeps w (trigger_all x workspace event_type contact conversation event w)
unfolding trigger_all
Keeps-trigger_all x workspace event_type contact conversation event w =
    Keeps-each x workspace event_type contact conversation event w.workflows w

answer_frame :
    (run_id : String) (m : Message) (s : ConfigStep) (w : World)
    → let v = answer_step run_id m s w in
      (v.runs ≡ w.runs) × (v.contexts ≡ w.contexts) × (v.active ≡ w.active)
unfolding answer_step add_job
answer_frame run_id m s w = ground arith

Keeps-answer_run : (m : Message) (a : Option ActiveRun) (w : World) → Keeps w (answer_run m a w)
unfolding answer_run
Keeps-answer_run m none w = Keeps-refl w
Keeps-answer_run m (some a) w = Keeps-option (find_run a.run_id w) w _ (λ r.
    Keeps-not (is_waiting r.status) w _ (
      Keeps-option (find_workflow r.workflow_id w) w _ (λ f.
        Keeps-option (current_step r f.steps) w _
          (λ s. let e = answer_frame r.id m s w in Keeps-frame w _ e.0 e.1 e.2))))

Keeps-inbound :
    (x : Outside) (workspace conversation : String) (m : Message) (w : World)
    → Keeps w (on_inbound_message x workspace conversation m w)
unfolding on_inbound_message
Keeps-inbound x workspace conversation m w = Keeps-not (str_eq m.direction "incoming") w _ (
    Keeps-option (x.contact_of_conversation w conversation) w _
      (λ contact. Keeps-answer_run m (lookup (active_run_key workspace contact) w.active) w))

Keeps-react : (x : Outside) (h : Heard) (w : World) → Keeps w (react x h w)
unfolding react
Keeps-react x (triggers workspace event_type contact conversation fields) w =
    Keeps-trigger_all x workspace event_type contact conversation fields w
Keeps-react x (answers workspace conversation m) w = Keeps-inbound x workspace conversation m w

pub Keeps-on_event : (x : Outside) (event : Event) (w : World) → Keeps w (on_event x event w)
unfolding on_event
Keeps-on_event x event w = Keeps-react x (heard event) w
