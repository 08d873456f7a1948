-- ===== src/Workflows/Tests.antt =====
-- Runs of the workflow engine at concrete inputs
-- (src/modules/workflows/workflow-engine.service.ts).
use desk_be.Common.{
  arith, String, List, [], ◌∷◌, ◌-◌, true, false, Option, none, some, ◌≡◌, refl, min, str_eq,
  get_or, ◌||◌, ◌&&◌, if◌then◌else◌, trim,
}
use desk_be.Workflows.Values.{filled, Value, Fields, text, one}
use desk_be.Workflows.Config.{Condition}
use desk_be.Workflows.Conditions.{meets}
use desk_be.Workflows.World.{
  running, waiting, completed, Run, Context, World, execute_step, find_run, find_workflow,
  load_context,
}
use desk_be.Workflows.Runs.{is_live, complete_run, resume_parent, end_as_completed}
use desk_be.Workflows.Answers.{mark_processed}
use desk_be.Workflows.Handlers.Steering.{jump_key, jump_count}
use desk_be.Workflows.Resume.{run_job, resume_run, resume_message}
use desk_be.Workflows.Engine.{execute}
use desk_be.Workflows.Machine.{work, here, next, fresh}
use desk_be.Workflows.Runs.Rounds.{complete_run_terminates}
use desk_be.Workflows.Recent.{mark_each}
use desk_be.Workflows.Once.{answers_once}
use desk_be.Workflows.Groups.{meets-groups, all_joined, restarts, matches}
use desk_be.Workflows.Jumps.{jumps_in, jumps_bounded}
use desk_be.Workflows.Safety.Invariant.{IsSound}
use desk_be.Workflows.Safety.Alive.{IsAlive}
use desk_be.Workflows.Safety.Progress.{Leads, execute-IsAlive}
use desk_be.Workflows.Safety.Expected.{Outcome}
use desk_be.Workflows.Safety.Machine.{reachable-IsSound, ended_runs_stay}
use desk_be.Workflows.Samples.{numbers, outside, close_step, jump_step, flow, begun, begun-Reach}

reachable-IsSound_example : IsSound (begun (close_step ∷ []))
reachable-IsSound_example =
    reachable-IsSound outside 0 (flow (close_step ∷ []) ∷ []) (begun (close_step ∷ []))
      (begun-Reach (close_step ∷ []))

-- a run of a workflow without steps ends at once
abbrev ended_run : Run
ended_run = record {
  id = "run-1";
  workspace_id = "workspace-1";
  workflow_id = "flow-1";
  contact_id = "contact-1";
  status = completed;
  current_step_id = none;
  trigger_data = [];
  started_at = 0;
  completed_at = some 0;
  failed_at = none;
  error = none;
}

ended_found : find_run "run-1" (begun []) ≡ some ended_run
unfolding run_job fresh
ended_found = refl

ended_runs_stay_example :
    find_run "run-1" (run_job outside (execute_step "run-1" "close") (begun [])) ≡ some ended_run
unfolding is_live
ended_runs_stay_example =
    ended_runs_stay outside 0 (flow [] ∷ []) (begun [])
      (run_job outside (execute_step "run-1" "close") (begun [])) "run-1" ended_run (begun-Reach [])
      (next here (work (begun []) (execute_step "run-1" "close"))) ended_found refl

-- a run of a workflow with one step
abbrev begun_run : Run
begun_run = record ended_run { status = running; completed_at = none }

abbrev begun_context : Context
begun_context = record {
  run_id = "run-1";
  workflow_id = "flow-1";
  workflow_name = "Flow";
  workspace_id = "workspace-1";
  contact_id = "contact-1";
  conversation_id = some "conversation-1";
  contact = [];
  trigger = [];
  steps = [];
  vars = [];
}

begun_found :
    (find_run "run-1" (begun (close_step ∷ [])) ≡ some begun_run)
    × (load_context "run-1" (begun (close_step ∷ [])) ≡ some begun_context)
    × (find_workflow "flow-1" (begun (close_step ∷ [])) ≡ some (flow (close_step ∷ [])))
unfolding run_job fresh
begun_found = (refl, refl, refl)

execute-IsAlive_example :
    (o : Outcome) × Leads outside "run-1" "close" begun_context
      (flow (close_step ∷ []))
      (begun (close_step ∷ []))
      o
    × IsAlive (execute outside "run-1" "close" (begun (close_step ∷ []))) "run-1" o
unfolding is_live
execute-IsAlive_example =
    execute-IsAlive outside "run-1" "close" (begun (close_step ∷ [])) begun_run begun_context
      (flow (close_step ∷ []))
      (reachable-IsSound outside 0 (flow (close_step ∷ []) ∷ []) (begun (close_step ∷ []))
        (begun-Reach (close_step ∷ [])))
      begun_found.0 refl begun_found.1 begun_found.2

complete_run_terminates_example :
    complete_run "run-1" begun_context (begun (close_step ∷ []))
    ≡ resume_parent complete_run begun_context "completed" none
        (end_as_completed "run-1" begun_context (begun (close_step ∷ [])))
complete_run_terminates_example =
    complete_run_terminates "run-1" begun_context (begun (close_step ∷ []))

-- a run that waits for the answer to a question, having processed a message
abbrev message_1 : Value
message_1 = one (text "message-1")

-- messages that it processed after that one
abbrev message_2 : Value
message_2 = one (text "message-2")

abbrev message_3 : Value
message_3 = one (text "message-3")

abbrev waiting_run : Run
waiting_run = record begun_run { status = waiting; current_step_id = some "close" }

abbrev asked_world : World
asked_world = record (begun []) {
  runs = waiting_run ∷ [];
  contexts =
      ("run-1", mark_each (mark_processed begun_context message_1) (message_2 ∷ message_3 ∷ []))
      ∷ [];
}

abbrev answer_1 : Fields
answer_1 = ("lastAnswer", one (text "yes")) ∷ ("lastAnswerMessageId", message_1) ∷ []

answers_once_example : resume_run "run-1" answer_1 asked_world ≡ asked_world
unfolding resume_message filled trim
answers_once_example =
    answers_once "run-1" answer_1 asked_world waiting_run begun_context
      (mark_each (mark_processed begun_context message_1) (message_2 ∷ message_3 ∷ [])) message_1
      (message_2 ∷ message_3 ∷ []) "message-1" refl refl refl (omega arith) refl refl

-- a message that is new wakes the run
fresh_answer_wakes :
    find_run "run-1"
      (resume_run "run-1" (("lastAnswerMessageId", one (text "message-4")) ∷ []) asked_world)
    ≡ some (record waiting_run { status = running })
unfolding resume_run mark_processed mark_each trim
fresh_answer_wakes = refl

abbrev condition : String → Option String → Condition
condition field logic = record {
  category = "variable";
  field = field;
  operator = "exists";
  value = one (text "");
  logical_operator = logic;
}

-- `a OR b AND c`: only the first field is there
abbrev field_value : Condition → Value
field_value c = if str_eq c.field "a" then one (text "x") else one (text "")

abbrev later : List Condition
later = condition "b" (some "AND") ∷ condition "c" none ∷ []

meets-groups_example :
    (meets numbers field_value [] ≡ true)
    × (meets numbers field_value (condition "a" (some "OR") ∷ later) ≡ (
        (matches numbers field_value (condition "a" (some "OR"))
          && all_joined numbers field_value (some "OR") later)
        || restarts numbers field_value (some "OR") later))
meets-groups_example = meets-groups numbers field_value (condition "a" (some "OR")) later

-- read from the left, `a OR b AND c` is `(a OR b) AND c`
left_to_right : meets numbers field_value (condition "a" (some "OR") ∷ later) ≡ false
unfolding meets
left_to_right = refl

jumps_bounded_example :
    jumps_in 5 jump_step begun_context (begun [])
    ≡ min 5 (
        get_or jump_step.step_data.max_jumps 3
        - jump_count (jump_key begun_context.run_id jump_step.id) (begun []))
jumps_bounded_example = jumps_bounded 5 jump_step begun_context (begun []) "close" refl

three_jumps : jumps_in 5 jump_step begun_context (begun []) ≡ 3
unfolding jumps_in run_job fresh
three_jumps = refl
