-- ===== src/Workflows/Resume.antt =====
-- What wakes a run that waits (`resumeRun`, `handleAskQuestionTimeout`, the answers that were
-- processed) in src/modules/workflows/workflow-engine.service.ts, and the dispatch of jobs in
-- src/workers/workflow.worker.ts.
use desk_be.Common.{
  String, List, [], ◌∷◌, Bool, true, false, Option, none, some, str_eq, opt_eq, find, present, not,
  ◌&&◌, if◌then◌else◌,
}
use desk_be.Workflows.Values.{
  Value, Fields, flag, one, value_of, or_else, put, remove, merge, filled,
}
use desk_be.Workflows.Config.{Step, is_question, find_next_step, find_ask_question_connector}
use desk_be.Workflows.Answers.{has_processed}
use desk_be.Workflows.World.{
  running, completed, Run, Context, Job, World, trigger, execute_step, resume, ask_question_timeout,
  find_run, find_workflow, update_run, set_status, save_context, load_context, enqueue_step,
}
use desk_be.Workflows.Runs.{is_waiting, complete_run}
use desk_be.Workflows.Handlers.Steering.{forget_answer}
use desk_be.Workflows.Handlers.{Outside}
use desk_be.Workflows.Engine.{start_run, execute, go_to}

unfoldable pub is_set : Value → Bool
is_set (one (flag b)) = b
is_set v = false

-- the message that a resume answers with
unfoldable pub resume_message : Fields → Value
unfolding value_of or_else
resume_message fields =
    or_else (value_of "lastAnswerMessageId" fields) (value_of "templateButtonReplyMessageId" fields)

-- the step that a run goes on with
unfoldable pub resume_step : Run → Fields → Option String
unfolding filled value_of
resume_step r fields = elim (filled (value_of "nextStepId" fields)) [
  | some step ↦ some step
  | none ↦ present r.current_step_id
]

-- the context after a resume: the data but for where to go on
unfoldable pub resumed_context : Context → Fields → Context
unfolding merge remove
resumed_context c fields = record c {
  vars = merge c.vars (remove "completeAfterWait" (remove "nextStepId" fields));
}

unfoldable pub go_on : Option String → String → World → World
unfolding enqueue_step
go_on none run_id w = w
go_on (some step) run_id w = enqueue_step run_id step w

-- `resumeRun`, at a context and a message that is new
unfoldable pub wake : Run → String → Fields → Context → World → World
unfolding resumed_context save_context update_run is_set value_of complete_run resume_step go_on
wake r run_id fields c w =
    let woken =
      update_run run_id (set_status running) (save_context (resumed_context c fields) w) in
    if is_set (value_of "completeAfterWait" fields)
    then complete_run run_id (resumed_context c fields) woken
    else go_on (resume_step r fields) run_id woken

-- `resumeRun`
unfoldable pub resume_run : String → Fields → World → World
unfolding is_waiting has_processed resume_message wake
resume_run run_id fields w = elim (find_run run_id w) [
  | none ↦ w
  | some r ↦ if not (is_waiting r.status) then w else elim (load_context run_id w) [
    | none ↦ w
    | some c ↦ if has_processed c (resume_message fields) then w else wake r run_id fields c w
  ]
]

-- a question that `addTimeoutBranch` is set of
unfoldable pub is_timed : String → Step → Bool
unfolding is_question
is_timed step_id s = str_eq s.id step_id && is_question s.kind

unfoldable pub timed_out : String → Context → Context
unfolding forget_answer put
timed_out step_id c =
    let forgotten = forget_answer c in
    record forgotten {
      steps =
          put step_id (record { output = ("timedOut", one (flag true)) ∷ []; status = completed })
            forgotten.steps;
    }

-- `handleAskQuestionTimeout`, at the connector of the timeout
unfoldable pub time_out : Step → List Step → String → Step → Context → World → World
unfolding timed_out save_context update_run find_next_step go_to
time_out step steps run_id connector c w =
    let after = timed_out step.id c in
    go_to (present (find_next_step step.id steps (some connector.id))) run_id after
      (update_run run_id (set_status running) (save_context after w))

-- `handleAskQuestionTimeout`
unfoldable pub handle_ask_question_timeout : String → String → World → World
unfolding is_waiting is_timed find_ask_question_connector time_out
handle_ask_question_timeout run_id step_id w = elim (find_run run_id w) [
  | none ↦ w
  | some r ↦
      if not (is_waiting r.status && opt_eq r.current_step_id step_id)
      then w
      else elim (load_context run_id w) [
        | none ↦ w
        | some c ↦ elim (find_workflow r.workflow_id w) [
          | none ↦ w
          | some f ↦ elim (find (is_timed step_id) f.steps) [
            | none ↦ w
            | some step ↦
                if not step.step_data.add_timeout_branch
                then w
                else elim (find_ask_question_connector step f.steps "Timeout") [
                  | none ↦ w
                  | some connector ↦ time_out step f.steps run_id connector c w
                ]
          ]
        ]
      ]
]

-- the dispatch of the worker
unfoldable pub run_job : Outside → Job → World → World
unfolding start_run execute resume_run handle_ask_question_timeout
run_job x (trigger workspace workflow contact conversation fields) w =
    start_run x workspace workflow contact conversation fields w
run_job x (execute_step run_id step_id) w = execute x run_id step_id w
run_job x (resume run_id fields) w = resume_run run_id fields w
run_job x (ask_question_timeout run_id step_id) w = handle_ask_question_timeout run_id step_id w
