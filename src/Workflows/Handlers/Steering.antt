-- ===== src/Workflows/Handlers/Steering.antt =====
-- Waits and jumps (`handleWait`, `handleJumpTo`) of
-- src/modules/workflows/workflow-engine.service.ts.
use desk_be.Common.{
  ℕ, suc, String, List, [], ◌∷◌, ◌*◌, true, false, Option, none, some, str_eq, leb, lookup, join,
  get_or, present, if◌then◌else◌,
}
use desk_be.Workflows.Values.{Fields, text, number, flag, one, put, remove, optional}
use desk_be.Workflows.Config.{Step, find_next_step}
use desk_be.Workflows.World.{Context, World, resume, add_job}
use desk_be.Workflows.Handlers.{Result, Handled, replied, skipped}

-- `toMs`
unfoldable pub to_ms : ℕ → String → ℕ
to_ms value unit =
    value
    * (if str_eq unit "seconds"
        then 1000
        else if str_eq unit "minutes"
        then 60000
        else if str_eq unit "hours"
        then 3600000
        else if str_eq unit "days"
        then 86400000
        else 3600000)

-- the data of the job that ends a wait
unfoldable pub wait_resume : Option String → Fields
wait_resume (some next) = ("nextStepId", one (text next)) ∷ []
wait_resume none = ("completeAfterWait", one (flag true)) ∷ []

-- `handleWait`
unfoldable pub handle_wait : Step → Context → List Step → World → Result × World
unfolding to_ms find_next_step wait_resume add_job
handle_wait step c steps w =
    let ms = to_ms step.step_data.wait_value step.step_data.wait_unit in
    let next = find_next_step step.id steps none in
    (
      record {
        output =
            ("waitMs", one (number ms))
            ∷ ("unit", one (text step.step_data.wait_unit))
            ∷ ("value", one (number step.step_data.wait_value))
            ∷ ("nextStepId", optional next)
            ∷ [];
        branch_connector_id = none;
        next_step_id = none;
        suspend = true;
        wait_for = none;
      },
      add_job (resume c.run_id (wait_resume next)) ms w,
    )

-- the key `wf:jumps:…`
unfoldable pub jump_key : String → String → String
jump_key run_id step_id = join "wf:jumps:" (join run_id (join ":" step_id))

unfoldable pub jump_count : String → World → ℕ
jump_count key w = get_or (lookup key w.jumps) 0

-- `delete ctx.vars.lastAnswer; delete ctx.vars.lastAnswerMessageId`
unfoldable pub forget_answer : Context → Context
unfolding remove
forget_answer c = record c { vars = remove "lastAnswerMessageId" (remove "lastAnswer" c.vars) }

-- `handleJumpTo`
unfoldable pub handle_jump_to : Step → Context → World → Handled
unfolding jump_key jump_count forget_answer put
handle_jump_to step c w = elim (present step.step_data.target_step_id) [
  | none ↦ record { reply = replied (skipped "no targetStepId"); context = c; world = w }
  | some target ↦
      let key = jump_key c.run_id step.id in
      if leb (get_or step.step_data.max_jumps 3) (jump_count key w)
      then record { reply = replied (skipped "max jumps reached"); context = c; world = w }
      else record {
        reply = replied (record {
          output = ("jumped", one (flag true)) ∷ ("to", one (text target)) ∷ [];
          branch_connector_id = none;
          next_step_id = some target;
          suspend = false;
          wait_for = none;
        });
        context = forget_answer c;
        world = record w { jumps = put key (suc (jump_count key w)) w.jumps };
      }
]
