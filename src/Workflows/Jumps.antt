-- ===== src/Workflows/Jumps.antt =====
-- How often a run jumps (`handleJumpTo` of src/modules/workflows/workflow-engine.service.ts).
use desk_be.Common.{
  ℕ, zero, suc, ◌-◌, min, String, Bool, true, false, none, some, get_or, present, ◌≡◌,
  if◌then◌else◌, arith,
}
use desk_be.Workflows.Values.{put}
use desk_be.Workflows.Config.{Step}
use desk_be.Workflows.World.{Context, World}
use desk_be.Workflows.Handlers.{Reply, replied, threw}
use desk_be.Workflows.Handlers.Steering.{jump_key, jump_count, forget_answer, handle_jump_to}
use desk_be.Workflows.Tables.{lookup-put_same}

-- whether a handler left the step for another
jumped : Reply → Bool
jumped (replied r) = elim r.next_step_id [ none ↦ false | some s ↦ true ]
jumped (threw e) = false

-- how many of the next `visits` visits of a step jump
unfoldable pub jumps_in : ℕ → Step → Context → World → ℕ
unfolding handle_jump_to jumped
jumps_in zero step c w = 0
jumps_in (suc visits) step c w =
    let h = handle_jump_to step c w in
    let rest = jumps_in visits step h.context h.world in if jumped h.reply then suc rest else rest

-- Of any number of visits of a jump step that has a target, a run jumps at as many as its limit
-- leaves, which is `maxJumps` or 3, less the jumps it has made: it never jumps for ever.
pub jumps_bounded :
    (visits : ℕ) (step : Step) (c : Context) (w : World) (target : String)
    → present step.step_data.target_step_id ≡ some target
    → jumps_in visits step c w
      ≡ min visits (get_or step.step_data.max_jumps 3 - jump_count (jump_key c.run_id step.id) w)
unfolding jumps_in jumped handle_jump_to jump_count forget_answer
jumps_bounded zero step c w target h = ground arith
jumps_bounded (suc visits) step c w target h =
    let key = jump_key c.run_id step.id in
    let next : World = record w { jumps = put key (suc (jump_count key w)) w.jumps } in
    let stays = jumps_bounded visits step c w target h in
    let leaves = jumps_bounded visits step (forget_answer c) next target h in
    let counted = lookup-put_same key (suc (jump_count key w)) w.jumps in
    ground (arith, h, stays, leaves, counted)
