-- ===== src/Workflows/Handlers/Branching.antt =====
-- Branches (`handleBranch`, `handleBranchConnector`) of
-- src/modules/workflows/workflow-engine.service.ts.
use desk_be.Common.{
  ℕ, suc, String, List, [], ◌∷◌, Bool, false, Option, none, some, opt_eq, length, keep, ◌&&◌,
  if◌then◌else◌,
}
use desk_be.Workflows.Values.{text, one, optional}
use desk_be.Workflows.Config.{
  Step, is_connector, is_else_branch_connector, find_else_branch_connector, first_child,
}
use desk_be.Workflows.Conditions.{Numbers, meets}
use desk_be.Workflows.Lookups.{resolve_branch_field}
use desk_be.Workflows.World.{Context, World}
use desk_be.Workflows.Handlers.{Result}

-- the connectors of a branch
unfoldable pub connectors_of : String → List Step → List Step
unfolding is_connector
connectors_of id steps = keep (λ s. opt_eq s.parent_id id && is_connector s.kind) steps

-- the loop of `handleBranch`, from an index on
unfoldable pub match_from : (Step → Bool) → ℕ → ℕ → List Step → Option Step
unfolding is_else_branch_connector
match_from met count index [] = none
match_from met count index (c ∷ cs) =
    let rest = match_from met count (suc index) cs in
    if is_else_branch_connector c index count then rest else if met c then some c else rest

-- what `handleBranch` returns, by the connector that matched and the Else connector
branch_result : Option Step → Option Step → Result
branch_result (some c) otherwise = record {
  output = ("matchedBranch", optional c.name) ∷ [];
  branch_connector_id = some c.id;
  next_step_id = none;
  suspend = false;
  wait_for = none;
}
branch_result none otherwise = record {
  output = ("matchedBranch", one (text "Else")) ∷ [];
  branch_connector_id = elim otherwise [ none ↦ none | some c ↦ some c.id ];
  next_step_id = none;
  suspend = false;
  wait_for = none;
}

-- whether the conditions of a connector are met
unfoldable pub connector_met : Numbers → World → Context → Step → Bool
unfolding meets resolve_branch_field
connector_met n w c s = meets n (resolve_branch_field n w.now c) s.step_data.conditions

-- `handleBranch`
unfoldable pub handle_branch : Numbers → Step → Context → List Step → World → Result
unfolding connectors_of match_from branch_result find_else_branch_connector connector_met
handle_branch n step c steps w =
    let connectors = connectors_of step.id steps in
    branch_result (match_from (connector_met n w c) (length connectors) 0 connectors)
      (find_else_branch_connector connectors)

-- `handleBranchConnector`
unfoldable pub handle_branch_connector : Step → List Step → Result
unfolding first_child
handle_branch_connector step steps = record {
  output = [];
  branch_connector_id = none;
  next_step_id = first_child step.id steps;
  suspend = false;
  wait_for = none;
}
