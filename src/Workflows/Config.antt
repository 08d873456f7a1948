-- ===== src/Workflows/Config.antt =====
-- The configuration of a workflow (`workflow.config`), its steps, and
-- src/modules/workflows/branch-routing.util.ts.
use desk_be.Common.{
  ℕ, String, List, [], ◌∷◌, Bool, true, false, Option, none, some, str_eq, opt_eq, get_or, length,
  ltb, ◌==◌, ◌&&◌, ◌||◌, ◌-◌, trim, to_lower, find, if◌then◌else◌, suc, not,
}
use desk_be.Workflows.Values.{Value, Fields}

-- `step.type`; a type that has no handler is `unknown`
pub data StepType : Type 0 where
  send_message ask_question assign_to update_contact_tag update_contact_field : StepType
  branch wait http_request jump_to open_conversation close_conversation add_comment : StepType
  date_time trigger_another_workflow branch_connector : StepType
  unknown : String → StepType

unfoldable pub is_connector : StepType → Bool
is_connector branch_connector = true
is_connector t = false

unfoldable pub is_question : StepType → Bool
is_question ask_question = true
is_question t = false

pub record Condition : Type 0 where
  pub category : String
  pub field : String
  pub operator : String
  pub value : Value
  pub logical_operator : Option String

-- The fields of a question's `step.data`. An option of a choice is its label.
pub record Question : Type 0 where
  pub question_type : String
  pub options : List String
  pub number_min : Option ℕ
  pub number_max : Option ℕ
  pub save_as_variable : Bool
  pub variable_name : Option String
  pub save_as_contact_field : Bool
  pub contact_field_id : Option String
  pub save_as_tag : Bool
  pub add_message_failure_branch : Bool
  pub timeout_value : Option ℕ
  pub timeout_unit : String

-- The fields of `step.data` of a step that sends a message or a question.
pub record Message : Type 0 where
  pub channel : Option String
  pub delivery_strategy : Option String
  pub text : Option String
  pub attachments : ℕ
  pub template_name : Option String
  pub template_language : Option String
  pub question_text : Option String

-- The fields of `step.data` that the engine itself reads. `rest` are those that only the steps'
-- handlers read.
pub record StepData : Type 0 where
  pub conditions : List Condition
  pub is_else : Bool
  pub target_step_id : Option String
  pub max_jumps : Option ℕ
  pub target_workflow_id : Option String
  pub start_from : Option String
  pub add_timeout_branch : Bool
  pub connectors : List String
  pub template_button_branching : Bool
  pub wait_value : ℕ
  pub wait_unit : String
  pub question : Question
  pub message : Message
  pub rest : Fields

pub record Step : Type 0 where
  pub id : String
  pub kind : StepType
  pub name : Option String
  pub parent_id : Option String
  pub step_data : StepData

pub record AdvancedSettings : Type 0 where
  pub trigger_once_per_contact : Bool
  pub cooldown_hours : ℕ

-- `trigger.data`, the filters of a trigger
pub record TriggerFilter : Type 0 where
  pub sources : List String
  pub categories : List String
  pub tags : List String
  pub action : Option String
  pub field_id : Option String
  pub stage_selection : Option String
  pub stages : List String
  pub trigger_when_cleared : Bool

pub record Trigger : Type 0 where
  pub kind : String
  pub conditions : List Condition
  pub filter : TriggerFilter
  pub settings : AdvancedSettings

pub record Workflow : Type 0 where
  pub id : String
  pub workspace_id : String
  pub name : String
  pub status : String
  pub trigger : Trigger
  pub steps : List Step

-- `normalizeConnectorName`
unfoldable pub normalize_connector_name : Option String → String
normalize_connector_name name = to_lower (trim (get_or name ""))

-- `isElseBranchConnector(connector, index, connectors)`, at `count` connectors
unfoldable pub is_else_branch_connector : Step → ℕ → ℕ → Bool
unfolding normalize_connector_name
is_else_branch_connector connector index count =
    let name = normalize_connector_name connector.name in
    if connector.step_data.is_else || str_eq name "else"
    then true
    else ltb 1 count
      && (index == count - 1)
      && str_eq name "branch path"
      && (length connector.step_data.conditions == 0)

-- `connectors.find(…)`, from the index on
else_from : ℕ → ℕ → List Step → Option Step
unfolding is_else_branch_connector
else_from count index [] = none
else_from count index (c ∷ cs) =
    let rest = else_from count (suc index) cs in
    if is_else_branch_connector c index count then some c else rest

-- `findElseBranchConnector`
unfoldable pub find_else_branch_connector : List Step → Option Step
unfolding else_from
find_else_branch_connector connectors = else_from (length connectors) 0 connectors

-- `connectorIds[connectorNames.indexOf(name)]`
id_for : String → List String → List String → Option String
id_for name [] ids = none
id_for name (n ∷ ns) [] = none
id_for name (n ∷ ns) (i ∷ ids) =
    let rest = id_for name ns ids in if str_eq n name then some i else rest

abbrev connector_names : List String
connector_names = "Success" ∷ "Failure" ∷ "Timeout" ∷ "Message Failure" ∷ []

has_id : Option String → Step → Bool
has_id none s = false
has_id (some id) s = str_eq s.id id

-- `findAskQuestionConnector(step, config, name)`
unfoldable pub find_ask_question_connector : Step → List Step → String → Option Step
unfolding is_connector id_for has_id
find_ask_question_connector step steps name =
    find
      (λ s.
        opt_eq s.parent_id step.id
        && is_connector s.kind
        && (opt_eq s.name name || has_id (id_for name connector_names step.step_data.connectors) s))
      steps

-- a child of `parent` that is not a connector
unfoldable pub is_child : String → Step → Bool
unfolding is_connector
is_child parent s = opt_eq s.parent_id parent && not (is_connector s.kind)

abbrev id_of : Option Step → Option String
id_of none = none
id_of (some s) = some s.id

-- `steps.find(…)?.id ?? null`
unfoldable pub first_child : String → List Step → Option String
unfolding is_child
first_child parent steps = id_of (find (is_child parent) steps)

-- `findNextStep`; an empty connector id is no connector
unfoldable pub find_next_step : String → List Step → Option String → Option String
unfolding first_child
find_next_step current steps none = first_child current steps
find_next_step current steps (some connector) =
    if str_eq connector "" then first_child current steps else first_child connector steps
