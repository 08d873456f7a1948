-- ===== src/Workflows/Machine.antt =====
-- The engine as a machine: its steps are the jobs that the worker takes, the events that the
-- listeners of src/modules/workflows/workflow-engine.service.ts hear, the keys of Redis that run
-- out, edits of the workflows and the clock. A job may be taken at any time and more than once.
use desk_be.Common.{ℕ, String, List, [], ◌∷◌, map, Option, none, some, ◌≤◌}
use desk_be.Workflows.Values.{Scalar, Fields, text, keyed, one, array, optional, remove}
use desk_be.Workflows.Config.{Workflow}
use desk_be.Workflows.World.{Job, World}
use desk_be.Workflows.Handlers.{Outside}
use desk_be.Workflows.Resume.{run_job}
use desk_be.Workflows.Triggers.{Message, trigger_all, on_inbound_message}

-- The events, each with its workspace and contact; of the fields that were updated, the names.
pub data Event : Type 0 where
  contact_tag_updated : String → String → String → String → List String → Event
  contact_lifecycle_updated : String → String → String → Event
  contact_field_updated : String → String → List String → Event
  contact_assigned : String → String → Option String → Option String → Event
  conversation_opened : String → String → String → String → String → Option String → Event
  conversation_closed : String → String → String → String → String → Option String → Event
  message_inbound : String → String → Message → Event
  meta_ad_click : String → String → Option String → Fields → Event
  commerce_event : String → String → Option String → String → Fields → Event

texts : List String → List Scalar
texts = map text

-- `null` where a value that may be null is
nullable : Option String → Scalar
nullable none = Scalar.null
nullable (some s) = text s

-- the data of an event of a conversation
conversation_fields : String → String → Option String → Fields
conversation_fields source channel channel_id =
    ("source", one (text source))
    ∷ ("channel", one (text channel))
    ∷ ("channelId", optional channel_id)
    ∷ []

-- what a listener does: it triggers workflows, or answers a run
pub data Heard : Type 0 where
  triggers : String → String → String → Option String → Fields → Heard
  answers : String → String → Message → Heard

-- `onContactTagUpdated` and the listeners below it
unfoldable pub heard : Event → Heard
unfolding texts nullable conversation_fields
heard (contact_tag_updated workspace contact action tag tags) =
    triggers workspace "contact_tag_updated" contact none (
      ("action", one (text action)) ∷ ("tagId", one (text tag)) ∷ ("tags", array (texts tags)) ∷ [])
heard (contact_lifecycle_updated workspace contact lifecycle) =
    triggers workspace "lifecycle_updated" contact none (("lifecycleId", one (text lifecycle)) ∷ [])
heard (contact_field_updated workspace contact names) =
    triggers workspace "contact_field_updated" contact none (("fields", one (keyed names)) ∷ [])
heard (contact_assigned workspace contact assignee team) =
    triggers workspace "contact_assigned" contact none
      (("assigneeId", one (nullable assignee)) ∷ ("teamId", one (nullable team)) ∷ [])
heard (conversation_opened workspace contact conversation source channel channel_id) =
    triggers workspace "conversation_opened" contact (some conversation)
      (conversation_fields source channel channel_id)
heard (conversation_closed workspace contact conversation source channel channel_id) =
    triggers workspace "conversation_closed" contact (some conversation)
      (conversation_fields source channel channel_id)
heard (message_inbound workspace conversation m) = answers workspace conversation m
heard (meta_ad_click workspace contact conversation fields) =
    triggers workspace "meta_ad_click" contact conversation fields
heard (commerce_event workspace contact conversation event_type fields) =
    triggers workspace event_type contact conversation fields

unfoldable pub react : Outside → Heard → World → World
unfolding trigger_all on_inbound_message
react x (triggers workspace event_type contact conversation fields) w =
    trigger_all x workspace event_type contact conversation fields w
react x (answers workspace conversation m) w = on_inbound_message x workspace conversation m w

unfoldable pub on_event : Outside → Event → World → World
unfolding heard react
on_event x event w = react x (heard event) w

-- One step of the engine or of what is around it.
pub data Step (x : Outside) : World → World → Type 1 where
  work : (w : World) (job : Job) → Step x w (run_job x job w)
  hear : (w : World) (event : Event) → Step x w (on_event x event w)
  expire_context :
      (w : World) (run_id : String) → Step x w (record w { contexts = remove run_id w.contexts })
  expire_active : (w : World) (key : String) → Step x w (record w { active = remove key w.active })
  -- Where a workflow with runs is deleted, the database also deletes the rows of its runs. That is no
  -- step here: an edit leaves the runs.
  edit : (w : World) (workflows : List Workflow) → Step x w (record w { workflows = workflows })
  tick : (w : World) (now : ℕ) → w.now ≤ now → Step x w (record w { now = now })

-- what the engine reaches from a state
pub data Reach (x : Outside) (u : World) : World → Type 1 where
  here : Reach x u u
  next : {v w : World} → Reach x u v → Step x v w → Reach x u w

-- a state with no run, no context and no key
unfoldable pub fresh : ℕ → List Workflow → World
fresh now workflows = record {
  now = now;
  workflows = workflows;
  runs = [];
  run_steps = [];
  contexts = [];
  active = [];
  jumps = [];
  queue = [];
  timeline = [];
}
