-- ===== src/Workflows/Assignment.antt =====
-- Who answers a contact: the step that assigns one (`handleAssignTo`, `getEligibleAgents`,
-- `pickAgent`) of src/modules/workflows/workflow-engine.service.ts, on the tables that it reads.
pub mod Eligible
pub mod Fairness
pub mod Outcomes
pub mod Picking
pub mod Sound
mod Tests
use desk_be.Common.{
  ℕ, zero, suc, ◌%◌, String, List, [], ◌∷◌, ◌++◌, map, Bool, true, false, Option, none, some,
  str_eq, opt_eq, contains, keep, find, lookup, length, get_or, truthy, present, is_some, join, ltb,
  leb, ◌==◌, not, ◌&&◌, ◌||◌, if◌then◌else◌,
}
use desk_be.Workflows.Values.{put}

-- `WorkspaceMember`
pub record Member : Type 0 where
  pub workspace_id : String
  pub user_id : String
  pub role : String
  pub status : String
  pub availability : String

pub record TeamMember : Type 0 where
  pub team_id : String
  pub user_id : String

-- the fields of `Contact` that an assignment reads or writes
pub record Assigned : Type 0 where
  pub id : String
  pub workspace_id : String
  pub status : Option String
  pub assignee_id : Option String
  pub team_id : Option String

pub record Conversation : Type 0 where
  pub id : String
  pub contact_id : String

-- the activity that an assignment records in a conversation
pub record Entry : Type 0 where
  pub workspace_id : String
  pub conversation_id : String
  pub event_type : String
  pub subject_user_id : Option String
  pub subject_team_id : Option String

-- `counters` are the keys `wf:rr:…` of Redis.
pub record Desk : Type 0 where
  pub members : List Member
  pub team_members : List TeamMember
  pub contacts : List Assigned
  pub conversations : List Conversation
  pub counters : List (String × ℕ)
  pub entries : List Entry

-- `step.data`; a limit that is no positive number is none, a field that is there as `null` is a text
-- that names no logic
pub record Settings : Type 0 where
  pub action : Option String
  pub user_id : Option String
  pub team_id : Option String
  pub assignment_logic : Option String
  pub only_online_users : Bool
  pub max_open_contacts : Option ℕ

-- what a step ends with: the assignee and the team, the reason why it is skipped, or the error of
-- an update without its row
pub data Outcome : Type 0 where
  assigned : Option String → Option String → Outcome
  skipped : String → Outcome
  not_found : Outcome

-- `countAssignedOpenContacts`
unfoldable pub count_open : String → String → List Assigned → ℕ
count_open workspace user contacts = length (
    keep
      (λ c. str_eq c.workspace_id workspace && opt_eq c.assignee_id user && opt_eq c.status "open")
      contacts)

-- the users of a team
unfoldable pub in_team : String → List TeamMember → List String
in_team team rows = map (λ t. t.user_id) (keep (λ t. str_eq t.team_id team) rows)

-- the `where` of `getEligibleAgents`
unfoldable pub is_candidate : String → Option String → Bool → Desk → Member → Bool
unfolding in_team
is_candidate workspace team only_online d m =
    str_eq m.workspace_id workspace
    && str_eq m.role "agent"
    && str_eq m.status "active"
    && (not only_online || str_eq m.availability "online")
    && elim (present team) [ none ↦ true | some t ↦ contains (in_team t d.team_members) m.user_id ]

-- `candidate.openCount < maxOpen`, where there is a limit
unfoldable pub has_room : String → Option ℕ → Desk → String → Bool
unfolding count_open
has_room workspace max_open d user = elim max_open [
  | none ↦ true
  | some n ↦ if n == 0 then true else ltb (count_open workspace user d.contacts) n
]

-- `getEligibleAgents`
unfoldable pub eligible_agents : String → Option String → Bool → Option ℕ → Desk → List String
unfolding is_candidate has_room
eligible_agents workspace team only_online max_open d =
    keep (has_room workspace max_open d)
      (map (λ m. m.user_id) (keep (is_candidate workspace team only_online d) d.members))

-- `agentIds[index]`
abbrev pub at : ℕ → List String → Option String
at n [] = none
at zero (a ∷ agents) = some a
at (suc n) (a ∷ agents) = at n agents

-- the first of the stable sort: a later agent is preferred only where its count is smaller
unfoldable pub least : (String → ℕ) → List String → Option String
least count [] = none
least count (a ∷ agents) = elim (least count agents) [
  | none ↦ some a
  | some b ↦ if leb (count a) (count b) then some a else some b
]

unfoldable pub counter_key : String → String
counter_key workspace = join "wf:rr:" workspace

-- `incr`, which takes a missing key for 0
unfoldable pub incremented : String → Desk → ℕ
unfolding counter_key
incremented workspace d = suc (get_or (lookup (counter_key workspace) d.counters) 0)

unfoldable pub increment : String → Desk → Desk
unfolding counter_key incremented put
increment workspace d = record d {
  counters = put (counter_key workspace) (incremented workspace d) d.counters;
}

-- the turn of an agent
unfoldable pub take_turn : List String → String → Desk → Option String × Desk
unfolding incremented increment
take_turn agents workspace d =
    (at (incremented workspace d % length agents) agents, increment workspace d)

-- `pickAgent`
unfoldable pub pick_agent : List String → String → String → Desk → Option String × Desk
unfolding take_turn least count_open
pick_agent [] workspace logic d = (none, d)
pick_agent (a ∷ agents) workspace logic d =
    if str_eq logic "round_robin"
    then take_turn (a ∷ agents) workspace d
    else (least (λ user. count_open workspace user d.contacts) (a ∷ agents), d)

-- `contact.update({ where: { id } })`
unfoldable pub assign_contact :
    String → Option String → Option String → List Assigned → List Assigned
assign_contact id user team contacts =
    map (λ c. if str_eq c.id id then record c { assignee_id = user; team_id = team } else c)
      contacts

abbrev entry : String → String → String → Option String → Option String → Entry
entry workspace conversation event user team = record {
  workspace_id = workspace;
  conversation_id = conversation;
  event_type = event;
  subject_user_id = user;
  subject_team_id = team;
}

-- the activity of the first conversation with the contact
unfoldable pub with_entry :
    String → String → String → Option String → Option String → Desk → List Entry
with_entry workspace contact event user team d =
    elim (find (λ c. str_eq c.contact_id contact) d.conversations) [
      | none ↦ d.entries
      | some c ↦ d.entries ++ entry workspace c.id event user team ∷ []
    ]

-- the writes at the end of `handleAssignTo`
unfoldable pub write :
    String → String → String → Option String → Option String → Desk → Outcome × Desk
unfolding assign_contact with_entry
write workspace contact event user team d =
    if is_some (find (λ c. str_eq c.id contact) d.contacts)
    then (
      assigned user team,
      record d {
        contacts = assign_contact contact user team d.contacts;
        entries = with_entry workspace contact event user team d;
      },
    )
    else (not_found, d)

-- the test and the writes after the switch
unfoldable pub conclude : String → String → Option String → Option String × Desk → Outcome × Desk
unfolding write
conclude workspace contact team r =
    if truthy r.0
    then write workspace contact "assigned" r.0 team r.1
    else (skipped "no eligible assignee found", r.1)

-- the case `specific_user`
unfoldable pub assign_user : String → String → Option String → Desk → Outcome × Desk
unfolding conclude
assign_user workspace contact user d = elim (present user) [
  | none ↦ (skipped "no user selected", d)
  | some u ↦
      if is_some (
        find
          (λ m. str_eq m.workspace_id workspace && str_eq m.user_id u && str_eq m.status "active")
          d.members)
      then conclude workspace contact none (some u, d)
      else (skipped "selected user is not an active workspace member", d)
]

-- the cases `user_in_team` and `user_in_workspace`
unfoldable pub assign_agent : String → String → Option String → Settings → Desk → Outcome × Desk
unfolding conclude pick_agent eligible_agents
assign_agent workspace contact team s d = conclude workspace contact team (
    pick_agent (eligible_agents workspace team s.only_online_users s.max_open_contacts d) workspace
      (get_or s.assignment_logic "round_robin") d)

-- `handleAssignTo`
unfoldable pub assign_to : String → String → Settings → Desk → Outcome × Desk
unfolding assign_user assign_agent write
assign_to workspace contact s d =
    if opt_eq s.action "specific_user"
    then assign_user workspace contact s.user_id d
    else if opt_eq s.action "user_in_team"
    then elim (present s.team_id) [
      | none ↦ (skipped "no team selected", d)
      | some t ↦ assign_agent workspace contact (some t) s d
    ]
    else if opt_eq s.action "user_in_workspace"
    then assign_agent workspace contact none s d
    else if opt_eq s.action "unassign"
    then write workspace contact "unassigned" none none d
    else (skipped "no assignment action configured", d)
