-- ===== src/Workflows/Assignment/Tests.antt =====
-- Assignments at concrete inputs (`handleAssignTo` of
-- src/modules/workflows/workflow-engine.service.ts).
use desk_be.Common.{ℕ, ◌<◌, String, List, [], ◌∷◌, true, Option, none, some, length, ◌≡◌, refl}
use desk_be.Workflows.Assignment.{
  Desk, Member, Assigned, Settings, assigned, skipped, pick_agent, assign_to,
}
use desk_be.Workflows.Assignment.Fairness.{after_turns, pick_agent-fair}
use desk_be.Workflows.Assignment.Outcomes.{Accepts}
use desk_be.Workflows.Assignment.Sound.{assign_to-Accepts}

abbrev agent : String → String → Member
agent id availability = record {
  workspace_id = "w";
  user_id = id;
  role = "agent";
  status = "active";
  availability = availability;
}

abbrev taken_by : String → String → Option String → Assigned
taken_by id status user = record {
  id = id;
  workspace_id = "w";
  status = some status;
  assignee_id = user;
  team_id = none;
}

-- Ann has two open contacts, Bob one, Cleo is away, and nobody has taken the contact c4
abbrev desk : Desk
desk = record {
  members = agent "ann" "online" ∷ agent "bob" "online" ∷ agent "cleo" "busy" ∷ [];
  team_members = record { team_id = "t"; user_id = "bob" } ∷ [];
  contacts =
      taken_by "c1" "open" (some "ann")
      ∷ taken_by "c2" "open" (some "ann")
      ∷ taken_by "c3" "open" (some "bob")
      ∷ taken_by "c4" "open" none
      ∷ [];
  conversations = record { id = "v4"; contact_id = "c4" } ∷ [];
  counters = [];
  entries = [];
}

abbrev online : String → String → Option ℕ → Settings
online action logic limit = record {
  action = some action;
  user_id = some "dan";
  team_id = some "t";
  assignment_logic = some logic;
  only_online_users = true;
  max_open_contacts = limit;
}

fewest_open :
    (assign_to "w" "c4" (online "user_in_workspace" "least_open_contacts" none) desk).0
    ≡ assigned (some "bob") none
unfolding assign_to
fewest_open = refl

team_is_full :
    (assign_to "w" "c4" (online "user_in_team" "round_robin" (some 1)) desk).0
    ≡ skipped "no eligible assignee found"
unfolding assign_to
team_is_full = refl

stranger :
    (assign_to "w" "c4" (online "specific_user" "round_robin" none) desk).0
    ≡ skipped "selected user is not an active workspace member"
unfolding assign_to
stranger = refl

assign_to-Accepts_example :
    Accepts "w" "c4"
      (online "user_in_team" "least_open_contacts" (some 3))
      desk
      (assign_to "w" "c4" (online "user_in_team" "least_open_contacts" (some 3)) desk)
assign_to-Accepts_example =
    assign_to-Accepts "w" "c4" (online "user_in_team" "least_open_contacts" (some 3)) desk refl

abbrev turn : List String
turn = "ann" ∷ "bob" ∷ "cleo" ∷ []

pick_agent-fair_example :
    (k : ℕ) × (k < length turn)
    × ((pick_agent turn "w" "round_robin" (after_turns k turn "w" desk)).0 ≡ some "ann")
pick_agent-fair_example = pick_agent-fair turn "w" "ann" desk refl
