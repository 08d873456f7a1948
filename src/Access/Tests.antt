-- ===== src/Access/Tests.antt =====
-- Requests that exercise the guard, and the theorems at them.
use desk_be.Common.{[], ◌∷◌, map, none, some, ◌≡◌, refl, ◌↔◌}
use desk_be.Access.Roles.{
  contacts_manage, messages_send, billing_view, users_manage, ws_value, ws_granted,
}
use desk_be.Access.{
  org, workspace, User, Request, allowed, missing_org, missing_workspace, not_a_member,
  object_prototype, enforce,
}
use desk_be.Access.Permitted.{IsPermitted, enforce-allowed_iff}
use desk_be.Access.Promotion.{manager_agent, enforce-promotion}
use desk_be.Access.Stamps.{Stamped, enforce-Stamped}

abbrev agent : User
agent = record {
  org_roles = ("o1", "ORG_BILLING_ADMIN") ∷ [];
  workspace_roles = ("w1", "WS_AGENT") ∷ [];
}

abbrev manager : User
manager = record { org_roles = []; workspace_roles = ("w1", "WS_MANAGER") ∷ [] }

-- An administrator of another organization, who is an agent in `w1`.
abbrev outsider : User
outsider = record {
  org_roles = ("o9", "ORG_ADMIN") ∷ [];
  workspace_roles = ("w1", "WS_AGENT") ∷ [];
}

abbrev request : User → Request
request u = record {
  user = some u;
  header_organization_id = some "o1";
  param_organization_id = none;
  header_workspace_id = none;
  param_workspace_id = some "w1";
  organization = none;
  workspace = none;
}

billing_route : (enforce (org (billing_view ∷ [])) (request agent)).0 ≡ allowed
unfolding enforce
billing_route = refl

users_route :
    (enforce (org (users_manage ∷ billing_view ∷ [])) (request agent)).0
    ≡ missing_org ("org:users:manage" ∷ [])
unfolding enforce
users_route = refl

stranger_route : (enforce (org []) (request outsider)).0 ≡ not_a_member
unfolding enforce
stranger_route = refl

-- The administrator of `o9` passes a workspace route of `w1` that an agent does not pass.
cross_organization : (enforce (workspace (contacts_manage ∷ [])) (request outsider)).0 ≡ allowed
unfolding enforce
cross_organization = refl

-- A name that every object inherits counts as a role in a workspace, but grants no permission.
inherited_name :
    ((enforce
        (workspace [])
        (record (request manager) { header_workspace_id = some "constructor" })).0
      ≡ allowed)
    × ((enforce
          (workspace (messages_send ∷ []))
          (record (request manager) { header_workspace_id = some "constructor" })).0
        ≡ missing_workspace (ws_value messages_send ∷ []))
unfolding enforce
inherited_name = (refl, refl)

inherited_grants : map (λ e. ws_granted e.1) object_prototype ≡ map (λ _. []) object_prototype
unfolding ws_granted
inherited_grants = refl

enforce-allowed_iff_example :
    ((enforce (workspace (contacts_manage ∷ [])) (request outsider)).0 ≡ allowed)
    ↔ IsPermitted (workspace (contacts_manage ∷ [])) (request outsider)
enforce-allowed_iff_example =
    enforce-allowed_iff (workspace (contacts_manage ∷ [])) (request outsider)

send_route : (enforce (workspace (messages_send ∷ [])) (request agent)).0 ≡ allowed
unfolding enforce
send_route = refl

enforce-promotion_example : (enforce (workspace (messages_send ∷ [])) (request manager)).0 ≡ allowed
unfolding enforce
enforce-promotion_example =
    enforce-promotion (messages_send ∷ []) (request agent) agent manager manager_agent refl refl
      refl refl send_route

enforce-Stamped_example :
    ((u : User)
      → some agent ≡ some u
      → Stamped u (request agent) (enforce (org []) (request agent)).1)
    × (some agent ≡ none → (enforce (org []) (request agent)).1 ≡ request agent)
enforce-Stamped_example = enforce-Stamped (org []) (request agent)
