-- ===== src/Access.antt =====
-- src/common/auth/route.guard.ts and route-access.decorator.ts: which requests a route lets
-- through. The request keeps what was stamped on it also when the guard throws. The role maps are
-- plain objects, so an identifier may also find what they inherit from `Object.prototype`. A stored
-- role that is itself such a name (then `granted.includes` is no function, and the guard throws) is
-- taken for one that grants nothing. The boot log of `onModuleInit` is not modelled.
pub mod Roles
mod Found
mod Permitted
mod Promotion
mod Stamps
mod Tests
use desk_be.Common.{
  ℕ, String, List, [], ◌∷◌, map, Bool, true, false, not, ◌&&◌, Option, none, some, coalesce,
  present, contains, any, keep, lookup, is_some, str_eq, if◌then◌else◌,
}
use desk_be.Access.Roles.{
  OrgPermission, WorkspacePermission, org_value, ws_value, org_granted, ws_granted,
}

-- `permissions` left out is the empty list: the code tests `permissions?.length`.
pub data RouteAccess : Type 0 where
  everyone jwt : RouteAccess
  org : List OrgPermission → RouteAccess
  workspace : List WorkspacePermission → RouteAccess

pub record User : Type 0 where
  pub org_roles : List (String × String)
  pub workspace_roles : List (String × String)

pub record Request : Type 0 where
  pub user : Option User
  pub header_organization_id : Option String
  pub param_organization_id : Option String
  pub header_workspace_id : Option String
  pub param_workspace_id : Option String
  pub organization : Option (String × String)
  pub workspace : Option (String × String)

pub data Verdict : Type 0 where
  allowed : Verdict
  unauthorized : Verdict
  no_access_decorator : Verdict
  organization_required workspace_required : Verdict
  not_a_member no_workspace_access : Verdict
  missing_org missing_workspace : List String → Verdict

-- The properties of `Object.prototype`, each with the text of its value, by which the code then
-- looks for permissions.
abbrev pub object_prototype : List (String × String)
object_prototype =
    ("constructor", "function Object() { [native code] }")
    ∷ ("__defineGetter__", "function __defineGetter__() { [native code] }")
    ∷ ("__defineSetter__", "function __defineSetter__() { [native code] }")
    ∷ ("hasOwnProperty", "function hasOwnProperty() { [native code] }")
    ∷ ("__lookupGetter__", "function __lookupGetter__() { [native code] }")
    ∷ ("__lookupSetter__", "function __lookupSetter__() { [native code] }")
    ∷ ("isPrototypeOf", "function isPrototypeOf() { [native code] }")
    ∷ ("propertyIsEnumerable", "function propertyIsEnumerable() { [native code] }")
    ∷ ("toString", "function toString() { [native code] }")
    ∷ ("valueOf", "function valueOf() { [native code] }")
    ∷ ("__proto__", "[object Object]")
    ∷ ("toLocaleString", "function toLocaleString() { [native code] }")
    ∷ []

-- `roles[id]`: an own entry hides an inherited one.
pub read_entry : Option String → String → Option String
read_entry none id = lookup id object_prototype
read_entry (some role) id = some role

-- `id ? roles?.[id] : null`, when truthy, at an identifier that is truthy
pub role_of : Option String → List (String × String) → Option String
unfolding read_entry
role_of none roles = none
role_of (some i) roles = present (read_entry (lookup i roles) i)

-- `if (id && role) request.… = …`
stamp : Option String → Option String → Option (String × String) → Option (String × String)
stamp none role old = old
stamp (some i) none old = old
stamp (some i) (some r) old = some (i, r)

-- `Object.values(orgRoles ?? {}).includes('ORG_ADMIN')`
pub is_org_admin : User → Bool
is_org_admin u = contains (map (λ e. e.1) u.org_roles) "ORG_ADMIN"

-- `permissions.filter(p => !granted.includes(p))`
pub missing : List String → List String → List String
missing granted wanted = keep (λ p. not (contains granted p)) wanted

deny_if : (List String → Verdict) → List String → Verdict
deny_if deny [] = allowed
deny_if deny (p ∷ ps) = deny (p ∷ ps)

check_org : Option String → Option String → List OrgPermission → Verdict
check_org none role permissions = organization_required
check_org (some i) none permissions = not_a_member
check_org (some i) (some r) permissions =
    deny_if missing_org (missing (org_granted r) (map org_value permissions))

check_workspace : Option String → Option String → Bool → List WorkspacePermission → Verdict
check_workspace none role admin permissions = workspace_required
check_workspace (some i) none admin permissions = no_workspace_access
check_workspace (some i) (some r) admin permissions =
    if admin
    then allowed
    else deny_if missing_workspace (missing (ws_granted r) (map ws_value permissions))

abbrev pub organization_id : Request → Option String
organization_id r = present (coalesce r.header_organization_id r.param_organization_id)

abbrev pub workspace_id : Request → Option String
workspace_id r = present (coalesce r.header_workspace_id r.param_workspace_id)

stamped : User → Request → Request
stamped u r = record r {
  organization = stamp (organization_id r) (role_of (organization_id r) u.org_roles) r.organization;
  workspace = stamp (workspace_id r) (role_of (workspace_id r) u.workspace_roles) r.workspace;
}

decide_route : RouteAccess → User → Request → Verdict
decide_route everyone u r = allowed
decide_route jwt u r = allowed
decide_route (org ps) u r =
    check_org (organization_id r) (role_of (organization_id r) u.org_roles) ps
decide_route (workspace ps) u r =
    check_workspace (workspace_id r) (role_of (workspace_id r) u.workspace_roles) (is_org_admin u)
      ps

-- the part of `enforce` behind the public routes, at a user who may be missing
enforce_for : RouteAccess → Option User → Request → Verdict × Request
enforce_for access none r = (unauthorized, r)
enforce_for jwt (some u) r = (allowed, r)
enforce_for access (some u) r = (decide_route access u r, stamped u r)

pub enforce : RouteAccess → Request → Verdict × Request
unfolding enforce_for decide_route stamped stamp role_of check_org check_workspace deny_if missing
    is_org_admin org_granted ws_granted
enforce everyone r = (allowed, r)
enforce access r = enforce_for access r.user r

-- `none`: neither the handler nor its class has an access decorator
pub can_activate : Option RouteAccess → Request → Verdict × Request
can_activate none r = (no_access_decorator, r)
can_activate (some access) r = enforce access r
