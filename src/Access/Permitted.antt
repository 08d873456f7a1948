-- ===== src/Access/Permitted.antt =====
-- When `RouteGuard.enforce` lets a request through.
use desk_be.Common.{
  String, List, [], ◌∷◌, map, Bool, true, false, Option, none, some, contains, ◌≡◌, ◌≢◌, refl, sym,
  ◌↔◌, ◌⊎◌, inl, inr, All, Bool-cases,
}
use mathlib.Core.Path.{subst}
use mathlib.Core.Option.{some_inj}
use desk_be.Access.Roles.{
  OrgPermission, WorkspacePermission, org_value, ws_value, org_granted, ws_granted,
}
use desk_be.Access.{
  RouteAccess, everyone, jwt, org, workspace, User, Request, Verdict, allowed, missing_org,
  missing_workspace, role_of, is_org_admin, missing, deny_if, check_org, check_workspace,
  organization_id, workspace_id, decide_route, enforce_for, enforce,
}
use desk_be.Access.Found.{Finds, role_of-Finds}

-- Every wanted permission is among the granted ones.
abbrev pub Covers : {P : Type 0} → List String → (P → String) → List P → Type 0
Covers granted value ps = All (λ p. contains granted (value p) ≡ true) ps

-- What each kind of route asks of the user and the request.
abbrev pub Holds : RouteAccess → User → Request → Type 0
Holds everyone u r = Unit
Holds jwt u r = Unit
Holds (org ps) u r =
    (role : String) × Finds u.org_roles (organization_id r) role
    × Covers (org_granted role) org_value ps
Holds (workspace ps) u r =
    (role : String) × Finds u.workspace_roles (workspace_id r) role
    × ((is_org_admin u ≡ true) ⊎ Covers (ws_granted role) ws_value ps)

abbrev pub IsPermitted : RouteAccess → Request → Type 0
IsPermitted everyone r = Unit
IsPermitted access r = (u : User) × (r.user ≡ some u) × Holds access u r

module _ {P : Type 0} (deny : List String → Verdict) (granted : List String) (value : P → String)
    (never : (p : String) (rest : List String) → deny (p ∷ rest) ≢ allowed) where
  deny_if-missing :
      (ps : List P)
      → (deny_if deny (missing granted (map value ps)) ≡ allowed) ↔ Covers granted value ps
  unfolding deny_if missing
  deny_if-missing [] = (λ _. tt, λ _. refl)
  deny_if-missing (p ∷ ps) = elim (Bool-cases (contains granted (value p))) [
    | inl held ↦ rw held (λ e. (refl, (deny_if-missing ps).0 e), λ h. (deny_if-missing ps).1 h.1)
    | inr lacking ↦ rw lacking (λ e. absurd (never _ _ e), λ h. cc)
  ]

missing_org-ne : (p : String) (rest : List String) → missing_org (p ∷ rest) ≢ allowed
missing_org-ne p rest e = cc

missing_workspace-ne : (p : String) (rest : List String) → missing_workspace (p ∷ rest) ≢ allowed
missing_workspace-ne p rest e = cc

check_org-allowed_iff :
    (id role : Option String) (ps : List OrgPermission)
    → (id ≡ none → role ≡ none)
    → (check_org id role ps ≡ allowed)
      ↔ ((found : String) × (role ≡ some found) × Covers (org_granted found) org_value ps)
unfolding check_org
check_org-allowed_iff none role ps absent = (λ e. cc, λ h. cc (absent refl, h.1))
check_org-allowed_iff (some i) none ps absent = (λ e. cc, λ h. cc (h.1))
check_org-allowed_iff (some i) (some found) ps absent =
    let (to, from) = deny_if-missing missing_org (org_granted found) org_value missing_org-ne ps in
    (
      λ e. (found, refl, to e),
      λ h. from (subst (λ x. Covers (org_granted x) org_value ps) (sym (some_inj.0 h.1)) h.2),
    )

check_workspace-allowed_iff :
    (id role : Option String) (admin : Bool) (ps : List WorkspacePermission)
    → (id ≡ none → role ≡ none)
    → (check_workspace id role admin ps ≡ allowed) ↔ (
        (found : String) × (role ≡ some found)
        × ((admin ≡ true) ⊎ Covers (ws_granted found) ws_value ps))
unfolding check_workspace
check_workspace-allowed_iff none role admin ps absent = (λ e. cc, λ h. cc (absent refl, h.1))
check_workspace-allowed_iff (some i) none admin ps absent = (λ e. cc, λ h. cc (h.1))
check_workspace-allowed_iff (some i) (some found) true ps absent =
    (λ e. (found, refl, inl refl), λ h. refl)
check_workspace-allowed_iff (some i) (some found) false ps absent =
    let (to, from) =
      deny_if-missing missing_workspace (ws_granted found) ws_value missing_workspace-ne ps in
    (
      λ e. (found, refl, inr (to e)),
      λ h. elim h.2 [
        | inl e ↦ cc
        | inr c ↦ from (subst (λ x. Covers (ws_granted x) ws_value ps) (sym (some_inj.0 h.1)) c)
      ],
    )

role_of-none :
    (id : Option String) (roles : List (String × String)) → id ≡ none → role_of id roles ≡ none
unfolding role_of
role_of-none none roles e = refl
role_of-none (some i) roles e = cc

decide_route-allowed_iff :
    (access : RouteAccess) (u : User) (r : Request)
    → (decide_route access u r ≡ allowed) ↔ Holds access u r
unfolding decide_route
decide_route-allowed_iff everyone u r = (λ _. tt, λ _. refl)
decide_route-allowed_iff jwt u r = (λ _. tt, λ _. refl)
decide_route-allowed_iff (org ps) u r =
    let (to, from) =
      check_org-allowed_iff (organization_id r) (role_of (organization_id r) u.org_roles) ps
        (role_of-none (organization_id r) u.org_roles) in
    let found = role_of-Finds (organization_id r) u.org_roles in
    (
      λ e. let (role, has, covers) = to e in (role, (found role).0 has, covers),
      λ (role, finds, covers). from (role, (found role).1 finds, covers),
    )
decide_route-allowed_iff (workspace ps) u r =
    let (to, from) =
      check_workspace-allowed_iff (workspace_id r) (role_of (workspace_id r) u.workspace_roles)
        (is_org_admin u) ps (role_of-none (workspace_id r) u.workspace_roles) in
    let found = role_of-Finds (workspace_id r) u.workspace_roles in
    (
      λ e. let (role, has, held) = to e in (role, (found role).0 has, held),
      λ (role, finds, held). from (role, (found role).1 finds, held),
    )

enforce_for-allowed_iff :
    (access : RouteAccess) (user : Option User) (r : Request)
    → ((enforce_for access user r).0 ≡ allowed) ↔ ((u : User) × (user ≡ some u) × Holds access u r)
unfolding enforce_for
enforce_for-allowed_iff jwt none r = (λ e. cc, λ h. cc (h.1))
enforce_for-allowed_iff jwt (some u) r = (λ e. (u, refl, tt), λ h. refl)
enforce_for-allowed_iff access none r = (λ e. cc, λ h. cc (h.1))
enforce_for-allowed_iff access (some u) r = (
  λ e. (u, refl, (decide_route-allowed_iff access u r).0 e),
  λ h.
      (decide_route-allowed_iff access u r).1
        (subst (λ x. Holds access x r) (sym (some_inj.0 h.1)) h.2),
)

-- A request is let through exactly when the route is public, or when a user is authenticated and:
-- on an organization route the request names an organization in which the user has a role, and
-- the role grants every permission of the route; on a workspace route it names a workspace in
-- which the user has a role, and the role grants every permission of the route or the user is
-- an administrator of some organization. Where the user has no role, a name that every object
-- inherits counts as one, which grants no permission.
pub enforce-allowed_iff :
    (access : RouteAccess) (r : Request) → ((enforce access r).0 ≡ allowed) ↔ IsPermitted access r
unfolding enforce
enforce-allowed_iff everyone r = (λ _. tt, λ _. refl)
enforce-allowed_iff access r = enforce_for-allowed_iff access r.user r
