-- ===== src/Access/Promotion.antt =====
-- The workspace roles form a ladder: what a role may do, each higher role may do.
use mathlib.Core.Path.{subst}
use mathlib.Core.Bool.{and-eq-true_iff, false≢true}
use mathlib.Core.Option.{some_inj}
use desk_be.Common.{
  String, List, [], ◌∷◌, true, false, some, ◌≡◌, ◌∙◌, sym, inl, inr, contains, all, refl, str_eq,
  eq_iff, Bool-cases,
}
use desk_be.Access.Roles.{WorkspacePermission, ws_value, ws_granted}
use desk_be.Access.{workspace, User, Request, allowed, role_of, is_org_admin, workspace_id, enforce}
use desk_be.Access.Found.{role_of-Finds}
use desk_be.Access.Permitted.{Covers, enforce-allowed_iff}

-- `Outranks a b`: `a` is the higher role.
pub data Outranks : String → String → Type 0 where
  manager_agent : Outranks "WS_MANAGER" "WS_AGENT"
  owner_manager : Outranks "WS_OWNER" "WS_MANAGER"
  owner_agent : Outranks "WS_OWNER" "WS_AGENT"

contains_mono :
    (low high : List String) (s : String)
    → all (contains high) low ≡ true
    → contains low s ≡ true
    → contains high s ≡ true
contains_mono [] high s sub h = cc
contains_mono (x ∷ low) high s sub h =
    let (here, later) = (and-eq-true_iff _ _).0 sub in
    elim (Bool-cases (str_eq x s)) [
      | inl same ↦ subst (λ t. contains high t ≡ true) ((eq_iff x s).0 same) here
      | inr other ↦ contains_mono low high s later (rw other at h)
    ]

ws_granted_mono :
    {high low : String} (p : WorkspacePermission)
    → Outranks high low
    → contains (ws_granted low) (ws_value p) ≡ true
    → contains (ws_granted high) (ws_value p) ≡ true
unfolding ws_granted
ws_granted_mono p manager_agent h =
    contains_mono (ws_granted "WS_AGENT") (ws_granted "WS_MANAGER") (ws_value p) refl h
ws_granted_mono p owner_manager h =
    contains_mono (ws_granted "WS_MANAGER") (ws_granted "WS_OWNER") (ws_value p) refl h
ws_granted_mono p owner_agent h =
    contains_mono (ws_granted "WS_AGENT") (ws_granted "WS_OWNER") (ws_value p) refl h

Covers-mono :
    {high low : String} (ps : List WorkspacePermission)
    → Outranks high low
    → Covers (ws_granted low) ws_value ps
    → Covers (ws_granted high) ws_value ps
Covers-mono [] o h = tt
Covers-mono (p ∷ ps) o (here, later) = (ws_granted_mono p o here, Covers-mono ps o later)

-- Whatever a workspace route lets a user do in a workspace by a role, it lets any user do there
-- by a higher role: a manager may do all that an agent may, and an owner all that either may.
pub enforce-promotion :
    {high low : String} (ps : List WorkspacePermission) (r : Request) (u v : User)
    → Outranks high low
    → r.user ≡ some u
    → role_of (workspace_id r) u.workspace_roles ≡ some low
    → is_org_admin u ≡ false
    → role_of (workspace_id r) v.workspace_roles ≡ some high
    → (enforce (workspace ps) r).0 ≡ allowed
    → (enforce (workspace ps) (record r { user = some v })).0 ≡ allowed
enforce-promotion {high} {low} ps r u v o same has plain got e =
    let (w, found, (role, finds, held)) = (enforce-allowed_iff (workspace ps) r).0 e in
    let has' = (role_of-Finds (workspace_id r) w.workspace_roles role).1 finds in
    let u≡w : u ≡ w = some_inj.0 (sym same ∙ found) in
    let low≡role : low ≡ role = some_inj.0 (
      sym has
      ∙ subst (λ x. role_of (workspace_id r) x.workspace_roles ≡ some role) (sym u≡w) has') in
    (enforce-allowed_iff (workspace ps) (record r { user = some v })).1 (
      v,
      refl,
      (
        high,
        (role_of-Finds (workspace_id r) v.workspace_roles high).0 got,
        elim held [
          | inl admin ↦
              absurd (false≢true (sym plain ∙ subst (λ x. is_org_admin x ≡ true) (sym u≡w) admin))
          | inr covers ↦ inr (
              Covers-mono ps o
                (subst (λ x. Covers (ws_granted x) ws_value ps) (sym low≡role) covers))
        ],
      ),
    )
