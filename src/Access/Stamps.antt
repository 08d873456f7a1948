-- ===== src/Access/Stamps.antt =====
-- What the guard stamps on a request.
use mathlib.Core.Path.{subst}
use desk_be.Common.{
  String, List, Option, none, some, ◌≡◌, refl, sym, lookup, present, Option-cases, inl, inr, ap,
  ◌⊎◌,
}
use desk_be.Access.{
  RouteAccess, everyone, jwt, User, Request, unauthorized, read_entry, role_of, stamp, stamped,
  organization_id, workspace_id, enforce_for, enforce,
}
use desk_be.Access.Found.{Has, present-eq-some, read_entry-Has}

-- A stamp is the old one, or a pair of the identifier that the request asks for and what the user
-- has there.
abbrev pub IsGenuine :
    Option String
    → List (String × String)
    → Option (String × String)
    → Option (String × String)
    → Type 0
IsGenuine id roles old new =
    (new ≡ old)
    ⊎ ((i : String) × (role : String) × (id ≡ some i) × Has roles i role × (new ≡ some (i, role)))

stamp-IsGenuine :
    (id : Option String) (roles : List (String × String)) (old : Option (String × String))
    → IsGenuine id roles old (stamp id (role_of id roles) old)
unfolding stamp role_of
stamp-IsGenuine none roles old = inl refl
stamp-IsGenuine (some i) roles old = elim (Option-cases (present (read_entry (lookup i roles) i))) [
  | inl absent ↦ inl (rw absent)
  | inr (role, found) ↦ inr (
    i,
    role,
    refl,
    read_entry-Has (lookup i roles) roles i refl (present-eq-some _ found),
    rw found,
  )
]

-- What a call of the guard leaves on the request, at the user of the request.
pub record Stamped (u : User) (before after : Request) : Type 0 where
  pub organization :
      IsGenuine (organization_id before) u.org_roles before.organization after.organization
  pub workspace : IsGenuine (workspace_id before) u.workspace_roles before.workspace after.workspace
  pub user : after.user ≡ before.user

enforce_for-Stamped :
    (access : RouteAccess) (u : User) (r : Request) → Stamped u r (enforce_for access (some u) r).1
unfolding enforce_for stamped
enforce_for-Stamped jwt u r = record { organization = inl refl; workspace = inl refl; user = refl }
enforce_for-Stamped access u r = record {
  organization = stamp-IsGenuine (organization_id r) u.org_roles r.organization;
  workspace = stamp-IsGenuine (workspace_id r) u.workspace_roles r.workspace;
  user = refl;
}

enforce_for-none :
    (access : RouteAccess) (r : Request) → enforce_for access none r ≡ (unauthorized, r)
unfolding enforce_for
enforce_for-none jwt r = refl
enforce_for-none access r = refl

-- Whether it lets a request through or throws, the guard stamps an organization and a workspace
-- only where the request names them, with the role that the user holds there or, if the user holds
-- none and the name is that of a property of Object.prototype, with the value of that property; it
-- leaves the user as it is, and without a user it leaves the whole request.
pub enforce-Stamped :
    (access : RouteAccess) (r : Request)
    → ((u : User) → r.user ≡ some u → Stamped u r (enforce access r).1)
      × (r.user ≡ none → (enforce access r).1 ≡ r)
unfolding enforce
enforce-Stamped everyone r =
    (λ u e. record { organization = inl refl; workspace = inl refl; user = refl }, λ e. refl)
enforce-Stamped access r = (
  λ u e.
      subst (λ o. Stamped u r (enforce_for access o r).1) (sym e) (enforce_for-Stamped access u r),
  λ e.
      subst (λ o. (enforce_for access o r).1 ≡ r) (sym e)
        (ap (λ x. x.1) (enforce_for-none access r)),
)
