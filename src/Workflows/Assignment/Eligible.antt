-- ===== src/Workflows/Assignment/Eligible.antt =====
-- Whom an assignment may choose (`getEligibleAgents`, `pickAgent` of
-- src/modules/workflows/workflow-engine.service.ts), told without the lists that the code builds.
use desk_be.Common.{
  ℕ, zero, suc, ◌%◌, String, List, [], ◌∷◌, map, Bool, true, false, Option, none, some, str_eq,
  opt_eq, contains, keep, any, all, is_some, length, ◌<◌, truthy, leb, not, ◌&&◌, ◌||◌,
  if◌then◌else◌, ◌≡◌, refl, sym, ap, ◌∙◌, Option-cases, eq_iff, Bool-cases, inl, inr, arith,
}
use native.Mathlib.Nat.{mod-lt}
use desk_be.Workflows.Assignment.{
  Desk, Member, TeamMember, count_open, in_team, is_candidate, has_room, eligible_agents, at, least,
  take_turn, pick_agent, incremented,
}

-- a member of the workspace who is active
unfoldable pub is_colleague : String → String → Member → Bool
is_colleague workspace user m =
    str_eq m.workspace_id workspace && str_eq m.user_id user && str_eq m.status "active"

unfoldable pub is_on_team : Option String → Desk → String → Bool
is_on_team team d user =
    not (truthy team) || any (λ t. opt_eq team t.team_id && str_eq t.user_id user) d.team_members

-- An agent of the workspace, active, online where that is asked, in the team where there is one,
-- and with fewer open contacts than the limit where there is one.
unfoldable pub is_fit : String → Option String → Bool → Option ℕ → Desk → String → Bool
unfolding is_colleague is_on_team has_room
is_fit workspace team only_online max_open d user =
    any
      (λ m.
        is_colleague workspace user m
        && str_eq m.role "agent"
        && (not only_online || str_eq m.availability "online"))
      d.members
    && is_on_team team d user
    && has_room workspace max_open d user

contains-in_team :
    (team user : String) (rows : List TeamMember)
    → contains (in_team team rows) user
      ≡ any (λ t. str_eq team t.team_id && str_eq t.user_id user) rows
unfolding in_team
contains-in_team team user [] = refl
contains-in_team team user (t ∷ rows) =
    ground (arith, contains-in_team team user rows, eq_iff team t.team_id, eq_iff t.team_id team)

-- the users that two filters let through
contains-keep :
    (p : String → Bool) (q : Member → Bool) (user : String) (members : List Member)
    → contains (keep p (map (λ m. m.user_id) (keep q members))) user
      ≡ (any (λ m. str_eq m.user_id user && q m) members && p user)
contains-keep p q user [] = refl
contains-keep p q user (m ∷ members) =
    ground (arith, contains-keep p q user members, eq_iff m.user_id user)

any-and :
    {A : Type 0} (f g : A → Bool) (b : Bool)
    → ((a : A) → f a ≡ (g a && b))
    → (xs : List A) → any f xs ≡ (any g xs && b)
any-and f g b h [] = refl
any-and f g b h (x ∷ xs) = ground (arith, h x, any-and f g b h xs)

-- the test of the team is the same for every member of this user
candidate_team :
    (workspace : String) (team : Option String) (only_online : Bool) (d : Desk) (user : String)
    (m : Member)
    → (str_eq m.user_id user && is_candidate workspace team only_online d m) ≡ (
        (is_colleague workspace user m
          && str_eq m.role "agent"
          && (not only_online || str_eq m.availability "online"))
        && is_on_team team d user)
unfolding is_candidate is_colleague is_on_team
candidate_team workspace none only_online d user m = ground arith
candidate_team workspace (some t) only_online d user m = elim (Bool-cases (str_eq t "")) [
  | inl e ↦ rw (e) (ground arith)
  | inr e ↦
      rw (e) (ground (arith, eq_iff m.user_id user, contains-in_team t m.user_id d.team_members))
]

pub eligible_agents-is_fit :
    (workspace : String) (team : Option String) (only_online : Bool) (max_open : Option ℕ)
    (d : Desk) (user : String)
    → contains (eligible_agents workspace team only_online max_open d) user
      ≡ is_fit workspace team only_online max_open d user
unfolding eligible_agents is_fit is_candidate is_colleague
eligible_agents-is_fit workspace team only_online max_open d user =
    contains-keep (has_room workspace max_open d) (is_candidate workspace team only_online d) user
      d.members
    ∙ ap (λ b. b && has_room workspace max_open d user)
        (any-and _ _ (is_on_team team d user) (candidate_team workspace team only_online d user)
          d.members)
    ∙ ground arith

-- the choice between an agent and the least of those behind
abbrev preferred : (String → ℕ) → String → Option String → Option String
preferred count a none = some a
preferred count a (some b) = if leb (count a) (count b) then some a else some b

least-suc :
    (count : String → ℕ) (a : String) (agents : List String)
    → least count (a ∷ agents) ≡ preferred count a (least count agents)
unfolding least
least-suc count a agents = elim (Option-cases (least count agents)) [
  | inl e ↦ rw (e) refl
  | inr (b, e) ↦ rw (e) refl
]

least-none :
    (count : String → ℕ) (agents : List String) (other : String)
    → least count agents ≡ none
    → contains agents other ≡ false
least-none count [] other h = refl
least-none count (a ∷ agents) other h =
    let chosen : preferred count a (least count agents) ≡ none =
      sym (least-suc count a agents) ∙ h in
    elim (Option-cases (least count agents)) [
      | inl e ↦ ground (arith, chosen, e)
      | inr (b, e) ↦ ground (arith, chosen, e)
    ]

-- One of the agents is picked, and none of them has fewer open contacts.
abbrev pub IsLeast : (String → ℕ) → List String → String → Type 0
IsLeast count agents user =
    (contains agents user ≡ true)
    × ((other : String) → contains agents other ≡ true → leb (count user) (count other) ≡ true)

preferred-IsLeast :
    (count : String → ℕ) (a : String) (agents : List String) (user : String) (o : Option String)
    → least count agents ≡ o
    → ((b : String) → o ≡ some b → IsLeast count agents b)
    → preferred count a o ≡ some user
    → IsLeast count (a ∷ agents) user
preferred-IsLeast count a agents user none e ih h = (
  ground (arith, h, eq_iff a user),
  λ other k. ground (arith, h, k, eq_iff a other, least-none count agents other e),
)
preferred-IsLeast count a agents user (some b) e ih h = (
  ground (arith, h, eq_iff a user, (ih b refl).0),
  λ other k. ground (arith, h, k, eq_iff a other, (ih b refl).1 other),
)

pub least-IsLeast :
    (count : String → ℕ) (agents : List String) (user : String)
    → least count agents ≡ some user
    → IsLeast count agents user
unfolding least
least-IsLeast count [] user h = ground (arith, h)
least-IsLeast count (a ∷ agents) user h =
    preferred-IsLeast count a agents user (least count agents) refl
      (λ b e. least-IsLeast count agents b e) (sym (least-suc count a agents) ∙ h)

pub at-contains :
    (n : ℕ) (agents : List String) (user : String)
    → at n agents ≡ some user
    → contains agents user ≡ true
at-contains n [] user h = ground (arith, h)
at-contains zero (a ∷ agents) user h = ground (arith, h, eq_iff a user)
at-contains (suc n) (a ∷ agents) user h = ground (arith, at-contains n agents user h)

at-is_some : (n : ℕ) (agents : List String) → n < length agents → is_some (at n agents) ≡ true
at-is_some n [] h = ground (arith, h)
at-is_some zero (a ∷ agents) h = refl
at-is_some (suc n) (a ∷ agents) h = at-is_some n agents (ground (arith, h))

least-is_some :
    (count : String → ℕ) (a : String) (agents : List String)
    → is_some (least count (a ∷ agents)) ≡ true
least-is_some count a agents = ap is_some (least-suc count a agents) ∙ chosen (least count agents)
  where
    chosen : (o : Option String) → is_some (preferred count a o) ≡ true
    chosen none = refl
    chosen (some b) = ground arith

-- someone is picked where there is someone
pub pick_agent-is_some :
    (a : String) (agents : List String) (workspace logic : String) (d : Desk)
    → is_some (pick_agent (a ∷ agents) workspace logic d).0 ≡ true
unfolding pick_agent take_turn
pick_agent-is_some a agents workspace logic d = elim (Bool-cases (str_eq logic "round_robin")) [
  | inl e ↦ rw (e) (
      at-is_some (incremented workspace d % length (a ∷ agents)) (a ∷ agents)
        (mod-lt (incremented workspace d) (ground arith)))
  | inr e ↦ rw (e) (least-is_some (λ user. count_open workspace user d.contacts) a agents)
]

-- where members have ids, so has who fits
pub is_fit-truthy :
    (workspace : String) (team : Option String) (only_online : Bool) (max_open : Option ℕ)
    (d : Desk) (user : String)
    → all (λ m. not (str_eq m.user_id "")) d.members ≡ true
    → is_fit workspace team only_online max_open d user ≡ true
    → truthy (some user) ≡ true
unfolding is_fit is_colleague
is_fit-truthy workspace team only_online max_open d user ids h =
    found d.members ids (ground (arith, h))
  where
    found :
        (ms : List Member)
        → all (λ m. not (str_eq m.user_id "")) ms ≡ true
        → any
            (λ m.
              is_colleague workspace user m
              && str_eq m.role "agent"
              && (not only_online || str_eq m.availability "online"))
            ms
          ≡ true
        → truthy (some user) ≡ true
    found [] ids h = ground (arith, h)
    found (m ∷ ms) ids h = ground (arith, ids, h, found ms, eq_iff m.user_id user)
