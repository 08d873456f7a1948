-- ===== src/Workflows/Assignment/Picking.antt =====
-- Whom an assignment picks (`handleAssignTo` of
-- src/modules/workflows/workflow-engine.service.ts).
use desk_be.Common.{
  String, List, [], ◌∷◌, Bool, true, false, Option, none, some, str_eq, contains, any, all, get_or,
  truthy, is_some, leb, not, ◌||◌, ◌⊎◌, if◌then◌else◌, ◌≡◌, refl, sym, ap, ◌∙◌, Bool-cases, inl,
  inr, arith,
}
use desk_be.Workflows.Assignment.{
  Desk, Member, Settings, count_open, eligible_agents, take_turn, pick_agent, least, increment,
}
use desk_be.Workflows.Assignment.Eligible.{
  is_fit, eligible_agents-is_fit, least-IsLeast, at-contains, pick_agent-is_some, is_fit-truthy,
}
use desk_be.Workflows.Assignment.Outcomes.{
  chosen_team, is_specific, IsNamed, fits, has_fewest, may_take, nobody_fits, Same,
}

all-of : (p : Member → Bool) → ((m : Member) → p m ≡ true) → (ms : List Member) → all p ms ≡ true
all-of p h [] = refl
all-of p h (m ∷ ms) = ground (arith, h m, all-of p h ms)

module _ (workspace contact : String) (s : Settings) (d : Desk) where
  pub pick-Same :
      (agents : List String) (logic : String)
      → Same workspace contact s d (pick_agent agents workspace logic d).1
  unfolding pick_agent take_turn increment
  pick-Same [] logic = (refl, refl)
  pick-Same (a ∷ agents) logic = elim (Bool-cases (str_eq logic "round_robin")) [
    | inl e ↦ rw (e) (refl, refl)
    | inr e ↦ rw (e) (refl, refl)
  ]

  fewest :
      (agents : List String) (user : String)
      → ((u : String) → contains agents u ≡ fits workspace contact s d u)
      → ((other : String)
          → contains agents other ≡ true
          → leb (count_open workspace user d.contacts) (count_open workspace other d.contacts)
            ≡ true)
      → has_fewest workspace contact s d user ≡ true
  unfolding has_fewest
  fewest agents user same h =
      all-of _ (λ m. one m (Bool-cases (fits workspace contact s d m.user_id))) d.members
    where
      one :
          (m : Member)
          → (fits workspace contact s d m.user_id ≡ true)
            ⊎ (fits workspace contact s d m.user_id ≡ false)
          → (not (fits workspace contact s d m.user_id)
              || leb
                  (count_open workspace user d.contacts)
                  (count_open workspace m.user_id d.contacts))
            ≡ true
      one m (inl e) = rw (e, h m.user_id (same m.user_id ∙ e)) refl
      one m (inr e) = rw (e) refl

  agent_may_take :
      (user : String)
      → is_specific s ≡ false
      → fits workspace contact s d user ≡ true
      → (str_eq (get_or s.assignment_logic "round_robin") "round_robin"
          || has_fewest workspace contact s d user)
        ≡ true
      → may_take workspace contact s d user ≡ true
  unfolding may_take
  agent_may_take user other f g = rw (other, f) g

  if-may_take :
      (b : Bool) (turn least : Option String × Desk) (user : String)
      → (turn.0 ≡ some user → fits workspace contact s d user ≡ true)
      → (least.0 ≡ some user
          → (fits workspace contact s d user ≡ true)
            × (has_fewest workspace contact s d user ≡ true))
      → (if b then turn else least).0 ≡ some user
      → (fits workspace contact s d user ≡ true)
        × ((b || has_fewest workspace contact s d user) ≡ true)
  if-may_take true turn least user f g h = (f h, refl)
  if-may_take false turn least user f g h = g h

  pub pick-may_take :
      (agents : List String) (user : String)
      → is_specific s ≡ false
      → ((u : String) → contains agents u ≡ fits workspace contact s d u)
      → (pick_agent agents workspace (get_or s.assignment_logic "round_robin") d).0 ≡ some user
      → (fits workspace contact s d user ≡ true) × (may_take workspace contact s d user ≡ true)
  unfolding pick_agent take_turn
  pick-may_take [] user other same h = ground (arith, h)
  pick-may_take (a ∷ agents) user other same h =
      let (f, g) =
        if-may_take (str_eq (get_or s.assignment_logic "round_robin") "round_robin")
          (take_turn (a ∷ agents) workspace d)
          (least (λ u. count_open workspace u d.contacts) (a ∷ agents), d) user
          (λ k. sym (same user) ∙ at-contains _ (a ∷ agents) user k)
          (λ k.
            let (c, l) = least-IsLeast _ (a ∷ agents) user k in
            (sym (same user) ∙ c, fewest (a ∷ agents) user same l))
          h in
      (f, agent_may_take user other f g)

  -- nobody is picked where nobody fits
  pub pick_none :
      (agents : List String)
      → ((u : String) → contains agents u ≡ fits workspace contact s d u)
      → (pick_agent agents workspace (get_or s.assignment_logic "round_robin") d).0 ≡ none
      → nobody_fits workspace contact s d ≡ true
  unfolding nobody_fits
  pick_none [] same h = none_of d.members
    where
      none_of : (ms : List Member) → not (any (λ m. fits workspace contact s d m.user_id) ms) ≡ true
      none_of [] = refl
      none_of (m ∷ ms) = rw (sym (same m.user_id)) (none_of ms)
  pick_none (a ∷ agents) same h = ground (
    arith,
    sym (ap is_some h)
        ∙ pick_agent-is_some a agents workspace (get_or s.assignment_logic "round_robin") d,
  )

  pub fits-truthy :
      (u : String) → IsNamed d → fits workspace contact s d u ≡ true → truthy (some u) ≡ true
  unfolding fits
  fits-truthy u named h =
      is_fit-truthy workspace (chosen_team s) s.only_online_users s.max_open_contacts d u named h

  pub eligible-fits :
      (team : Option String)
      → team ≡ chosen_team s
      → (u : String)
      → contains (eligible_agents workspace team s.only_online_users s.max_open_contacts d) u
        ≡ fits workspace contact s d u
  unfolding fits
  eligible-fits team t u =
      eligible_agents-is_fit workspace team s.only_online_users s.max_open_contacts d u
      ∙ ap (λ o. is_fit workspace o s.only_online_users s.max_open_contacts d u) t
