-- ===== src/Workflows/Assignment/Sound.antt =====
-- What an assignment does, on every branch (`handleAssignTo` of
-- src/modules/workflows/workflow-engine.service.ts).
use desk_be.Common.{
  String, List, [], ◌∷◌, true, false, Option, none, some, str_eq, opt_eq, any, find, get_or, truthy,
  present, is_some, ◌&&◌, ◌≡◌, refl, sym, ap, ◌∙◌, eq_iff, arith,
}
use desk_be.Workflows.Assignment.{
  Desk, Member, Settings, skipped, conclude, assign_user, assign_agent, assign_to,
}
use desk_be.Workflows.Assignment.Eligible.{is_colleague}
use desk_be.Workflows.Assignment.Outcomes.{
  chosen_team, is_specific, IsNamed, present-truthy, may_take, Accepts, Accepts-if, Accepts-option,
  write-Accepts, conclude-Accepts,
}
use desk_be.Workflows.Assignment.Picking.{
  pick-Same, pick-may_take, pick_none, fits-truthy, eligible-fits,
}

module _ (workspace contact : String) (s : Settings) (d : Desk) where
  agent-Accepts :
      (team : Option String)
      → IsNamed d
      → is_specific s ≡ false
      → team ≡ chosen_team s
      → Accepts workspace contact s d (assign_agent workspace contact team s d)
  unfolding assign_agent
  agent-Accepts team named other t =
      let same = eligible-fits workspace contact s d team t in
      conclude-Accepts workspace contact s d team _ _
        (pick-Same workspace contact s d _ (get_or s.assignment_logic "round_robin")) t
        (pick_none workspace contact s d _ same)
        (λ u h.
          let (f, g) = pick-may_take workspace contact s d _ u other same h in
          (fits-truthy workspace contact s d u named f, g))

  user_may_take :
      (u : String)
      → is_specific s ≡ true
      → present s.user_id ≡ some u
      → any (is_colleague workspace u) d.members ≡ true
      → may_take workspace contact s d u ≡ true
  unfolding may_take
  user_may_take u specific e h = rw (specific, h, present_eq s.user_id e) refl
    where
      present_eq : (o : Option String) → present o ≡ some u → opt_eq o u ≡ true
      present_eq none e = ground (arith, e)
      present_eq (some v) e = ground (arith, e, eq_iff v u)

  colleague_found :
      (u : String) (ms : List Member)
      → is_some (
          find
            (λ m. str_eq m.workspace_id workspace && str_eq m.user_id u && str_eq m.status "active")
            ms)
        ≡ any (is_colleague workspace u) ms
  unfolding is_colleague
  colleague_found u [] = refl
  colleague_found u (m ∷ ms) = ground (arith, colleague_found u ms)

  user-Accepts :
      is_specific s ≡ true
      → none ≡ chosen_team s
      → Accepts workspace contact s d (assign_user workspace contact s.user_id d)
  unfolding assign_user Accepts
  user-Accepts specific t =
      Accepts-option workspace contact s d (present s.user_id) _ _ (refl, refl, refl)
        (λ u e.
          Accepts-if workspace contact s d
            (is_some (
              find
                (λ m.
                  str_eq m.workspace_id workspace && str_eq m.user_id u && str_eq m.status "active")
                d.members))
            (conclude workspace contact none (some u, d))
            (skipped "selected user is not an active workspace member", d)
            (λ b.
              conclude-Accepts workspace contact s d none (some u) d (refl, refl) t
                (λ k. ground (arith, k))
                (λ v same. (
                  sym (ap (λ o. truthy (some (get_or o u))) same) ∙ present-truthy s.user_id u e,
                  sym (ap (λ o. may_take workspace contact s d (get_or o u)) same)
                      ∙ user_may_take u specific e (sym (colleague_found u d.members) ∙ b),
                )))
            (λ b. (refl, refl, refl)))

no_team : (s : Settings) → opt_eq s.action "user_in_team" ≡ false → none ≡ chosen_team s
no_team s h = rw (h) refl

the_team :
    (s : Settings) (t : String)
    → opt_eq s.action "user_in_team" ≡ true
    → present s.team_id ≡ some t
    → some t ≡ chosen_team s
the_team s t h e = rw (h) (sym e)

another_action :
    (o : Option String) (a b : String) → str_eq a b ≡ false → opt_eq o a ≡ true → opt_eq o b ≡ false
another_action none a b d h = refl
another_action (some c) a b d h = ground (arith, d, h, eq_iff c a)

-- If no member has the empty id, an assignment either leaves contacts and activities, for want of an
-- eligible assignee only where nobody fits, or gives the contact the team that the step names and an
-- assignee: the user of the step, an active member of the workspace; or an active agent of the
-- workspace and the team, online and with room if the step asks for it, who has the fewest open
-- contacts of all who fit unless agents take turns; or no one, if the step unassigns. A contact that
-- is not there is the one error, and changes nothing.
pub assign_to-Accepts :
    (workspace contact : String) (s : Settings) (d : Desk)
    → IsNamed d
    → Accepts workspace contact s d (assign_to workspace contact s d)
unfolding assign_to Accepts is_specific
assign_to-Accepts workspace contact s d named =
    Accepts-if workspace contact s d (opt_eq s.action "specific_user") _ _
      (λ b.
        user-Accepts workspace contact s d b
          (no_team s (another_action s.action "specific_user" "user_in_team" refl b)))
      (λ b.
        Accepts-if workspace contact s d (opt_eq s.action "user_in_team") _ _
          (λ c.
            Accepts-option workspace contact s d (present s.team_id) _ _ (refl, refl, refl)
              (λ t e. agent-Accepts workspace contact s d (some t) named b (the_team s t c e)))
          (λ c.
            Accepts-if workspace contact s d (opt_eq s.action "user_in_workspace") _ _
              (λ a. agent-Accepts workspace contact s d none named b (no_team s c))
              (λ a.
                Accepts-if workspace contact s d (opt_eq s.action "unassign") _ _
                  (λ u.
                    write-Accepts workspace contact s d "unassigned" none none d (refl, refl)
                      (no_team s c) u)
                  (λ u. (refl, refl, refl)))))
