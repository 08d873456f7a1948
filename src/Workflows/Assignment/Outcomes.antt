-- ===== src/Workflows/Assignment/Outcomes.antt =====
-- What an assignment may do (`handleAssignTo` of
-- src/modules/workflows/workflow-engine.service.ts).
use desk_be.Common.{
  String, Bool, true, false, Option, none, some, str_eq, opt_eq, any, all, find, get_or, truthy,
  present, is_some, leb, not, ◌&&◌, ◌||◌, if◌then◌else◌, ◌≡◌, refl, sym, ap, ◌∙◌, eq_iff, arith,
}
use desk_be.Workflows.Assignment.{
  Desk, Settings, Outcome, assigned, skipped, not_found, count_open, assign_contact, write,
  conclude,
}
use desk_be.Workflows.Assignment.Eligible.{is_colleague, is_fit}

-- the team that the contact gets
abbrev pub chosen_team : Settings → Option String
chosen_team s = if opt_eq s.action "user_in_team" then present s.team_id else none

unfoldable pub is_specific : Settings → Bool
is_specific s = opt_eq s.action "specific_user"

-- no member has the empty text for an id, as ids are those of the database
abbrev pub IsNamed : Desk → Type 0
IsNamed d = all (λ m. not (str_eq m.user_id "")) d.members ≡ true

pub present-truthy : (o : Option String) (u : String) → present o ≡ some u → truthy (some u) ≡ true
present-truthy none u e = ground (arith, e)
present-truthy (some v) u e = ground (arith, e, eq_iff u v)

module _ (workspace contact : String) (s : Settings) (d : Desk) where
  unfoldable pub fits : String → Bool
  unfolding is_fit
  fits = is_fit workspace (chosen_team s) s.only_online_users s.max_open_contacts d

  -- whether no one else who fits has fewer open contacts
  unfoldable pub has_fewest : String → Bool
  unfolding fits count_open
  has_fewest user =
      all
        (λ m.
          not (fits m.user_id)
          || leb (count_open workspace user d.contacts) (count_open workspace m.user_id d.contacts))
        d.members

  -- Who may be given the contact: the user of the step, if a colleague; else an agent who fits,
  -- and who has the fewest open contacts unless agents take turns.
  unfoldable pub may_take : String → Bool
  unfolding is_specific is_colleague fits has_fewest
  may_take user =
      if is_specific s
      then opt_eq s.user_id user && any (is_colleague workspace user) d.members
      else fits user
        && (str_eq (get_or s.assignment_logic "round_robin") "round_robin" || has_fewest user)

  unfoldable pub nobody_fits : Bool
  unfolding fits
  nobody_fits = not (any (λ m. fits m.user_id) d.members)

  -- what a step may end with
  unfoldable pub Accepts : Outcome × Desk → Type 0
  unfolding may_take assign_contact nobody_fits
  Accepts (assigned user team, e) =
      (e.contacts ≡ assign_contact contact user team d.contacts)
      × (team ≡ chosen_team s)
      × (elim user [ none ↦ opt_eq s.action "unassign" | some u ↦ may_take u ] ≡ true)
  Accepts (skipped reason, e) =
      (e.contacts ≡ d.contacts)
      × (e.entries ≡ d.entries)
      × ((not (str_eq reason "no eligible assignee found") || nobody_fits) ≡ true)
  Accepts (not_found, e) =
      (e.contacts ≡ d.contacts)
      × (e.entries ≡ d.entries)
      × (is_some (find (λ c. str_eq c.id contact) d.contacts) ≡ false)

  pub Accepts-if :
      (b : Bool) (x y : Outcome × Desk)
      → (b ≡ true → Accepts x)
      → (b ≡ false → Accepts y)
      → Accepts (if b then x else y)
  Accepts-if true x y h k = h refl
  Accepts-if false x y h k = k refl

  -- the tables that an assignment starts from
  abbrev pub Same : Desk → Type 0
  Same e = (e.contacts ≡ d.contacts) × (e.entries ≡ d.entries)

  abbrev pub Allowed : Option String → Type 0
  Allowed user = elim user [ none ↦ opt_eq s.action "unassign" | some u ↦ may_take u ] ≡ true

  pub write-Accepts :
      (event : String) (user team : Option String) (e : Desk)
      → Same e
      → team ≡ chosen_team s
      → Allowed user
      → Accepts (write workspace contact event user team e)
  unfolding write Accepts
  write-Accepts event user team e (cs, es) t h =
      Accepts-if (is_some (find (λ c. str_eq c.id contact) e.contacts)) _ _
        (λ b. (ap (assign_contact contact user team) cs, t, h))
        (λ b. (cs, es, ap (λ l. is_some (find (λ c. str_eq c.id contact) l)) (sym cs) ∙ b))

  pub conclude-Accepts :
      (team user : Option String) (e : Desk)
      → Same e
      → team ≡ chosen_team s
      → (user ≡ none → nobody_fits ≡ true)
      → ((u : String) → user ≡ some u → (truthy (some u) ≡ true) × (may_take u ≡ true))
      → Accepts (conclude workspace contact team (user, e))
  unfolding conclude Accepts
  conclude-Accepts team none e (cs, es) t n h = (cs, es, n refl)
  conclude-Accepts team (some u) e same t n h =
      Accepts-if (truthy (some u)) _ _
        (λ b. write-Accepts "assigned" (some u) team e same t (h u refl).1)
        (λ b. ground (arith, b, (h u refl).0))

  pub Accepts-option :
      (o : Option String) (x : Outcome × Desk) (f : String → Outcome × Desk)
      → Accepts x
      → ((a : String) → o ≡ some a → Accepts (f a))
      → Accepts (elim o [ none ↦ x | some a ↦ f a ])
  Accepts-option none x f h k = h
  Accepts-option (some a) x f h k = k a refl
