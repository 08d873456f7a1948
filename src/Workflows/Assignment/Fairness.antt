-- ===== src/Workflows/Assignment/Fairness.antt =====
-- The turns of agents (`pickAgent` of src/modules/workflows/workflow-engine.service.ts).
use desk_be.Common.{
  ℕ, zero, suc, ◌+◌, ◌-◌, ◌%◌, ◌<◌, String, List, [], ◌∷◌, true, false, some, contains, length,
  get_or, str_eq, ◌≡◌, refl, ap, ◌∙◌, sym, inl, inr, Bool-cases, eq_iff, leb, arith,
}
use native.Mathlib.Nat.{mod-add-mod, mod-eq_of_lt, mod-lt, add-mod_right}
use desk_be.Workflows.Assignment.{
  Desk, counter_key, incremented, increment, take_turn, pick_agent, at,
}
use desk_be.Workflows.Tables.{lookup-put_same}

-- some number of turns, one after the other
unfoldable pub after_turns : ℕ → List String → String → Desk → Desk
unfolding pick_agent
after_turns zero agents workspace d = d
after_turns (suc k) agents workspace d =
    after_turns k agents workspace (pick_agent agents workspace "round_robin" d).1

incremented-increment :
    (workspace : String) (d : Desk)
    → incremented workspace (increment workspace d) ≡ suc (incremented workspace d)
unfolding incremented increment
incremented-increment workspace d =
    ap (λ o. suc (get_or o 0))
      (lookup-put_same (counter_key workspace) (incremented workspace d) d.counters)

incremented-after_turns :
    (k : ℕ) (a : String) (agents : List String) (workspace : String) (d : Desk)
    → incremented workspace (after_turns k (a ∷ agents) workspace d) ≡ incremented workspace d + k
unfolding after_turns pick_agent take_turn
incremented-after_turns zero a agents workspace d = ground arith
incremented-after_turns (suc k) a agents workspace d = ground (
  arith,
  incremented-after_turns k a agents workspace (increment workspace d),
  incremented-increment workspace d,
)

-- the place of an agent
place :
    (agents : List String) (user : String)
    → contains agents user ≡ true
    → (i : ℕ) × (i < length agents) × (at i agents ≡ some user)
place [] user h = ground (arith, h)
place (a ∷ agents) user h = elim (Bool-cases (str_eq a user)) [
  | inl e ↦ (0, ground arith, ground (arith, e, eq_iff a user))
  | inr e ↦
      let (i, below, found) = place agents user (ground (arith, h, e)) in
      (suc i, ground (arith, below), found)
]

-- going on from one remainder to another
go_on : (c r k i n : ℕ) → c % n ≡ r → (r + k) % n ≡ i → (c + k) % n ≡ i
go_on c r k i n e h = sym (mod-add-mod c n k) ∙ ap (λ x. (x + k) % n) e ∙ h

-- every remainder comes up within as many steps as there are
reach_from : (r i n : ℕ) → r < n → i < n → (k : ℕ) × (k < n) × ((r + k) % n ≡ i)
reach_from r i n small h = elim (Bool-cases (leb r i)) [
  | inl e ↦ (i - r, ground (arith, small, h, e), ap (λ x. x % n) (the_sum e) ∙ mod-eq_of_lt h)
  | inr e ↦ (
    i + n - r,
    ground (arith, small, h, e),
    ap (λ x. x % n) (the_turn e) ∙ add-mod_right i n ∙ mod-eq_of_lt h,
  )
]
  where
    the_sum : leb r i ≡ true → r + (i - r) ≡ i
    the_sum e = ground (arith, e)

    the_turn : leb r i ≡ false → r + (i + n - r) ≡ i + n
    the_turn e = ground (arith, e, small)

reach : (c i n : ℕ) → i < n → (k : ℕ) × (k < n) × ((c + k) % n ≡ i)
reach c i n h =
    let (k, soon, reached) = reach_from (c % n) i n (mod-lt c (ground (arith, h))) h in
    (k, soon, go_on c (c % n) k i n refl reached)

-- In the turns that follow, as many as there are agents, every agent is picked, wherever the
-- workspace's counter stands.
pub pick_agent-fair :
    (agents : List String) (workspace user : String) (d : Desk)
    → contains agents user ≡ true
    → (k : ℕ) × (k < length agents)
      × ((pick_agent agents workspace "round_robin" (after_turns k agents workspace d)).0
          ≡ some user)
unfolding pick_agent take_turn
pick_agent-fair [] workspace user d h = ground (arith, h)
pick_agent-fair (a ∷ agents) workspace user d h =
    let (i, below, found) = place (a ∷ agents) user h in
    let (k, soon, reached) = reach (incremented workspace d) i (length (a ∷ agents)) below in
    (
      k,
      soon,
      ap (λ c. at (c % length (a ∷ agents)) (a ∷ agents))
            (incremented-after_turns k a agents workspace d)
          ∙ ap (λ j. at j (a ∷ agents)) reached
          ∙ found,
    )
