-- ===== src/Workflows/Delivery/Lineage.antt =====
-- The way from a step to the trigger ends, also where the parents of the steps go in a circle
-- (`getStepLineage` of src/modules/workflows/workflow-delivery-rulebook.ts).
use mathlib.Core.Path.{subst}
use desk_be.Common.{
  ℕ, zero, suc, ◌≤◌, ◌<◌, String, List, [], ◌∷◌, false, some, contains, length, ◌≡◌, refl, ap,
  eq_refl, Option-cases, inl, inr, if◌then◌else◌, arith,
}
use desk_be.Workflows.Config.{Step}
use desk_be.Workflows.Delivery.Windows.{step_by_id, parent_of, next_parent, lineage_from}

-- how many steps were not visited
unvisited : List String → List Step → ℕ
unvisited visited [] = 0
unvisited visited (s ∷ steps) =
    let rest = unvisited visited steps in if contains visited s.id then rest else suc rest

unvisited-length :
    (visited : List String) (steps : List Step) → unvisited visited steps ≤ length steps
unfolding unvisited
unvisited-length visited [] = omega arith
unvisited-length visited (s ∷ steps) = ground (arith, unvisited-length visited steps)

unvisited_mono :
    (id : String) (visited : List String) (steps : List Step)
    → unvisited (id ∷ visited) steps ≤ unvisited visited steps
unfolding unvisited
unvisited_mono id visited [] = omega arith
unvisited_mono id visited (s ∷ steps) = ground (arith, unvisited_mono id visited steps)

unvisited_found :
    (p : String) (s : Step) (visited : List String) (steps : List Step)
    → step_by_id steps p ≡ some s
    → contains visited s.id ≡ false
    → unvisited (s.id ∷ visited) steps < unvisited visited steps
unfolding unvisited step_by_id
unvisited_found p s visited [] h k = ground (arith, h)
unvisited_found p s visited (t ∷ steps) h k = elim (Option-cases (step_by_id steps p)) [
  | inr (u, e) ↦
      let same : step_by_id steps p ≡ some s = ground (arith, h, e) in
      let fewer = unvisited_found p s visited steps same k in ground (arith, fewer)
  | inl e ↦
      let mono = unvisited_mono s.id visited steps in ground (arith, h, e, k, mono, eq_refl s.id)
]

-- what is known of the next parent
next_unvisited :
    (steps : List Step) (visited : List String) (s parent : Step)
    → next_parent steps visited s ≡ some parent
    → unvisited (parent.id ∷ visited) steps < unvisited visited steps
unfolding next_parent
next_unvisited steps visited s parent h = elim (Option-cases (parent_of s)) [
  | inl e ↦ absurd (ground (arith, h, e))
  | inr (p, e) ↦ elim (Option-cases (step_by_id steps p)) [
    | inl g ↦ absurd (ground (arith, h, e, g))
    | inr (t, g) ↦
        let new : contains visited t.id ≡ false = ground (arith, h, e, g) in
        let same : t ≡ parent = ground (arith, h, e, g) in
        subst (λ t. unvisited (t.id ∷ visited) steps < unvisited visited steps) same
          (unvisited_found p t visited steps g new)
  ]
]

-- More fuel than steps that were not visited changes nothing.
fuel_enough :
    (m n : ℕ) (steps : List Step) (visited : List String) (s : Step)
    → unvisited visited steps < m
    → unvisited visited steps < n
    → lineage_from m steps visited s ≡ lineage_from n steps visited s
unfolding lineage_from
fuel_enough zero n steps visited s h k = absurd (omega arith)
fuel_enough (suc m) zero steps visited s h k = absurd (omega arith)
fuel_enough (suc m) (suc n) steps visited s h k =
    elim (Option-cases (next_parent steps visited s)) [
      | inl e ↦ rw (lineage_from, e) refl
      | inr (parent, e) ↦
          let fewer = next_unvisited steps visited s parent e in
          rw (lineage_from, e)
            (ap (λ rest. parent ∷ rest)
              (fuel_enough m n steps (parent.id ∷ visited) parent (omega arith) (omega arith)))
    ]

-- With one turn more than there are steps the loop has ended: any further turns change nothing.
pub lineage_ends :
    (n : ℕ) (steps : List Step) (s : Step)
    → length steps < n
    → lineage_from n steps [] s ≡ lineage_from (suc (length steps)) steps [] s
lineage_ends n steps s h =
    let few = unvisited-length [] steps in
    fuel_enough n (suc (length steps)) steps [] s (omega arith) (omega arith)
