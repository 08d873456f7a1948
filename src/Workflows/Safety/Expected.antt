-- ===== src/Workflows/Safety/Expected.antt =====
-- What has to follow a step, read off the reply of its handler and the list of the steps
-- (`executeStep`, `handleStepError`, `findNextStep` of
-- src/modules/workflows/workflow-engine.service.ts).
use mathlib.Core.Path.{subst}
use desk_be.Common.{
  sym, String, List, [], ◌∷◌, Bool, true, false, Option, none, some, find, str_eq, opt_eq, present,
  coalesce, ◌≡◌, ◌≢◌, refl, ap, ◌∙◌, eq_iff, arith, Bool-cases, Option-cases, inl, inr, ◌↔◌,
}
use desk_be.Workflows.Config.{Step, is_connector, is_child, first_child, find_next_step}
use desk_be.Workflows.World.{Status, completed, failed}
use desk_be.Workflows.Handlers.{Result, Reply, replied, threw}
use desk_be.Workflows.Engine.{error_connector, next_of}

-- the first step of a list with a property, if there is one
pub data IsFirst (P : Step → Type 0) : List Step → Option Step → Type 0 where
  nowhere : IsFirst P [] none
  first : {s : Step} {ss : List Step} → P s → IsFirst P (s ∷ ss) (some s)
  later :
      {s : Step} {ss : List Step} {o : Option Step} → ¬ P s → IsFirst P ss o → IsFirst P (s ∷ ss) o

-- a step below `parent` that can be gone to
pub record IsChild (parent : String) (s : Step) : Type 0 where
  pub below : s.parent_id ≡ some parent
  pub plain : is_connector s.kind ≡ false

-- the connector for the errors of a step
pub record ForErrors (step s : Step) : Type 0 where
  pub below : s.parent_id ≡ some step.id
  pub joins : is_connector s.kind ≡ true
  pub named : s.name ≡ some "Error"

abbrev id_of : Option Step → Option String
id_of none = none
id_of (some s) = present (some s.id)

-- The step that a result leads to: the one that it names, or the first one below the connector that
-- it names or else below its own step. An empty id is none.
pub data Follows (step : Step) (steps : List Step) (r : Result) : Option String → Type 0 where
  named : {n : String} → r.next_step_id ≡ some n → Follows step steps r (present (some n))
  below_connector :
      {k : String} {o : Option Step}
      → r.next_step_id ≡ none
      → r.branch_connector_id ≡ some k
      → k ≢ ""
      → IsFirst (IsChild k) steps o
      → Follows step steps r (id_of o)
  below_step :
      {o : Option Step}
      → r.next_step_id ≡ none
      → present r.branch_connector_id ≡ none
      → IsFirst (IsChild step.id) steps o
      → Follows step steps r (id_of o)

pub data Outcome : Type 0 where
  ends : Status → Outcome
  waits : Outcome
  goes_to : String → Outcome

-- what has to follow a reply of the handler of a step
pub data Expected (step : Step) (steps : List Step) : Reply → Outcome → Type 0 where
  fails :
      {e : String}
      → IsFirst (ForErrors step) steps none
      → Expected step steps (threw e) (ends failed)
  diverts :
      {e : String} {s : Step}
      → IsFirst (ForErrors step) steps (some s)
      → Expected step steps (threw e) (goes_to s.id)
  suspends : {r : Result} → r.suspend ≡ true → Expected step steps (replied r) waits
  goes_on :
      {r : Result} {n : String}
      → r.suspend ≡ false
      → Follows step steps r (some n)
      → Expected step steps (replied r) (goes_to n)
  is_over :
      {r : Result}
      → r.suspend ≡ false
      → Follows step steps r none
      → Expected step steps (replied r) (ends completed)

find-IsFirst :
    (P : Step → Type 0) (p : Step → Bool) (iff : (s : Step) → (p s ≡ true) ↔ P s) (ss : List Step)
    → IsFirst P ss (find p ss)
find-IsFirst P p iff [] = nowhere
find-IsFirst P p iff (s ∷ ss) = elim (Bool-cases (p s)) [
  | inl e ↦ rw (e) (first ((iff s).0 e))
  | inr e ↦ rw (e) (later (λ h. cc ((iff s).1 h, e)) (find-IsFirst P p iff ss))
]

opt_eq_iff : (o : Option String) (s : String) → (opt_eq o s ≡ true) ↔ (o ≡ some s)
opt_eq_iff none s = (λ h. cc, λ h. cc)
opt_eq_iff (some t) s = (λ h. ap some ((eq_iff t s).0 h), λ h. ground (arith, eq_iff t s, h))

IsChild-iff : (parent : String) (s : Step) → (is_child parent s ≡ true) ↔ IsChild parent s
unfolding is_child
IsChild-iff parent s = (
  λ h. record {
    below = (opt_eq_iff s.parent_id parent).0 (ground (arith, h));
    plain = ground (arith, h);
  },
  λ h. ground (arith, (opt_eq_iff s.parent_id parent).1 h.below, h.plain),
)

pub error_connector-IsFirst :
    (step : Step) (steps : List Step) → IsFirst (ForErrors step) steps (error_connector step steps)
unfolding error_connector
error_connector-IsFirst step steps =
    find-IsFirst (ForErrors step) _
      (λ s. (
        λ h. record {
          below = (opt_eq_iff s.parent_id step.id).0 (ground (arith, h));
          joins = ground (arith, h);
          named = (opt_eq_iff s.name "Error").0 (ground (arith, h));
        },
        λ h. ground (
          arith,
          (opt_eq_iff s.parent_id step.id).1 h.below,
          h.joins,
          (opt_eq_iff s.name "Error").1 h.named,
        ),
      ))
      steps

at_empty : (k : String) → str_eq k "" ≡ true → present (some k) ≡ none
at_empty k e = rw e refl

IsChild-IsFirst :
    (parent : String) (steps : List Step)
    → (o : Option Step) × IsFirst (IsChild parent) steps o
      × (present (first_child parent steps) ≡ id_of o)
unfolding first_child
IsChild-IsFirst parent steps = (
  find (is_child parent) steps,
  find-IsFirst (IsChild parent) _ (IsChild-iff parent) steps,
  elim (Option-cases (find (is_child parent) steps)) [
    | inl e ↦ rw (e) refl
    | inr (s, e) ↦ rw (e) refl
  ],
)

-- `next_of`, at the two options that it looks at
reads-Follows :
    (step : Step) (steps : List Step) (r : Result) (next branch : Option String)
    → r.next_step_id ≡ next
    → r.branch_connector_id ≡ branch
    → Follows step steps r (present (coalesce next (find_next_step step.id steps branch)))
unfolding find_next_step
reads-Follows step steps r (some n) branch e f = named e
reads-Follows step steps r none none e f =
    let (o, i, same) = IsChild-IsFirst step.id steps in
    subst (Follows step steps r) (sym same) (below_step e (ap present f) i)
reads-Follows step steps r none (some k) e f = elim (Bool-cases (str_eq k "")) [
  | inl empty ↦
      let (o, i, same) = IsChild-IsFirst step.id steps in
      rw empty
        (subst (Follows step steps r) (sym same) (below_step e (ap present f ∙ at_empty k empty) i))
  | inr filled ↦
      let (o, i, same) = IsChild-IsFirst k steps in
      rw filled (
        subst (Follows step steps r) (sym same)
          (below_connector e f (λ h. cc ((eq_iff k "").1 h, filled)) i))
]

pub next_of-Follows :
    (step : Step) (steps : List Step) (r : Result) → Follows step steps r (next_of step steps r)
unfolding next_of
next_of-Follows step steps r =
    reads-Follows step steps r r.next_step_id r.branch_connector_id refl refl
