-- ===== src/Lifecycle/Visibility.antt =====
-- The rest of src/modules/lifecycle: which stages are shown (`findAll`, `getVisibility`,
-- `toggleVisibility`), and the stages that a new workspace gets (default-lifecycle-stages.ts).
use desk_be.Common.{
  ℕ, String, List, [], ◌∷◌, ◌++◌, Bool, true, false, Option, none, some, keep, lookup, str_eq, leb,
  ltb, if◌then◌else◌,
}
use desk_be.Lifecycle.{
  Stage, lifecycle, lost, State, Outcome, done, not_found, in_workspace, bucket_size, with_stages,
}

-- `orderBy: [{ type: 'asc' }, { order: 'asc' }]`, where `lifecycle` is the first of the types
precedes : Stage → Stage → Bool
precedes t u = elim t.kind [
  | lifecycle ↦ elim u.kind [ lifecycle ↦ leb t.order u.order | lost ↦ true ]
  | lost ↦ elim u.kind [ lifecycle ↦ false | lost ↦ leb t.order u.order ]
]

insert_shown : Stage → List Stage → List Stage
unfolding precedes
insert_shown t [] = t ∷ []
insert_shown t (u ∷ us) = if precedes t u then t ∷ u ∷ us else u ∷ insert_shown t us

sort_shown : List Stage → List Stage
unfolding insert_shown
sort_shown [] = []
sort_shown (t ∷ ts) = insert_shown t (sort_shown ts)

shown_stages : String → State → List Stage
unfolding sort_shown
shown_stages w s = sort_shown (keep (in_workspace w) s.stages)

shown_if : String → State → Option Bool → Outcome (List Stage)
unfolding shown_stages
shown_if w s none = not_found
shown_if w s (some enabled) = if enabled then done (shown_stages w s) else done []

-- `findAll`
unfoldable pub find_all : String → Bool → State → Outcome (List Stage)
unfolding shown_if
find_all w include_disabled s =
    if include_disabled then done (shown_stages w s) else shown_if w s (lookup w s.enabled)

visibility_of : Option Bool → Outcome Bool
visibility_of none = not_found
visibility_of (some enabled) = done enabled

-- `getVisibility`
unfoldable pub get_visibility : String → State → Outcome Bool
unfolding visibility_of
get_visibility w s = visibility_of (lookup w s.enabled)

set_enabled : String → Bool → List (String × Bool) → List (String × Bool)
set_enabled w b [] = []
set_enabled w b ((v, e) ∷ es) = if str_eq v w then (v, b) ∷ es else (v, e) ∷ set_enabled w b es

toggle_found : String → Bool → State → Option Bool → Outcome Bool × State
unfolding set_enabled
toggle_found w b s none = (not_found, s)
toggle_found w b s (some e) = (done b, record s { enabled = set_enabled w b s.enabled })

-- `toggleVisibility`; without the workspace, Prisma's update throws
unfoldable pub toggle_visibility : String → Bool → State → Outcome Bool × State
unfolding toggle_found
toggle_visibility w b s = toggle_found w b s (lookup w s.enabled)

default_stage : String → String → String → String → ℕ → Bool → Bool → Stage
default_stage w i name emoji n is_default is_won = record {
  id = i;
  workspace_id = w;
  name = name;
  description = "";
  emoji = emoji;
  kind = lifecycle;
  order = n;
  is_default = is_default;
  is_won = is_won;
}

-- DEFAULT_LIFECYCLE_STAGES, at the identifiers that the database generates
unfoldable pub default_stages : String → String → String → String → String → List Stage
unfolding default_stage
default_stages w a b c d =
    default_stage w a "New Lead" "🆕" 1 true false
    ∷ default_stage w b "Hot Lead" "🔥" 2 false false
    ∷ default_stage w c "Payment" "💵" 3 false false
    ∷ default_stage w d "Customer" "🤩" 4 false true
    ∷ []

-- `seedDefaultLifecycleStages`: how many it created
unfoldable pub seed : String → String → String → String → String → State → ℕ × State
unfolding bucket_size default_stages
seed w a b c d s =
    if ltb 0 (bucket_size w lifecycle s.stages)
    then (0, s)
    else (4, with_stages (s.stages ++ default_stages w a b c d) s)
