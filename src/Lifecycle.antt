-- ===== src/Lifecycle.antt =====
-- src/modules/lifecycle: the stages that the contacts of a workspace pass through
-- (lifecycle.service.ts, default-lifecycle-stages.ts). The state is the table LifecycleStage and
-- the flag `lifecycleEnabled` of each workspace. A method that throws leaves the state as it was:
-- the transactions roll back. `order` is a natural number, as the interface sends it.
mod Count
mod Defaults
mod Sound
mod Removal
mod Gap
mod Named
mod Dense
mod Growth
mod Existence
mod OneDefault
pub mod Visibility
mod Tests
use desk_be.Common.{
  ℕ, ◌+◌, ◌-◌, String, List, [], ◌∷◌, ◌++◌, map, Bool, true, false, not, ◌&&◌, Option, none, some,
  any, keep, find, length, lookup, get_or, str_eq, ltb, leb, ◌==◌, if◌then◌else◌,
}

pub data StageType : Type 0 where
  lifecycle lost : StageType

pub record Stage : Type 0 where
  pub id : String
  pub workspace_id : String
  pub name : String
  pub description : String
  pub emoji : String
  pub kind : StageType
  pub order : ℕ
  pub is_default : Bool
  pub is_won : Bool

-- `enabled` has `lifecycleEnabled` of each workspace.
pub record State : Type 0 where
  pub stages : List Stage
  pub enabled : List (String × Bool)

pub data Outcome (A : Type 0) : Type 0 where
  done : A → Outcome A
  not_found bad_request conflict : Outcome A

-- the fields of CreateLifecycleStageDto that `create` reads
pub record NewStage : Type 0 where
  pub name : String
  pub description : Option String
  pub emoji : Option String
  pub kind : StageType
  pub is_default : Option Bool
  pub is_won : Option Bool

-- the fields of UpdateLifecycleStageDto that `update` reads
pub record StageChanges : Type 0 where
  pub name : Option String
  pub description : Option String
  pub emoji : Option String
  pub is_default : Option Bool
  pub is_won : Option Bool

-- `===` on the stage types
unfoldable pub kind_eq : StageType → StageType → Bool
kind_eq lifecycle lifecycle = true
kind_eq lost lost = true
kind_eq _ _ = false

is_lifecycle : StageType → Bool
is_lifecycle lifecycle = true
is_lifecycle lost = false

abbrev pub with_stages : List Stage → State → State
with_stages ss s = record s { stages = ss }

-- `where: { workspaceId }`
abbrev pub in_workspace : String → Stage → Bool
in_workspace w t = str_eq t.workspace_id w

-- `where: { workspaceId, type }`
abbrev pub in_bucket : String → StageType → Stage → Bool
in_bucket w k t = in_workspace w t && kind_eq t.kind k

-- `where: { id, workspaceId }`
abbrev pub is_named : String → String → Stage → Bool
is_named i w t = str_eq t.id i && in_workspace w t

-- `updateMany({ where, data })`
abbrev pub update_many : (Stage → Bool) → (Stage → Stage) → List Stage → List Stage
update_many p f ss = map (λ t. if p t then f t else t) ss

-- `update({ where: { id }, data })`
abbrev pub update_one : String → (Stage → Stage) → List Stage → List Stage
update_one i f ss = update_many (λ t. str_eq t.id i) f ss

-- `tx.lifecycleStage.updateMany({ where: { workspaceId }, data: { isDefault: false } })`
pub clear_default : Bool → String → List Stage → List Stage
clear_default false w ss = ss
clear_default true w ss = update_many (in_workspace w) (λ t. record t { is_default = false }) ss

pub clear_won : Bool → String → List Stage → List Stage
clear_won false w ss = ss
clear_won true w ss = update_many (in_workspace w) (λ t. record t { is_won = false }) ss

pub bucket_size : String → StageType → List Stage → ℕ
unfolding kind_eq
bucket_size w k ss = length (keep (in_bucket w k) ss)

-- `dto.isDefault ?? (dto.type === 'lifecycle' && count === 0)`
should_be_default : NewStage → ℕ → Bool
unfolding is_lifecycle
should_be_default dto count = get_or dto.is_default (is_lifecycle dto.kind && count == 0)

pub created : String → NewStage → String → ℕ → Stage
unfolding should_be_default
created i dto w count = record {
  id = i;
  workspace_id = w;
  name = dto.name;
  description = get_or dto.description "";
  emoji = get_or dto.emoji "⭐";
  kind = dto.kind;
  order = count + 1;
  is_default = should_be_default dto count;
  is_won = get_or dto.is_won false;
}

-- the insert, which the primary key refuses when the generated identifier is there
pub insert_row : Stage → List Stage → Option (List Stage)
insert_row t ss = if any (λ u. str_eq u.id t.id) ss then none else some (ss ++ t ∷ [])

pub finish_create : Stage → State → Option (List Stage) → Outcome Stage × State
finish_create t s none = (conflict, s)
finish_create t s (some ss) = (done t, with_stages ss s)

-- `create`, at the identifier that the database generates
unfoldable pub create : String → NewStage → String → State → Outcome Stage × State
unfolding bucket_size created clear_default insert_row finish_create
create i dto w s =
    let count = bucket_size w dto.kind s.stages in
    let t = created i dto w count in
    finish_create t s (insert_row t (clear_default t.is_default w s.stages))

pub changed : StageChanges → Stage → Stage
changed dto t = record t {
  name = get_or dto.name t.name;
  description = get_or dto.description t.description;
  emoji = get_or dto.emoji t.emoji;
  is_default = get_or dto.is_default t.is_default;
  is_won = get_or dto.is_won t.is_won;
}

-- `findFirst({ where: { id, workspaceId } })`
unfoldable pub find_stage : String → String → State → Option Stage
find_stage i w s = find (is_named i w) s.stages

outcome_of : Option Stage → Outcome Stage
outcome_of none = not_found
outcome_of (some t) = done t

-- `findOne`
pub find_one : String → String → State → Outcome Stage
unfolding find_stage outcome_of
find_one i w s = outcome_of (find_stage i w s)

pub update_rows : String → StageChanges → String → List Stage → List Stage
unfolding changed clear_default clear_won
update_rows i dto w ss =
    update_one i (changed dto)
      (clear_won (get_or dto.is_won false) w (clear_default (get_or dto.is_default false) w ss))

pub update_found :
    String → StageChanges → String → State → Option Stage → Outcome (Option Stage) × State
unfolding update_rows
update_found i dto w s none = (not_found, s)
update_found i dto w s (some t) =
    let ss = update_rows i dto w s.stages in (done (find (λ u. str_eq u.id i) ss), with_stages ss s)

-- `update`: the row as it leaves it
unfoldable pub update : String → StageChanges → String → State → Outcome (Option Stage) × State
unfolding update_found find_stage
update i dto w s = update_found i dto w s (find_stage i w s)

-- `orderBy: { order: 'asc' }`
insert_stage : Stage → List Stage → List Stage
insert_stage t [] = t ∷ []
insert_stage t (u ∷ us) = if leb t.order u.order then t ∷ u ∷ us else u ∷ insert_stage t us

pub by_order : List Stage → List Stage
unfolding insert_stage
by_order [] = []
by_order (t ∷ ts) = insert_stage t (by_order ts)

-- the stages behind a removed one in its bucket
pub behind : Stage → String → Stage → Bool
unfolding kind_eq
behind t w u = in_bucket w t.kind u && ltb t.order u.order

-- the loop of `remove`: each stage gets the place before the one that was read
pub move_up : List Stage → List Stage → List Stage
move_up [] ss = ss
move_up (u ∷ us) ss = move_up us (update_one u.id (λ v. record v { order = u.order - 1 }) ss)

pub without : String → List Stage → List Stage
without i ss = keep (λ t. not (str_eq t.id i)) ss

pub remove_row : Stage → String → List Stage → List Stage
unfolding without move_up by_order behind
remove_row t w ss = let rest = without t.id ss in move_up (by_order (keep (behind t w) rest)) rest

pub remove_found : String → State → Option Stage → Outcome (Unit {0}) × State
unfolding remove_row
remove_found w s none = (not_found, s)
remove_found w s (some t) =
    if t.is_default then (bad_request, s) else (done tt, with_stages (remove_row t w s.stages) s)

-- `remove`
unfoldable pub remove : String → String → State → Outcome (Unit {0}) × State
unfolding remove_found find_stage
remove i w s = remove_found w s (find_stage i w s)

pub place_all : List (String × ℕ) → String → List Stage → List Stage
place_all [] w ss = ss
place_all ((i, n) ∷ ps) w ss =
    place_all ps w (update_many (is_named i w) (λ t. record t { order = n }) ss)

-- `reorder`
unfoldable pub reorder : List (String × ℕ) → String → State → State
unfolding place_all
reorder ps w s = with_stages (place_all ps w s.stages) s
