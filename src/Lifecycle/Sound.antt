-- ===== src/Lifecycle/Sound.antt =====
-- Every method of the lifecycle service keeps at most one default stage in a workspace.
use mathlib.Core.Path.{subst}
use desk_be.Common.{
  ℕ, ◌≤◌, String, List, [], ◌∷◌, Bool, true, false, ◌&&◌, Option, none, some, ◌≡◌, refl, sym, ◌∙◌,
  not, keep, find, get_or, str_eq, eq_iff, Bool-cases, Option-cases, inl, inr, arith, if◌then◌else◌,
}
use desk_be.Lifecycle.{
  done, with_stages, bad_request, by_order, behind, Stage, State, NewStage, StageChanges,
  in_workspace, is_named, clear_default, clear_won, create, changed, update, update_found,
  update_rows, find_stage, remove, remove_found, remove_row, without, reorder, created,
}
use desk_be.Lifecycle.Count.{count, count_mono, count-update, count-update_same, count-update_fewer}
use desk_be.Lifecycle.Defaults.{
  IsSound, has_id, default_of, harmless-IsSound, move_up-IsSound, place_all-IsSound, keep-IsSound,
  clear_default-IsSound, cleared, finish_create-IsSound, elsewhere,
}

clear_won-IsSound :
    (b : Bool) (w : String) (ss : List Stage) → IsSound ss → IsSound (clear_won b w ss)
unfolding clear_won
clear_won-IsSound false w ss s = s
clear_won-IsSound true w ss s =
    harmless-IsSound _ _ ss
      (record { id_same = λ t. refl; workspace_same = λ t. refl; default_same = λ t. refl }) s

-- the clears change neither what is where nor, for the won stages, the defaults
pub clears-count :
    (d b : Bool) (w : String) (p : Stage → Bool) (ss : List Stage)
    → ((t : Stage) (x y : Bool) → p (record t { is_default = x; is_won = y }) ≡ p t)
    → count p (clear_won b w (clear_default d w ss)) ≡ count p ss
unfolding clear_won clear_default
clears-count true true w p ss h =
    count-update_same p _ _ (clear_default true w ss) (λ t e. h t t.is_default false)
    ∙ count-update_same p _ _ ss (λ t e. h t false t.is_won)
clears-count true false w p ss h = count-update_same p _ _ ss (λ t e. h t false t.is_won)
clears-count false true w p ss h = count-update_same p _ _ ss (λ t e. h t t.is_default false)
clears-count false false w p ss h = refl

pub clear_won-default :
    (b : Bool) (w v : String) (ss : List Stage)
    → count (default_of v) (clear_won b w ss) ≡ count (default_of v) ss
unfolding clear_won
clear_won-default true w v ss =
    count-update_same (default_of v) (in_workspace w) (λ t. record t { is_won = false }) ss
      (λ t e. refl)
clear_won-default false w v ss = refl

kept_default : (o : Option Bool) (d : Bool) → get_or o false ≡ false → get_or o d ≡ true → d ≡ true
kept_default none d h e = e
kept_default (some b) d h e = ground (arith, h, e)

module _ (i w : String) (dto : StageChanges) (ss : List Stage) (s : IsSound ss) (t : Stage)
    (found : find (is_named i w) ss ≡ some t) where
  abbrev cleared_rows : List Stage
  cleared_rows =
      clear_won (get_or dto.is_won false) w (clear_default (get_or dto.is_default false) w ss)

  cleared_rows-IsSound : IsSound cleared_rows
  cleared_rows-IsSound = clear_won-IsSound _ w _ (clear_default-IsSound _ w ss s)

  -- The update makes no stage a default that was none, or it cleared the defaults before.
  update_rows-defaults : (v : String) → count (default_of v) (update_rows i dto w ss) ≤ 1
  unfolding update_rows changed
  update_rows-defaults v = elim (Bool-cases (get_or dto.is_default false)) [
    | inl e ↦ elim (Bool-cases (str_eq w v)) [
      | inl same ↦
          let none_left : count (default_of v) cleared_rows ≡ 0 =
            clear_won-default (get_or dto.is_won false) w v
              (clear_default (get_or dto.is_default false) w ss)
            ∙ cleared (get_or dto.is_default false) w v ss e ((eq_iff w v).0 same) in
          ground (
            arith,
            none_left,
            cleared_rows-IsSound.ids i,
            count-update (default_of v) (has_id i) (changed dto) cleared_rows,
            count_mono (λ t. has_id i t && default_of v (changed dto t)) (has_id i) cleared_rows
                (λ t h. ground (arith, h)),
          )
      | inr other ↦
          let nowhere : count (λ t. has_id i t && in_workspace v t) cleared_rows ≡ 0 =
            clears-count (get_or dto.is_default false) (get_or dto.is_won false) w
              (λ t. has_id i t && in_workspace v t) ss (λ t x y. refl)
            ∙ elsewhere i w v ss t (s.ids i) found (ground (arith, eq_iff w v)) in
          ground (
            arith,
            nowhere,
            cleared_rows-IsSound.defaults v,
            count-update (default_of v) (has_id i) (changed dto) cleared_rows,
            count_mono (λ t. has_id i t && default_of v (changed dto t))
                (λ t. has_id i t && in_workspace v t) cleared_rows (λ t h. ground (arith, h)),
          )
    ]
    | inr e ↦ ground (
      arith,
      cleared_rows-IsSound.defaults v,
      count-update_fewer (default_of v) (has_id i) (changed dto) cleared_rows
          (λ t h. ground (arith, h, kept_default dto.is_default t.is_default e)),
    )
  ]

  update_rows-IsSound : IsSound (update_rows i dto w ss)
  unfolding update_rows changed
  update_rows-IsSound = record {
    ids = λ j. ground (
      arith,
      cleared_rows-IsSound.ids j,
      count-update_same (has_id j) (has_id i) (changed dto) cleared_rows (λ t e. refl),
    );
    defaults = update_rows-defaults;
  }

pub data Command : Type 0 where
  creation : String → NewStage → String → Command
  change : String → StageChanges → String → Command
  removal : String → String → Command
  reordering : List (String × ℕ) → String → Command

-- one call of the service; a call that throws changes nothing
unfoldable pub step : Command → State → State
unfolding create update remove reorder
step (creation i dto w) s = (create i dto w s).1
step (change i dto w) s = (update i dto w s).1
step (removal i w) s = (remove i w s).1
step (reordering ps w) s = reorder ps w s

update_found-IsSound :
    (i : String) (dto : StageChanges) (w : String) (s : State)
    → IsSound s.stages
    → IsSound (update_found i dto w s (find_stage i w s)).1.stages
unfolding update_found find_stage
update_found-IsSound i dto w s h = elim (Option-cases (find (is_named i w) s.stages)) [
  | inl e ↦ rw (e) h
  | inr (t, e) ↦
      subst (λ o. IsSound (update_found i dto w s o).1.stages) (sym e)
        (update_rows-IsSound i w dto s.stages h t e)
]

remove_row-IsSound :
    (t : Stage) (w : String) (ss : List Stage) → IsSound ss → IsSound (remove_row t w ss)
unfolding remove_row without
remove_row-IsSound t w ss h =
    move_up-IsSound (by_order (keep (behind t w) (without t.id ss))) (without t.id ss)
      (keep-IsSound (λ u. not (str_eq u.id t.id)) ss h)

branch-IsSound :
    {A : Type 0} (b : Bool) (x y : A × State)
    → IsSound x.1.stages
    → IsSound y.1.stages
    → IsSound (if b then x else y).1.stages
branch-IsSound true x y h k = h
branch-IsSound false x y h k = k

remove_found-IsSound :
    (w : String) (s : State) (o : Option Stage)
    → IsSound s.stages
    → IsSound (remove_found w s o).1.stages
unfolding remove_found
remove_found-IsSound w s none h = h
remove_found-IsSound w s (some t) h =
    branch-IsSound t.is_default (bad_request, s) (done tt, with_stages (remove_row t w s.stages) s)
      h (remove_row-IsSound t w s.stages h)

pub step-IsSound : (c : Command) (s : State) → IsSound s.stages → IsSound (step c s).stages
unfolding step create created update remove reorder
step-IsSound (creation i dto w) s h = finish_create-IsSound _ s h
step-IsSound (change i dto w) s h = update_found-IsSound i dto w s h
step-IsSound (removal i w) s h = remove_found-IsSound w s (find_stage i w s) h
step-IsSound (reordering ps w) s h = place_all-IsSound ps w s.stages h

unfoldable pub run : List Command → State → State
unfolding step
run [] s = s
run (c ∷ cs) s = run cs (step c s)

-- From a state where each identifier names one row and each workspace has one default stage at
-- most, any sequence of calls of the service leads to such a state.
pub run-IsSound : (cs : List Command) (s : State) → IsSound s.stages → IsSound (run cs s).stages
unfolding run
run-IsSound [] s h = h
run-IsSound (c ∷ cs) s h = run-IsSound cs (step c s) (step-IsSound c s h)
