-- ===== src/Lifecycle/Tests.antt =====
-- Calls of the lifecycle service on a workspace, and the theorems there.
use desk_be.Common.{
  ℕ, String, List, [], ◌∷◌, map, All, Bool, true, false, none, some, ◌≡◌, refl, arith,
}
use desk_be.Lifecycle.{
  Stage, lifecycle, State, NewStage, StageChanges, remove, done, find_stage, with_stages, without,
}
use desk_be.Lifecycle.Count.{count}
use desk_be.Lifecycle.Defaults.{IsSound}
use desk_be.Lifecycle.Sound.{Command, creation, change, removal, run, run-IsSound}
use desk_be.Lifecycle.Defaults.{default_of}
use desk_be.Lifecycle.OneDefault.{KeepsDefault, run-one_default}
use desk_be.Lifecycle.Gap.{closed_up, remove-closes}
use desk_be.Lifecycle.Dense.{IsDense}
use desk_be.Lifecycle.Growth.{run-IsDense, MovesNone}
use desk_be.Lifecycle.Visibility.{seed, find_all, toggle_visibility}

abbrev empty : State
empty = record { stages = []; enabled = ("w1", true) ∷ [] }

abbrev lead : NewStage
lead = record {
  name = "Lead";
  description = none;
  emoji = none;
  kind = lifecycle;
  is_default = none;
  is_won = none;
}

abbrev won : NewStage
won = record lead { is_won = some true }

abbrev make_default : StageChanges
make_default = record {
  name = none;
  description = none;
  emoji = none;
  is_default = some true;
  is_won = none;
}

abbrev calls : List Command
calls =
    creation "a" lead "w1"
    ∷ creation "b" lead "w1"
    ∷ creation "c" lead "w1"
    ∷ change "b" make_default "w1"
    ∷ removal "a" "w1"
    ∷ []

abbrev stages_after : List Stage
stages_after = (run calls empty).stages

listing : List Stage → List (String × (ℕ × Bool))
listing ss = map (λ t. (t.id, (t.order, t.is_default))) ss

-- The first stage is the default until another becomes it; the others move up.
after_calls : listing (run calls empty).stages ≡ (("b", (1, true)) ∷ ("c", (2, false)) ∷ [])
unfolding listing run
after_calls = refl

seeded :
    listing (seed "w1" "a" "b" "c" "d" empty).1.stages
    ≡ (("a", (1, true)) ∷ ("b", (2, false)) ∷ ("c", (3, false)) ∷ ("d", (4, false)) ∷ [])
unfolding listing seed
seeded = refl

-- Two stages are won: `create` does not clear the earlier one, as `update` would.
two_won :
    count (λ t. t.is_won) (run (creation "a" won "w1" ∷ creation "b" won "w1" ∷ []) empty).stages
    ≡ 2
unfolding run
two_won = refl

hidden : find_all "w1" false (toggle_visibility "w1" false (run calls empty)).1 ≡ done []
unfolding find_all toggle_visibility run
hidden = refl

empty-IsSound : IsSound []
empty-IsSound = record { ids = λ i. ground arith; defaults = λ w. ground arith }

empty-IsDense : IsDense "w1" lifecycle []
unfolding IsDense
empty-IsDense n = ground arith

run-IsSound_example : IsSound (run calls empty).stages
run-IsSound_example = run-IsSound calls empty empty-IsSound

calls-MovesNone : All MovesNone calls
unfolding MovesNone
calls-MovesNone = (tt, (tt, (tt, (tt, (tt, tt)))))

run-IsDense_example : IsDense "w1" lifecycle (run calls empty).stages
run-IsDense_example =
    run-IsDense calls empty "w1" lifecycle calls-MovesNone empty-IsSound empty-IsDense

abbrev before : State
before = run (creation "a" lead "w1" ∷ creation "b" lead "w1" ∷ []) empty

abbrev second : Stage
second = record {
  id = "b";
  workspace_id = "w1";
  name = "Lead";
  description = "";
  emoji = "⭐";
  kind = lifecycle;
  order = 2;
  is_default = false;
  is_won = false;
}

second_found : find_stage "b" "w1" before ≡ some second
unfolding find_stage run
second_found = refl

remove-closes_example :
    remove "b" "w1" before
    ≡ (done tt, with_stages (map (closed_up second "w1") (without "b" before.stages)) before)
remove-closes_example =
    remove-closes "b" "w1" before second
      (run-IsSound (creation "a" lead "w1" ∷ creation "b" lead "w1" ∷ []) empty empty-IsSound)
      second_found refl

abbrev first_stage : State
first_stage = run (creation "a" lead "w1" ∷ []) empty

abbrev later : List Command
later = creation "b" lead "w1" ∷ change "b" make_default "w1" ∷ removal "a" "w1" ∷ []

later-KeepsDefault : All KeepsDefault later
unfolding KeepsDefault
later-KeepsDefault = (tt, (tt, (tt, tt)))

has_one : count (default_of "w1") first_stage.stages ≡ 1
unfolding run
has_one = refl

run-one_default_example : count (default_of "w1") (run later first_stage).stages ≡ 1
run-one_default_example =
    run-one_default later first_stage "w1" later-KeepsDefault
      (run-IsSound (creation "a" lead "w1" ∷ []) empty empty-IsSound) has_one
