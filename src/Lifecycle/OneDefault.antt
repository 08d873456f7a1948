-- ===== src/Lifecycle/OneDefault.antt =====
-- A workspace that has a default stage keeps one.
use mathlib.Core.Path.{subst}
use desk_be.Common.{
  ℕ, ◌≤◌, String, List, [], ◌∷◌, Bool, true, false, ◌≡◌, refl, sym, All, any, find, get_or, str_eq,
  Bool-cases, Option-cases, inl, inr, arith, if◌then◌else◌,
}
use desk_be.Lifecycle.{
  Stage, State, StageChanges, is_named, clear_default, create, created, insert_row, finish_create,
  update, update_found, update_rows, find_stage, remove, remove_found, remove_row, reorder,
  place_all, bad_request, done, with_stages,
}
use desk_be.Lifecycle.Count.{count, count-update_same}
use desk_be.Lifecycle.Defaults.{IsSound, default_of}
use desk_be.Lifecycle.Sound.{
  run-IsSound, Command, creation, change, removal, reordering, step, run, step-IsSound,
}
use desk_be.Lifecycle.Existence.{
  HasDefault, KeepsFlag, append-HasDefault, removed-HasDefault, updated,
}

created-HasDefault :
    (t : Stage) (s : State) (v : String)
    → HasDefault v s.stages
    → HasDefault v
        (finish_create t s
          (insert_row t (clear_default t.is_default t.workspace_id s.stages))).1.stages
unfolding finish_create insert_row
created-HasDefault t s v h =
    elim (Bool-cases
      (any (λ u. str_eq u.id t.id) (clear_default t.is_default t.workspace_id s.stages))) [
        | inl e ↦ rw (e) h
        | inr e ↦ rw (e) (append-HasDefault t.is_default t v s.stages refl h)
      ]

changed-HasDefault :
    (i w v : String) (dto : StageChanges) (s : State)
    → KeepsFlag dto.is_default
    → HasDefault v s.stages
    → HasDefault v (update_found i dto w s (find_stage i w s)).1.stages
unfolding update_found update_rows find_stage
changed-HasDefault i w v dto s flag h = elim (Option-cases (find (is_named i w) s.stages)) [
  | inl e ↦ rw (e) h
  | inr (t, e) ↦
      subst (λ o. HasDefault v (update_found i dto w s o).1.stages) (sym e)
        (updated i w v dto s.stages t flag e h (get_or dto.is_default false) refl)
]

branch-HasDefault :
    {A : Type 0} (b : Bool) (v : String) (x y : A × State)
    → HasDefault v x.1.stages
    → (b ≡ false → HasDefault v y.1.stages)
    → HasDefault v (if b then x else y).1.stages
branch-HasDefault true v x y h k = h
branch-HasDefault false v x y h k = k refl

left-HasDefault :
    (i w v : String) (s : State)
    → IsSound s.stages
    → HasDefault v s.stages
    → HasDefault v (remove_found w s (find_stage i w s)).1.stages
unfolding remove_found find_stage
left-HasDefault i w v s sound h = elim (Option-cases (find (is_named i w) s.stages)) [
  | inl e ↦ rw (e) h
  | inr (t, e) ↦
      subst (λ o. HasDefault v (remove_found w s o).1.stages) (sym e)
        (branch-HasDefault t.is_default v (bad_request, s)
          (done tt, with_stages (remove_row t w s.stages) s) h
          (λ plain. removed-HasDefault i w v s.stages t sound e plain h))
]

placed-HasDefault :
    (ps : List (String × ℕ)) (w v : String) (ss : List Stage)
    → HasDefault v ss
    → HasDefault v (place_all ps w ss)
unfolding place_all
placed-HasDefault [] w v ss h = h
placed-HasDefault ((i, n) ∷ ps) w v ss h = placed-HasDefault ps w v _ (
    ground (
      arith,
      h,
      count-update_same (default_of v) (is_named i w) (λ t. record t { order = n }) ss
          (λ t e. refl),
    ))

-- a call that does not ask to take the default from a stage
unfoldable pub KeepsDefault : Command → Type 0
unfolding KeepsFlag
KeepsDefault (change i dto w) = KeepsFlag dto.is_default
KeepsDefault _ = Unit

step-HasDefault :
    (c : Command) (s : State) (v : String)
    → KeepsDefault c
    → IsSound s.stages
    → HasDefault v s.stages
    → HasDefault v (step c s).stages
unfolding step KeepsDefault create created update remove reorder
step-HasDefault (creation i dto w) s v k sound h = created-HasDefault _ s v h
step-HasDefault (change i dto w) s v k sound h = changed-HasDefault i w v dto s k h
step-HasDefault (removal i w) s v k sound h = left-HasDefault i w v s sound h
step-HasDefault (reordering ps w) s v k sound h = placed-HasDefault ps w v s.stages h

keeps_one :
    (cs : List Command) (s : State) (v : String)
    → All KeepsDefault cs
    → IsSound s.stages
    → HasDefault v s.stages
    → HasDefault v (run cs s).stages
unfolding run
keeps_one [] s v k sound h = h
keeps_one (c ∷ cs) s v k sound h =
    keeps_one cs (step c s) v k.1 (step-IsSound c s sound) (step-HasDefault c s v k.0 sound h)

-- In a state where each identifier names one row and each workspace has one default stage at most,
-- a workspace with a default stage still has exactly one after any sequence of calls in which no
-- change asks to take the default from a stage.
pub run-one_default :
    (cs : List Command) (s : State) (v : String)
    → All KeepsDefault cs
    → IsSound s.stages
    → count (default_of v) s.stages ≡ 1
    → count (default_of v) (run cs s).stages ≡ 1
run-one_default cs s v k sound one =
    let most : count (default_of v) (run cs s).stages ≤ 1 = (run-IsSound cs s sound).defaults v in
    let least = keeps_one cs s v k sound (ground (arith, one)) in ground (arith, most, least)
