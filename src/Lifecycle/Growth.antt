-- ===== src/Lifecycle/Growth.antt =====
-- The places of a bucket through sequences of calls of the service.
use desk_be.Common.{
  ℕ, ◌+◌, String, List, [], ◌∷◌, ◌++◌, Bool, true, false, ◌&&◌, Option, none, some, ◌≡◌, refl, sym,
  ap, ◌∙◌, any, get_or, All, str_eq, eq_iff, ◌==◌, Bool-cases, inl, inr, arith,
}
use desk_be.Lifecycle.{
  Stage, StageType, State, StageChanges, in_workspace, in_bucket, update_many, kind_eq,
  clear_default, clear_won, create, created, insert_row, finish_create, bucket_size, changed,
  update, update_found, update_rows, find_stage,
}
use desk_be.Lifecycle.Count.{count, count-append, count-update_same}
use desk_be.Lifecycle.Defaults.{IsSound, has_id}
use desk_be.Lifecycle.Named.{kind_eq_iff}
use desk_be.Lifecycle.Dense.{IsDense, at_place, remove-IsDense}
use desk_be.Lifecycle.Sound.{
  Command, creation, change, removal, reordering, step, run, step-IsSound,
}

-- a write that moves no stage
record IsStill (f : Stage → Stage) : Type 0 where
  workspace_same : (t : Stage) → (f t).workspace_id ≡ t.workspace_id
  kind_same : (t : Stage) → (f t).kind ≡ t.kind
  order_same : (t : Stage) → (f t).order ≡ t.order

module _ (f : Stage → Stage) (still : IsStill f) (v : String) (k : StageType) where
  bucket_still : (t : Stage) → in_bucket v k (f t) ≡ in_bucket v k t
  bucket_still t =
      ap (λ x. str_eq x v && kind_eq (f t).kind k) (still.workspace_same t)
      ∙ ap (λ x. in_workspace v t && kind_eq x k) (still.kind_same t)

  place_still : (n : ℕ) (t : Stage) → at_place v k n (f t) ≡ at_place v k n t
  place_still n t =
      ap (λ b. b && (f t).order == n) (bucket_still t)
      ∙ ap (λ x. in_bucket v k t && x == n) (still.order_same t)

  still-IsDense :
      (q : Stage → Bool) (ss : List Stage) → IsDense v k ss → IsDense v k (update_many q f ss)
  unfolding IsDense
  still-IsDense q ss d n = ground (
    arith,
    d n,
    count-update_same (at_place v k n) q f ss (λ t e. place_still n t),
    count-update_same (in_bucket v k) q f ss (λ t e. bucket_still t),
  )

  still-size :
      (q : Stage → Bool) (ss : List Stage)
      → count (in_bucket v k) (update_many q f ss) ≡ count (in_bucket v k) ss
  still-size q ss = count-update_same (in_bucket v k) q f ss (λ t e. bucket_still t)

clear_default-IsDense :
    (b : Bool) (w v : String) (k : StageType) (ss : List Stage)
    → IsDense v k ss
    → IsDense v k (clear_default b w ss)
unfolding clear_default
clear_default-IsDense false w v k ss d = d
clear_default-IsDense true w v k ss d =
    still-IsDense _
      (record { workspace_same = λ t. refl; kind_same = λ t. refl; order_same = λ t. refl }) v k
      (in_workspace w) ss d

clear_default-size :
    (b : Bool) (w v : String) (k : StageType) (ss : List Stage)
    → count (in_bucket v k) (clear_default b w ss) ≡ count (in_bucket v k) ss
unfolding clear_default
clear_default-size false w v k ss = refl
clear_default-size true w v k ss =
    still-size _
      (record { workspace_same = λ t. refl; kind_same = λ t. refl; order_same = λ t. refl }) v k
      (in_workspace w) ss

clear_won-IsDense :
    (b : Bool) (w v : String) (k : StageType) (ss : List Stage)
    → IsDense v k ss
    → IsDense v k (clear_won b w ss)
unfolding clear_won
clear_won-IsDense false w v k ss d = d
clear_won-IsDense true w v k ss d =
    still-IsDense _
      (record { workspace_same = λ t. refl; kind_same = λ t. refl; order_same = λ t. refl }) v k
      (in_workspace w) ss d

-- a stage at the end of its bucket
append-IsDense :
    (t : Stage) (v : String) (k : StageType) (ss : List Stage)
    → t.order ≡ count (in_bucket t.workspace_id t.kind) ss + 1
    → IsDense v k ss
    → IsDense v k (ss ++ t ∷ [])
unfolding IsDense
append-IsDense t v k ss last d n = elim (Bool-cases (in_bucket v k t)) [
  | inl e ↦
      let at_end : t.order ≡ count (in_bucket v k) ss + 1 =
        last
        ∙ ap (λ x. count (in_bucket x t.kind) ss + 1)
            ((eq_iff t.workspace_id v).0 (ground (arith, e)))
        ∙ ap (λ x. count (in_bucket v x) ss + 1) ((kind_eq_iff t.kind k).0 (ground (arith, e))) in
      ground (
        arith,
        e,
        at_end,
        d n,
        count-append (at_place v k n) ss t,
        count-append (in_bucket v k) ss t,
      )
  | inr e ↦
      ground (arith, e, d n, count-append (at_place v k n) ss t, count-append (in_bucket v k) ss t)
]

finish_create-IsDense :
    (t : Stage) (s : State) (v : String) (k : StageType)
    → t.order ≡ count (in_bucket t.workspace_id t.kind) s.stages + 1
    → IsDense v k s.stages
    → IsDense v k
        (finish_create t s
          (insert_row t (clear_default t.is_default t.workspace_id s.stages))).1.stages
unfolding finish_create insert_row
finish_create-IsDense t s v k last d =
    let after = clear_default t.is_default t.workspace_id s.stages in
    elim (Bool-cases (any (λ u. str_eq u.id t.id) after)) [
      | inl e ↦ rw (e) d
      | inr e ↦ rw (e) (
          append-IsDense t v k after
            (last
              ∙ ap (λ x. x + 1)
                  (sym (
                    clear_default-size t.is_default t.workspace_id t.workspace_id t.kind s.stages)))
            (clear_default-IsDense t.is_default t.workspace_id v k s.stages d))
    ]

update_found-IsDense :
    (i : String) (dto : StageChanges) (w : String) (s : State) (o : Option Stage) (v : String)
    (k : StageType)
    → IsDense v k s.stages
    → IsDense v k (update_found i dto w s o).1.stages
unfolding update_found update_rows changed
update_found-IsDense i dto w s none v k d = d
update_found-IsDense i dto w s (some t) v k d =
    still-IsDense (changed dto)
      (record { workspace_same = λ t. refl; kind_same = λ t. refl; order_same = λ t. refl }) v k
      (has_id i) _
      (clear_won-IsDense (get_or dto.is_won false) w v k _
        (clear_default-IsDense (get_or dto.is_default false) w v k s.stages d))

-- any call but `reorder`, which places the stages as it is told
unfoldable pub MovesNone : Command → Type 0
MovesNone (reordering ps w) = ⊥
MovesNone _ = Unit

step-IsDense :
    (c : Command) (s : State) (v : String) (k : StageType)
    → MovesNone c
    → IsSound s.stages
    → IsDense v k s.stages
    → IsDense v k (step c s).stages
unfolding step MovesNone create created update bucket_size
step-IsDense (creation i dto w) s v k h sound d = finish_create-IsDense _ s v k refl d
step-IsDense (change i dto w) s v k h sound d =
    update_found-IsDense i dto w s (find_stage i w s) v k d
step-IsDense (removal i w) s v k h sound d = remove-IsDense i w s v k sound d
step-IsDense (reordering ps w) s v k h sound d = elim h [ ]

-- From a state where each identifier names one row and each workspace has one default stage at
-- most, any sequence of creations, changes and removals keeps the places of a bucket those from 1
-- to its size, one stage at each.
pub run-IsDense :
    (cs : List Command) (s : State) (v : String) (k : StageType)
    → All MovesNone cs
    → IsSound s.stages
    → IsDense v k s.stages
    → IsDense v k (run cs s).stages
unfolding run
run-IsDense [] s v k h sound d = d
run-IsDense (c ∷ cs) s v k h sound d =
    run-IsDense cs (step c s) v k h.1 (step-IsSound c s sound) (step-IsDense c s v k h.0 sound d)
