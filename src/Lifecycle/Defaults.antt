-- ===== src/Lifecycle/Defaults.antt =====
-- A workspace never has two default stages.
use mathlib.Core.Path.{subst}
use desk_be.Common.{
  ℕ, ◌≤◌, String, List, [], ◌∷◌, ◌++◌, Bool, true, false, ◌&&◌, some, ◌≡◌, ◌≢◌, refl, ap, ◌∙◌, any,
  keep, find, str_eq, eq_iff, Bool-cases, inl, inr, arith,
}
use desk_be.Lifecycle.{
  Stage, State, in_workspace, is_named, update_many, clear_default, insert_row, finish_create,
  move_up, place_all,
}
use desk_be.Lifecycle.Count.{
  count, count-append, count-none, count-found, count-disjoint, count-never, count-keep,
  count-update, count-update_same, count-update_zero,
}

abbrev pub has_id : String → Stage → Bool
has_id i t = str_eq t.id i

abbrev pub default_of : String → Stage → Bool
default_of w t = in_workspace w t && t.is_default

-- The identifiers are those of different rows, and each workspace has one default at most.
pub record IsSound (ss : List Stage) : Type 0 where
  pub ids : (i : String) → count (has_id i) ss ≤ 1
  pub defaults : (w : String) → count (default_of w) ss ≤ 1

-- a write that keeps the identifier, the workspace and the default of every row
pub record IsHarmless (f : Stage → Stage) : Type 0 where
  pub id_same : (t : Stage) → (f t).id ≡ t.id
  pub workspace_same : (t : Stage) → (f t).workspace_id ≡ t.workspace_id
  pub default_same : (t : Stage) → (f t).is_default ≡ t.is_default

pub harmless-IsSound :
    (q : Stage → Bool) (f : Stage → Stage) (ss : List Stage)
    → IsHarmless f
    → IsSound ss
    → IsSound (update_many q f ss)
harmless-IsSound q f ss h s = record {
  ids = λ i. ground (
    arith,
    s.ids i,
    count-update_same (has_id i) q f ss (λ t _. ap (λ j. str_eq j i) (h.id_same t)),
  );
  defaults = λ w. ground (
    arith,
    s.defaults w,
    count-update_same (default_of w) q f ss (λ t _.
        ap (λ j. str_eq j w && (f t).is_default) (h.workspace_same t)
        ∙ ap (λ b. in_workspace w t && b) (h.default_same t)),
  );
}

pub move_up-IsSound : (us ss : List Stage) → IsSound ss → IsSound (move_up us ss)
unfolding move_up
move_up-IsSound [] ss s = s
move_up-IsSound (u ∷ us) ss s = move_up-IsSound us _ (
    harmless-IsSound _ _ ss
      (record { id_same = λ t. refl; workspace_same = λ t. refl; default_same = λ t. refl }) s)

pub place_all-IsSound :
    (ps : List (String × ℕ)) (w : String) (ss : List Stage)
    → IsSound ss
    → IsSound (place_all ps w ss)
unfolding place_all
place_all-IsSound [] w ss s = s
place_all-IsSound ((i, n) ∷ ps) w ss s = place_all-IsSound ps w _ (
    harmless-IsSound _ _ ss
      (record { id_same = λ t. refl; workspace_same = λ t. refl; default_same = λ t. refl }) s)

pub keep-IsSound : (q : Stage → Bool) (ss : List Stage) → IsSound ss → IsSound (keep q ss)
keep-IsSound q ss s = record {
  ids = λ i. ground (arith, s.ids i, count-keep (has_id i) q ss);
  defaults = λ w. ground (arith, s.defaults w, count-keep (default_of w) q ss);
}

-- clearing the defaults of a workspace leaves it none, and the others theirs
pub clear_default-IsSound :
    (b : Bool) (w : String) (ss : List Stage) → IsSound ss → IsSound (clear_default b w ss)
unfolding clear_default
clear_default-IsSound false w ss s = s
clear_default-IsSound true w ss s = record {
  ids = λ i. ground (
    arith,
    s.ids i,
    count-update_same (has_id i) (in_workspace w) (λ t. record t { is_default = false }) ss
        (λ t _. refl),
  );
  defaults = λ v. ground (
    arith,
    s.defaults v,
    count-update (default_of v) (in_workspace w) (λ t. record t { is_default = false }) ss,
    count-never (λ t. in_workspace w t && (in_workspace v t && false)) ss (λ t. ground arith),
  );
}

pub clear_default-zero :
    (w : String) (ss : List Stage) → count (default_of w) (clear_default true w ss) ≡ 0
unfolding clear_default
clear_default-zero w ss =
    count-update_zero (default_of w) (in_workspace w) _ ss (λ t e. ground (arith, e))
      (λ t e. ground (arith, e))

insert-IsSound :
    (t : Stage) (ss : List Stage)
    → any (λ u. str_eq u.id t.id) ss ≡ false
    → ((w : String) → default_of w t ≡ true → count (default_of w) ss ≡ 0)
    → IsSound ss
    → IsSound (ss ++ t ∷ [])
insert-IsSound t ss new alone s = record {
  ids = λ i. elim (Bool-cases (str_eq t.id i)) [
    | inl e ↦
        let free : count (has_id i) ss ≡ 0 =
          count-none (has_id i) ss
            (subst (λ j. any (has_id j) ss ≡ false) ((eq_iff t.id i).0 e) new) in
        ground (arith, e, free, count-append (has_id i) ss t)
    | inr e ↦ ground (arith, e, s.ids i, count-append (has_id i) ss t)
  ];
  defaults = λ w. elim (Bool-cases (default_of w t)) [
    | inl e ↦ ground (arith, e, alone w, count-append (default_of w) ss t)
    | inr e ↦ ground (arith, e, s.defaults w, count-append (default_of w) ss t)
  ];
}

pub cleared :
    (b : Bool) (w v : String) (ss : List Stage)
    → b ≡ true
    → w ≡ v
    → count (default_of v) (clear_default b w ss) ≡ 0
cleared true w v ss e same =
    subst (λ x. count (default_of x) (clear_default true w ss) ≡ 0) same (clear_default-zero w ss)
cleared false w v ss e same = ground (arith, e)

added-IsSound :
    (t : Stage) (ss : List Stage)
    → IsSound ss
    → any (λ u. str_eq u.id t.id) (clear_default t.is_default t.workspace_id ss) ≡ false
    → IsSound (clear_default t.is_default t.workspace_id ss ++ t ∷ [])
added-IsSound t ss s new =
    insert-IsSound t _ new
      (λ w e.
        cleared t.is_default t.workspace_id w ss (ground (arith, e))
          ((eq_iff t.workspace_id w).0 (ground (arith, e))))
      (clear_default-IsSound t.is_default t.workspace_id ss s)

pub finish_create-IsSound :
    (t : Stage) (s : State)
    → IsSound s.stages
    → IsSound
        (finish_create t s
          (insert_row t (clear_default t.is_default t.workspace_id s.stages))).1.stages
unfolding finish_create insert_row
finish_create-IsSound t s h =
    elim (Bool-cases
      (any (λ u. str_eq u.id t.id) (clear_default t.is_default t.workspace_id s.stages))) [
        | inl e ↦ rw (e) h
        | inr e ↦ rw (e) (added-IsSound t s.stages h e)
      ]

-- Under one identifier there is no row of another workspace.
pub elsewhere :
    (i w v : String) (ss : List Stage) (t : Stage)
    → count (has_id i) ss ≤ 1
    → find (is_named i w) ss ≡ some t
    → w ≢ v
    → count (λ u. has_id i u && in_workspace v u) ss ≡ 0
elsewhere i w v ss t one found ne = ground (
  arith,
  one,
  count-found (is_named i w) ss t found,
  count-disjoint (is_named i w) (λ u. has_id i u && in_workspace v u) (has_id i) ss
      (λ u e. ground (arith, e)) (λ u e. ground (arith, e))
      (λ u e. ground (arith, e, ne, eq_iff u.workspace_id w, eq_iff u.workspace_id v)),
)
