-- ===== src/Lifecycle/Existence.antt =====
-- The writes of the lifecycle service, and the workspaces that have a default stage.
use mathlib.Core.Path.{subst}
use desk_be.Common.{
  ◌≤◌, String, List, [], ◌∷◌, ◌++◌, map, Bool, true, false, ◌&&◌, Option, none, some, ◌≡◌, ◌≢◌,
  refl, sym, ◌∙◌, find, get_or, str_eq, eq_iff, Bool-cases, inl, inr, arith,
}
use desk_be.Lifecycle.{
  Stage, StageChanges, in_workspace, is_named, update_many, clear_default, clear_won, changed,
  remove_row, without, behind,
}
use desk_be.Lifecycle.Count.{
  count, count-append, count-update_same, count-found, count_mono, count-update_more, count-written,
}
use desk_be.Lifecycle.Defaults.{IsSound, has_id, default_of}
use desk_be.Lifecycle.Named.{count-without, count-named, count-map, count_ext, found-named}
use desk_be.Lifecycle.Removal.{moved}
use desk_be.Lifecycle.Gap.{closed_up, remove_row-closes}
use desk_be.Lifecycle.Sound.{clears-count, clear_won-default}

abbrev pub HasDefault : String → List Stage → Type 0
HasDefault v ss = 1 ≤ count (default_of v) ss

-- the clearing of the defaults of one workspace leaves those of another
clear-other :
    (w v : String) (ss : List Stage)
    → w ≢ v
    → count (default_of v) (clear_default true w ss) ≡ count (default_of v) ss
unfolding clear_default
clear-other w v ss ne =
    count-update_same (default_of v) (in_workspace w) (λ t. record t { is_default = false }) ss
      (λ t e. ground (arith, e, ne, eq_iff t.workspace_id w, eq_iff t.workspace_id v))

pub append-HasDefault :
    (b : Bool) (t : Stage) (v : String) (ss : List Stage)
    → b ≡ t.is_default
    → HasDefault v ss
    → HasDefault v (clear_default b t.workspace_id ss ++ t ∷ [])
unfolding clear_default
append-HasDefault false t v ss e h = ground (arith, h, count-append (default_of v) ss t)
append-HasDefault true t v ss e h = elim (Bool-cases (str_eq t.workspace_id v)) [
  | inl same ↦
      ground (arith, same, e, count-append (default_of v) (clear_default true t.workspace_id ss) t)
  | inr other ↦ ground (
    arith,
    h,
    count-append (default_of v) (clear_default true t.workspace_id ss) t,
    clear-other t.workspace_id v ss (ground (arith, other, eq_iff t.workspace_id v)),
  )
]

-- A removal takes no default away.
closed-default :
    (t : Stage) (w v : String) (u : Stage) → default_of v (closed_up t w u) ≡ default_of v u
unfolding behind moved
closed-default t w v u = elim (Bool-cases (behind t w u)) [
  | inl e ↦ rw (e) refl
  | inr e ↦ rw (e) refl
]

pub removed-HasDefault :
    (i w v : String) (ss : List Stage) (t : Stage)
    → IsSound ss
    → find (is_named i w) ss ≡ some t
    → t.is_default ≡ false
    → HasDefault v ss
    → HasDefault v (remove_row t w ss)
removed-HasDefault i w v ss t sound found plain h =
    let id_is : i ≡ t.id = sym ((eq_iff t.id i).0 (ground (arith, found-named i w ss t found))) in
    let named : find (is_named t.id w) ss ≡ some t =
      subst (λ j. find (is_named j w) ss ≡ some t) id_is found in
    let same : count (default_of v) (map (closed_up t w) (without t.id ss))
        ≡ count (default_of v) (without t.id ss) =
      count-map (default_of v) (closed_up t w) (without t.id ss)
      ∙ count_ext (λ u. default_of v (closed_up t w u)) (default_of v) (without t.id ss)
          (closed-default t w v) in
    subst (HasDefault v) (sym (remove_row-closes t w ss sound)) (
      ground (
        arith,
        same,
        h,
        plain,
        count-without (default_of v) t.id ss,
        count-named (default_of v) t.id w ss t (sound.ids t.id) named,
      ))

-- an update that does not ask for the flag to be taken away
unfoldable pub KeepsFlag : Option Bool → Type 0
KeepsFlag none = Unit
KeepsFlag (some true) = Unit
KeepsFlag (some false) = ⊥

flag_stays : (o : Option Bool) (d : Bool) → KeepsFlag o → d ≡ true → get_or o d ≡ true
unfolding KeepsFlag
flag_stays none d k h = h
flag_stays (some true) d k h = refl
flag_stays (some false) d k h = elim k [ ]

set_flag : (o : Option Bool) (d : Bool) → get_or o false ≡ true → get_or o d ≡ true
set_flag none d h = ground (arith, h)
set_flag (some b) d h = h

module _ (i w v : String) (dto : StageChanges) (ss : List Stage) (t : Stage)
    (flag : KeepsFlag dto.is_default) (found : find (is_named i w) ss ≡ some t)
    (h : HasDefault v ss) where
  abbrev cleared_rows : Bool → List Stage
  cleared_rows b = clear_won (get_or dto.is_won false) w (clear_default b w ss)

  -- the row that becomes the default
  made :
      (b : Bool)
      → get_or dto.is_default false ≡ true
      → HasDefault w (update_many (has_id i) (changed dto) (cleared_rows b))
  unfolding changed
  made b e =
      let there : 1 ≤ count (λ u. has_id i u && in_workspace w u) (cleared_rows b) = ground (
        arith,
        count-found (is_named i w) ss t found,
        clears-count b (get_or dto.is_won false) w (λ u. has_id i u && in_workspace w u) ss
            (λ u x y. refl),
      ) in
      let chosen : count (λ u. has_id i u && in_workspace w u) (cleared_rows b)
          ≤ count (λ u. has_id i u && default_of w (changed dto u)) (cleared_rows b) =
        count_mono (λ u. has_id i u && in_workspace w u)
          (λ u. has_id i u && default_of w (changed dto u)) (cleared_rows b)
          (λ u k. ground (arith, k, set_flag dto.is_default u.is_default e)) in
      ground (
        arith,
        there,
        chosen,
        count-written (default_of w) (has_id i) (changed dto) (cleared_rows b),
      )

  kept_default_rows :
      (b : Bool)
      → count (default_of v) (clear_default b w ss) ≡ count (default_of v) ss
      → HasDefault v (update_many (has_id i) (changed dto) (cleared_rows b))
  unfolding changed
  kept_default_rows b same = ground (
    arith,
    h,
    same,
    clear_won-default (get_or dto.is_won false) w v (clear_default b w ss),
    count-update_more (default_of v) (has_id i) (changed dto) (cleared_rows b)
        (λ u k. ground (arith, k, flag_stays dto.is_default u.is_default flag)),
  )

  pub updated :
      (b : Bool)
      → b ≡ get_or dto.is_default false
      → HasDefault v (update_many (has_id i) (changed dto) (cleared_rows b))
  unfolding clear_default
  updated false e = kept_default_rows false refl
  updated true e = elim (Bool-cases (str_eq w v)) [
    | inl same ↦
        subst (λ x. HasDefault x (update_many (has_id i) (changed dto) (cleared_rows true)))
          ((eq_iff w v).0 same) (made true (sym e))
    | inr other ↦ kept_default_rows true (clear-other w v ss (ground (arith, other, eq_iff w v)))
  ]
