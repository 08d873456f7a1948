-- ===== src/Lifecycle/Gap.antt =====
-- What `remove` leaves: the stages behind the removed one in its bucket move up by one place, and
-- all other stages stay as they are.
use desk_be.Common.{
  ◌≤◌, String, List, [], ◌∷◌, map, Bool, false, not, some, ◌≡◌, refl, ap, ◌∙◌, keep, All, str_eq,
  eq_refl, Bool-cases, inl, inr, arith, if◌then◌else◌,
}
use desk_be.Lifecycle.{
  Stage, State, done, bad_request, with_stages, by_order, behind, without, remove_row, remove,
  remove_found, find_stage,
}
use desk_be.Lifecycle.Count.{count}
use desk_be.Lifecycle.Defaults.{IsSound, has_id, keep-IsSound}
use desk_be.Lifecycle.Removal.{
  Absent, Distinct, Placed, Agree, moved, shifted, keep-Placed, by_order-All, by_order-any,
  shifted_lem, move_up-map,
}

Absent-of : (t : Stage) (ss : List Stage) → count (has_id t.id) ss ≤ 0 → Absent t ss
unfolding Absent
Absent-of t [] h = tt
Absent-of t (u ∷ ss) h = elim (Bool-cases (str_eq u.id t.id)) [
  | inl e ↦ ground (arith, e)
  | inr e ↦ (e, Absent-of t ss (ground (arith, e)))
]

pub ids-Distinct : (ss : List Stage) → ((i : String) → count (has_id i) ss ≤ 1) → Distinct ss
unfolding Distinct
ids-Distinct [] h = tt
ids-Distinct (t ∷ ss) h = (
  Absent-of t ss (ground (arith, h t.id, eq_refl t.id)),
  ids-Distinct ss (λ i. ground (arith, h i)),
)

map_ext : (f g : Stage → Stage) (ss : List Stage) → All (λ v. f v ≡ g v) ss → map f ss ≡ map g ss
map_ext f g [] h = refl
map_ext f g (v ∷ ss) h = ap (λ x. x ∷ map f ss) h.0 ∙ ap (λ r. g v ∷ r) (map_ext f g ss h.1)

All-imp : (P Q : Stage → Type 0) (ss : List Stage) → ((v : Stage) → P v → Q v) → All P ss → All Q ss
All-imp P Q [] f h = tt
All-imp P Q (v ∷ ss) f h = (f v h.0, All-imp P Q ss f h.1)

-- one row, behind the removed one or not
abbrev pub closed_up : Stage → String → Stage → Stage
closed_up t w u = if behind t w u then moved u else u

loop_row :
    (q : Stage → Bool) (ss : List Stage) (v : Stage)
    → Placed q ss v
    → shifted (by_order (keep q ss)) v ≡ (if q v then moved v else v)
unfolding Placed Agree
loop_row q ss v h =
    shifted_lem (by_order (keep q ss)) v (by_order-All _ (keep q ss) h.1)
    ∙ ap (λ b. if b then moved v else v) (by_order-any (has_id v.id) (keep q ss) ∙ h.0)

pub remove_row-closes :
    (t : Stage) (w : String) (ss : List Stage)
    → IsSound ss
    → remove_row t w ss ≡ map (closed_up t w) (without t.id ss)
unfolding remove_row without
remove_row-closes t w ss s =
    let rest = keep (λ u. not (str_eq u.id t.id)) ss in
    let d : Distinct rest =
      ids-Distinct rest (keep-IsSound (λ u. not (str_eq u.id t.id)) ss s).ids in
    move_up-map (by_order (keep (behind t w) rest)) rest
    ∙ map_ext _ _ rest (
        All-imp (Placed (behind t w) rest) _ rest (loop_row (behind t w) rest)
          (keep-Placed (behind t w) rest d))

-- Where each identifier names one row and each workspace has one default stage at most, removing a
-- stage that is not the default deletes it, moves the stages behind it in its bucket up by one place and leaves all others as they are.
pub remove-closes :
    (i w : String) (s : State) (t : Stage)
    → IsSound s.stages
    → find_stage i w s ≡ some t
    → t.is_default ≡ false
    → remove i w s ≡ (done tt, with_stages (map (closed_up t w) (without t.id s.stages)) s)
unfolding remove remove_found
remove-closes i w s t sound found plain =
    ap (remove_found w s) found
    ∙ ap (λ b. if b then (bad_request, s) else (done tt, with_stages (remove_row t w s.stages) s))
        plain
    ∙ ap (λ ss. (done tt, with_stages ss s)) (remove_row-closes t w s.stages sound)
