-- ===== src/Lifecycle/Removal.antt =====
-- The loop of `remove`, which writes one row at a time, closes the gap that the stage leaves.
use desk_be.Common.{
  ◌-◌, List, [], ◌∷◌, map, Bool, true, false, ◌||◌, ◌≡◌, refl, ap, ◌∙◌, any, keep, All, str_eq,
  eq_iff, eq_refl, Bool-cases, inl, inr, arith, if◌then◌else◌, leb,
}
use desk_be.Lifecycle.{Stage, insert_stage, by_order, move_up}
use desk_be.Lifecycle.Defaults.{has_id}

-- what the loop makes of one row
unfoldable pub shifted : List Stage → Stage → Stage
shifted [] v = v
shifted (u ∷ us) v = shifted us (if str_eq v.id u.id then record v { order = u.order - 1 } else v)

map-map :
    {A B C : Type 0} (g : B → C) (f : A → B) (xs : List A)
    → map g (map f xs) ≡ map (λ x. g (f x)) xs
map-map g f [] = refl
map-map g f (x ∷ xs) = ap (λ r. g (f x) ∷ r) (map-map g f xs)

pub move_up-map : (us ss : List Stage) → move_up us ss ≡ map (shifted us) ss
unfolding move_up shifted
move_up-map [] [] = refl
move_up-map [] (t ∷ ss) = ap (λ r. t ∷ r) (move_up-map [] ss)
move_up-map (u ∷ us) ss = move_up-map us _ ∙ map-map (shifted us) _ ss

-- Rows of the list with the identifier of a row have its place.
unfoldable pub Agree : Stage → List Stage → Type 0
Agree v us = All (λ u. str_eq u.id v.id ≡ true → u.order ≡ v.order) us

unfoldable pub moved : Stage → Stage
moved v = record v { order = v.order - 1 }

-- once a row has moved, it stays
shifted-moved : (us : List Stage) (v : Stage) → Agree v us → shifted us (moved v) ≡ moved v
unfolding shifted Agree moved
shifted-moved [] v h = refl
shifted-moved (u ∷ us) v h = elim (Bool-cases (str_eq v.id u.id)) [
  | inl e ↦
      rw (e, h.0 (ground (arith, e, eq_iff u.id v.id, eq_iff v.id u.id))) (shifted-moved us v h.1)
  | inr e ↦ rw (e) (shifted-moved us v h.1)
]

pub shifted_lem :
    (us : List Stage) (v : Stage)
    → Agree v us
    → shifted us v ≡ (if any (has_id v.id) us then moved v else v)
unfolding shifted Agree moved
shifted_lem [] v h = refl
shifted_lem (u ∷ us) v h = elim (Bool-cases (str_eq v.id u.id)) [
  | inl e ↦
      let e' : str_eq u.id v.id ≡ true = ground (arith, e, eq_iff u.id v.id, eq_iff v.id u.id) in
      rw (e, e', h.0 e') (shifted-moved us v h.1)
  | inr e ↦
      let e' : str_eq u.id v.id ≡ false = ground (arith, e, eq_iff u.id v.id, eq_iff v.id u.id) in
      rw (e, e') (shifted_lem us v h.1)
]

insert-any :
    (p : Stage → Bool) (t : Stage) (us : List Stage) → any p (insert_stage t us) ≡ (p t || any p us)
unfolding insert_stage
insert-any p t [] = refl
insert-any p t (u ∷ us) = ground (arith, insert-any p t us)

pub by_order-any : (p : Stage → Bool) (us : List Stage) → any p (by_order us) ≡ any p us
unfolding by_order
by_order-any p [] = refl
by_order-any p (u ∷ us) = insert-any p u (by_order us) ∙ ap (λ b. p u || b) (by_order-any p us)

insert-All :
    (P : Stage → Type 0) (t : Stage) (us : List Stage) → P t → All P us → All P (insert_stage t us)
unfolding insert_stage
insert-All P t [] h k = (h, tt)
insert-All P t (u ∷ us) h k = elim (Bool-cases (leb t.order u.order)) [
  | inl e ↦ rw (e) (h, k)
  | inr e ↦ rw (e) (k.0, insert-All P t us h k.1)
]

pub by_order-All : (P : Stage → Type 0) (us : List Stage) → All P us → All P (by_order us)
unfolding by_order
by_order-All P [] h = tt
by_order-All P (u ∷ us) h = insert-All P u (by_order us) h.0 (by_order-All P us h.1)

keep-All : (P : Stage → Type 0) (q : Stage → Bool) (us : List Stage) → All P us → All P (keep q us)
keep-All P q [] h = tt
keep-All P q (u ∷ us) h = elim (Bool-cases (q u)) [
  | inl e ↦ rw (e) (h.0, keep-All P q us h.1)
  | inr e ↦ rw (e) (keep-All P q us h.1)
]

zip-All :
    (P Q R : Stage → Type 0) (us : List Stage)
    → ((u : Stage) → P u → Q u → R u)
    → All P us
    → All Q us
    → All R us
zip-All P Q R [] f h k = tt
zip-All P Q R (u ∷ us) f h k = (f u h.0 k.0, zip-All P Q R us f h.1 k.1)

-- no row of the list has the identifier of a row
unfoldable pub Absent : Stage → List Stage → Type 0
Absent t us = All (λ u. str_eq u.id t.id ≡ false) us

pub Absent-any : (t : Stage) (us : List Stage) → Absent t us → any (has_id t.id) us ≡ false
unfolding Absent
Absent-any t [] h = refl
Absent-any t (u ∷ us) h = rw (h.0) (Absent-any t us h.1)

Absent-Agree : (t : Stage) (us : List Stage) → Absent t us → Agree t us
unfolding Absent Agree
Absent-Agree t [] h = tt
Absent-Agree t (u ∷ us) h = ((λ e. ground (arith, e, h.0)), Absent-Agree t us h.1)

unfoldable pub Distinct : List Stage → Type 0
unfolding Absent
Distinct [] = Unit
Distinct (t ∷ ss) = Absent t ss × Distinct ss

-- A row of the list is in the part that a test keeps just when it satisfies the test.
unfoldable pub Placed : (Stage → Bool) → List Stage → Stage → Type 0
unfolding Agree
Placed q us v = (any (has_id v.id) (keep q us) ≡ q v) × Agree v (keep q us)

head-Placed : (q : Stage → Bool) (t : Stage) (ss : List Stage) → Absent t ss → Placed q (t ∷ ss) t
unfolding Placed Absent
head-Placed q t ss h =
    let k : Absent t (keep q ss) = keep-All _ q ss h in
    elim (Bool-cases (q t)) [
      | inl e ↦ rw (e) (ground (arith, eq_refl t.id), ((λ _. refl), Absent-Agree t (keep q ss) k))
      | inr e ↦ rw (e) (Absent-any t (keep q ss) k, Absent-Agree t (keep q ss) k)
    ]

tail-Placed :
    (q : Stage → Bool) (t : Stage) (ss : List Stage) (v : Stage)
    → str_eq v.id t.id ≡ false
    → Placed q ss v
    → Placed q (t ∷ ss) v
unfolding Placed
tail-Placed q t ss v ne h = elim (Bool-cases (q t)) [
  | inl e ↦
      let other : str_eq t.id v.id ≡ false =
        ground (arith, ne, eq_iff t.id v.id, eq_iff v.id t.id) in
      rw (e) (rw (other) h.0, ((λ same. ground (arith, same, other)), h.1))
  | inr e ↦ rw (e) h
]

pub keep-Placed : (q : Stage → Bool) (ss : List Stage) → Distinct ss → All (Placed q ss) ss
unfolding Distinct
keep-Placed q [] d = tt
keep-Placed q (t ∷ ss) d = (
  head-Placed q t ss d.0,
  zip-All _ (Placed q ss) _ ss (tail-Placed q t ss) d.0 (keep-Placed q ss d.1),
)
