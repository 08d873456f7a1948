-- ===== src/Lifecycle/Dense.antt =====
-- Removing a stage leaves the places of each bucket without gaps and without doubles.
use mathlib.Core.Path.{subst}
use desk_be.Common.{
  ℕ, ◌+◌, ◌≤◌, String, List, map, Bool, true, false, ◌&&◌, ◌||◌, none, some, ◌≡◌, refl, sym, ap,
  ◌∙◌, find, str_eq, eq_iff, leb, ◌==◌, Bool-cases, Option-cases, inl, inr, arith, if◌then◌else◌,
}
use desk_be.Lifecycle.{
  Stage, StageType, State, done, bad_request, with_stages, in_bucket, is_named, behind, without,
  remove, remove_found, remove_row, find_stage,
}
use desk_be.Lifecycle.Count.{count, bit, count-never}
use desk_be.Lifecycle.Defaults.{IsSound, has_id}
use desk_be.Lifecycle.Removal.{moved}
use desk_be.Lifecycle.Gap.{closed_up, remove-closes}
use desk_be.Lifecycle.Named.{
  count-map, count_ext, count_or, count-without, count-named, found-named, kind_eq_iff,
}

-- the stages of a bucket at a place
abbrev pub at_place : String → StageType → ℕ → Stage → Bool
at_place w k n u = in_bucket w k u && u.order == n

-- The places of a bucket are those from 1 to its size, one stage at each.
unfoldable pub IsDense : String → StageType → List Stage → Type 0
IsDense w k ss =
    (n : ℕ) → count (at_place w k n) ss ≡ bit (leb 1 n && leb n (count (in_bucket w k) ss))

module _ (t : Stage) (w : String) (v : String) (k : StageType) where
  -- in another bucket nothing moves
  other-place :
      (n : ℕ) (u : Stage)
      → in_bucket v k t ≡ false
      → str_eq t.workspace_id w ≡ true
      → at_place v k n (closed_up t w u) ≡ at_place v k n u
  unfolding behind moved
  other-place n u apart named = elim (Bool-cases (behind t w u)) [
    | inl e ↦ rw (e) (
        ground (
          arith,
          e,
          apart,
          named,
          kind_eq_iff u.kind k,
          kind_eq_iff t.kind k,
          kind_eq_iff u.kind t.kind,
          eq_iff u.workspace_id v,
          eq_iff t.workspace_id v,
          eq_iff u.workspace_id w,
          eq_iff t.workspace_id w,
        ))
    | inr e ↦ rw (e) refl
  ]

  other-bucket : (u : Stage) → in_bucket v k (closed_up t w u) ≡ in_bucket v k u
  unfolding behind moved
  other-bucket u = elim (Bool-cases (behind t w u)) [ inl e ↦ rw (e) refl | inr e ↦ rw (e) refl ]

  -- in the bucket, a place is taken by who had it, or by who had the next
  own-place :
      (n : ℕ) (u : Stage)
      → in_bucket v k t ≡ true
      → str_eq t.workspace_id w ≡ true
      → at_place v k n (closed_up t w u)
        ≡ ((at_place v k n u && leb n t.order) || (at_place v k (n + 1) u && leb t.order n))
  unfolding behind moved
  own-place n u inside named = elim (Bool-cases (behind t w u)) [
    | inl e ↦ rw (e) (
        ground (
          arith,
          e,
          inside,
          named,
          kind_eq_iff u.kind k,
          kind_eq_iff t.kind k,
          kind_eq_iff u.kind t.kind,
          eq_iff u.workspace_id v,
          eq_iff t.workspace_id v,
          eq_iff u.workspace_id w,
          eq_iff t.workspace_id w,
        ))
    | inr e ↦ rw (e) (
        ground (
          arith,
          e,
          inside,
          named,
          kind_eq_iff u.kind k,
          kind_eq_iff t.kind k,
          kind_eq_iff u.kind t.kind,
          eq_iff u.workspace_id v,
          eq_iff t.workspace_id v,
          eq_iff u.workspace_id w,
          eq_iff t.workspace_id w,
        ))
  ]

count_and :
    (p : Stage → Bool) (b : Bool) (ss : List Stage)
    → count (λ u. p u && b) ss ≡ (if b then count p ss else 0)
count_and p true ss = count_ext (λ u. p u && true) p ss (λ u. ground arith)
count_and p false ss = count-never (λ u. p u && false) ss (λ u. ground arith)

module _ (w : String) (v : String) (k : StageType) (ss : List Stage) (t : Stage)
    (one : count (has_id t.id) ss ≤ 1) (found : find (is_named t.id w) ss ≡ some t) where
  abbrev rest : List Stage
  rest = without t.id ss

  left_over : (p : Stage → Bool) → count p rest + bit (p t) ≡ count p ss
  left_over p = ground (arith, count-without p t.id ss, count-named p t.id w ss t one found)

  size_after : count (in_bucket v k) (map (closed_up t w) rest) ≡ count (in_bucket v k) rest
  size_after =
      count-map (in_bucket v k) (closed_up t w) rest
      ∙ count_ext (λ u. in_bucket v k (closed_up t w u)) (in_bucket v k) rest (other-bucket t w v k)

  here : str_eq t.workspace_id w ≡ true
  here = ground (arith, found-named t.id w ss t found)

  other-IsDense : in_bucket v k t ≡ false → IsDense v k ss → IsDense v k (map (closed_up t w) rest)
  unfolding IsDense
  other-IsDense apart d n =
      let place : count (at_place v k n) (map (closed_up t w) rest) ≡ count (at_place v k n) rest =
        count-map (at_place v k n) (closed_up t w) rest
        ∙ count_ext (λ u. at_place v k n (closed_up t w u)) (at_place v k n) rest
            (λ u. other-place t w v k n u apart here) in
      ground (
        arith,
        place,
        size_after,
        d n,
        apart,
        left_over (at_place v k n),
        left_over (in_bucket v k),
      )

  place_after :
      (n : ℕ)
      → in_bucket v k t ≡ true
      → count (at_place v k n) (map (closed_up t w) rest)
        ≡ (if leb n t.order then count (at_place v k n) rest else 0)
          + (if leb t.order n then count (at_place v k (n + 1)) rest else 0)
  place_after n inside =
      count-map (at_place v k n) (closed_up t w) rest
      ∙ count_ext (λ u. at_place v k n (closed_up t w u)) _ rest
          (λ u. own-place t w v k n u inside here)
      ∙ count_or (λ u. at_place v k n u && leb n t.order)
          (λ u. at_place v k (n + 1) u && leb t.order n) rest (λ u e. ground (arith, e))
      ∙ ap (λ x. x + count (λ u. at_place v k (n + 1) u && leb t.order n) rest)
          (count_and (at_place v k n) (leb n t.order) rest)
      ∙ ap (λ x. (if leb n t.order then count (at_place v k n) rest else 0) + x)
          (count_and (at_place v k (n + 1)) (leb t.order n) rest)

  own-IsDense : in_bucket v k t ≡ true → IsDense v k ss → IsDense v k (map (closed_up t w) rest)
  unfolding IsDense
  own-IsDense inside d n = ground (
    arith,
    place_after n inside,
    size_after,
    d n,
    d (n + 1),
    d t.order,
    inside,
    left_over (at_place v k n),
    left_over (at_place v k (n + 1)),
    left_over (at_place v k t.order),
    left_over (in_bucket v k),
  )

closed-IsDense :
    (i w : String) (ss : List Stage) (v : String) (k : StageType) (t : Stage)
    → IsSound ss
    → find (is_named i w) ss ≡ some t
    → IsDense v k ss
    → IsDense v k (map (closed_up t w) (without t.id ss))
closed-IsDense i w ss v k t sound found d =
    let id_is : i ≡ t.id = sym ((eq_iff t.id i).0 (ground (arith, found-named i w ss t found))) in
    let named : find (is_named t.id w) ss ≡ some t =
      subst (λ j. find (is_named j w) ss ≡ some t) id_is found in
    elim (Bool-cases (in_bucket v k t)) [
      | inl e ↦ own-IsDense w v k ss t (sound.ids t.id) named e d
      | inr e ↦ other-IsDense w v k ss t (sound.ids t.id) named e d
    ]

missing_row :
    (w : String) (s : State) (v : String) (k : StageType)
    → IsDense v k s.stages
    → IsDense v k (remove_found w s none).1.stages
unfolding remove_found
missing_row w s v k d = d

found-IsDense :
    (i w : String) (s : State) (v : String) (k : StageType) (t : Stage)
    → IsSound s.stages
    → find_stage i w s ≡ some t
    → IsDense v k s.stages
    → IsDense v k (remove i w s).1.stages
unfolding find_stage remove remove_found
found-IsDense i w s v k t sound found d = elim (Bool-cases t.is_default) [
  | inl e ↦
      subst (λ r. IsDense v k r.1.stages)
        (sym (
          ap (remove_found w s) found
          ∙ ap
              (λ b.
                if b then (bad_request, s) else (done tt, with_stages (remove_row t w s.stages) s))
              e))
        d
  | inr e ↦
      subst (λ r. IsDense v k r.1.stages) (sym (remove-closes i w s t sound found e))
        (closed-IsDense i w s.stages v k t sound found d)
]

-- Where each identifier names one row and each workspace has one default stage at most, a call of
-- `remove`, on every branch, keeps the places of a
-- bucket, of whatever workspace and type, without gaps and without doubles.
pub remove-IsDense :
    (i w : String) (s : State) (v : String) (k : StageType)
    → IsSound s.stages
    → IsDense v k s.stages
    → IsDense v k (remove i w s).1.stages
unfolding remove find_stage
remove-IsDense i w s v k sound d = elim (Option-cases (find_stage i w s)) [
  | inl e ↦ subst (λ o. IsDense v k (remove_found w s o).1.stages) (sym e) (missing_row w s v k d)
  | inr (t, e) ↦ found-IsDense i w s v k t sound e d
]
