-- ===== src/Workflows/Tables.antt =====
-- Lemmas on the association lists and the rows of src/modules/workflows/workflow-engine.service.ts.
use mathlib.Core.Path.{subst}
use desk_be.Common.{
  String, List, [], ◌∷◌, ◌++◌, map, Bool, true, false, Option, none, some, find, lookup, str_eq,
  ◌≡◌, refl, sym, eq_iff, eq_refl, if◌then◌else◌, arith,
}
use desk_be.Workflows.Values.{put, remove}
use desk_be.Workflows.World.{Run, World}

module _ {A : Type 0} where
  pub lookup-put_same :
      (key : String) (a : A) (m : List (String × A)) → lookup key (put key a m) ≡ some a
  unfolding put
  lookup-put_same key a [] = ground (arith, eq_refl key)
  lookup-put_same key a ((k, v) ∷ m) =
      ground (arith, eq_refl key, lookup-put_same key a m, eq_iff k key)

  pub lookup-put_other :
      (key other : String) (a : A) (m : List (String × A))
      → str_eq key other ≡ false
      → lookup other (put key a m) ≡ lookup other m
  unfolding put
  lookup-put_other key other a [] h = ground (arith, h)
  lookup-put_other key other a ((k, v) ∷ m) h =
      ground (arith, h, lookup-put_other key other a m h, eq_iff k key, eq_iff k other)

  pub lookup-remove_same : (key : String) (m : List (String × A)) → lookup key (remove key m) ≡ none
  unfolding remove
  lookup-remove_same key [] = refl
  lookup-remove_same key ((k, v) ∷ m) = ground (arith, lookup-remove_same key m)

  pub lookup-remove_other :
      (key other : String) (m : List (String × A))
      → str_eq key other ≡ false
      → lookup other (remove key m) ≡ lookup other m
  unfolding remove
  lookup-remove_other key other [] h = refl
  lookup-remove_other key other ((k, v) ∷ m) h =
      ground (arith, h, lookup-remove_other key other m h, eq_iff k key, eq_iff k other)

-- the change of one row
abbrev pub changed : String → (Run → Run) → Option Run → Option Run
changed id f none = none
changed id f (some r) = some (if str_eq r.id id then f r else r)

pub find-map_update :
    (id j : String) (f : Run → Run) (rs : List Run)
    → ((r : Run) → (f r).id ≡ r.id)
    → find (λ r. str_eq r.id j) (map (λ r. if str_eq r.id id then f r else r) rs)
      ≡ changed id f (find (λ r. str_eq r.id j) rs)
find-map_update id j f [] h = refl
find-map_update id j f (r ∷ rs) h = ground (arith, h r, find-map_update id j f rs h)

pub find-id :
    (j : String) (rs : List Run) (r : Run) → find (λ s. str_eq s.id j) rs ≡ some r → r.id ≡ j
find-id j [] r h = ground (arith, h)
find-id j (s ∷ rs) r h = ground (arith, h, find-id j rs r, eq_iff s.id j)

pub find-append_found :
    (j : String) (rs : List Run) (r s : Run)
    → find (λ t. str_eq t.id j) rs ≡ some r
    → find (λ t. str_eq t.id j) (rs ++ s ∷ []) ≡ some r
find-append_found j [] r s h = ground (arith, h)
find-append_found j (t ∷ rs) r s h = ground (arith, h, find-append_found j rs r s)

pub find-append_new :
    (rs : List Run) (s : Run)
    → find (λ t. str_eq t.id s.id) rs ≡ none
    → find (λ t. str_eq t.id s.id) (rs ++ s ∷ []) ≡ some s
find-append_new [] s h = ground (arith, eq_refl s.id)
find-append_new (t ∷ rs) s h = ground (arith, h, find-append_new rs s)

-- what holds of the branch that is taken
pub at_some :
    {A : Type 0} (P : World → Type 0) (o : Option A) (a : A) (w : World) (f : A → World)
    → o ≡ some a
    → P (f a)
    → P (elim o [ none ↦ w | some b ↦ f b ])
at_some P o a w f e p = subst (λ o. P (elim o [ none ↦ w | some b ↦ f b ])) (sym e) p

pub at_true :
    (P : World → Type 0) (b : Bool) (v w : World) → b ≡ true → P v → P (if b then v else w)
at_true P b v w e p = subst (λ b. P (if b then v else w)) (sym e) p

pub at_both : (P : World → Type 0) (b : Bool) (v w : World) → P v → P w → P (if b then v else w)
at_both P true v w p q = p
at_both P false v w p q = q
