-- ===== src/Lifecycle/Named.antt =====
-- How many rows a test holds of, where each identifier names one row (src/modules/lifecycle).
use mathlib.Core.Path.{subst}
use mathlib.Core.Option.{some_inj}
use desk_be.Common.{
  ◌+◌, ◌≤◌, String, List, [], ◌∷◌, map, Bool, true, false, ◌&&◌, ◌||◌, some, ◌≡◌, ◌↔◌, refl, sym,
  ap, ◌∙◌, find, Bool-cases, inl, inr, arith, if◌then◌else◌,
}
use desk_be.Lifecycle.{Stage, StageType, is_named, kind_eq, without}
use desk_be.Lifecycle.Count.{count, bit, count-found, count_mono}
use desk_be.Lifecycle.Defaults.{has_id}

pub count-map :
    (p : Stage → Bool) (f : Stage → Stage) (ss : List Stage)
    → count p (map f ss) ≡ count (λ u. p (f u)) ss
count-map p f [] = refl
count-map p f (u ∷ ss) = ground (arith, count-map p f ss)

pub count_ext :
    (p q : Stage → Bool) (ss : List Stage) → ((u : Stage) → p u ≡ q u) → count p ss ≡ count q ss
count_ext p q [] h = refl
count_ext p q (u ∷ ss) h = ground (arith, h u, count_ext p q ss h)

pub count_or :
    (p q : Stage → Bool) (ss : List Stage)
    → ((u : Stage) → p u ≡ true → q u ≡ false)
    → count (λ u. p u || q u) ss ≡ count p ss + count q ss
count_or p q [] h = refl
count_or p q (u ∷ ss) h = ground (arith, h u, count_or p q ss h)

pub count-without :
    (p : Stage → Bool) (i : String) (ss : List Stage)
    → count p (without i ss) + count (λ u. p u && has_id i u) ss ≡ count p ss
unfolding without
count-without p i [] = refl
count-without p i (u ∷ ss) = ground (arith, count-without p i ss)

-- Among the rows with an identifier that one row has, there is just that row.
pub count-named :
    (p : Stage → Bool) (i w : String) (ss : List Stage) (t : Stage)
    → count (has_id i) ss ≤ 1
    → find (is_named i w) ss ≡ some t
    → count (λ u. p u && has_id i u) ss ≡ bit (p t)
count-named p i w [] t one found = ground (arith, found)
count-named p i w (u ∷ ss) t one found = elim (Bool-cases (is_named i w u)) [
  | inl e ↦
      let same : u ≡ t =
        some_inj.0 (sym (ap (λ b. if b then some u else find (is_named i w) ss) e) ∙ found) in
      let others : count (λ v. p v && has_id i v) ss ≤ count (has_id i) ss =
        count_mono (λ v. p v && has_id i v) (has_id i) ss (λ v h. ground (arith, h)) in
      ground (arith, one, e, others, ap p same)
  | inr e ↦
      let later : find (is_named i w) ss ≡ some t =
        sym (ap (λ b. if b then some u else find (is_named i w) ss) e) ∙ found in
      let there : 1 ≤ count (has_id i) ss = ground (
        arith,
        count-found (is_named i w) ss t later,
        count_mono (is_named i w) (has_id i) ss (λ v h. ground (arith, h)),
      ) in
      ground (arith, one, there, count-named p i w ss t (ground (arith, one)) later)
]

-- the row that was found
pub found-named :
    (i w : String) (ss : List Stage) (t : Stage)
    → find (is_named i w) ss ≡ some t
    → is_named i w t ≡ true
found-named i w [] t h = ground (arith, h)
found-named i w (u ∷ ss) t h = elim (Bool-cases (is_named i w u)) [
  | inl e ↦
      subst (λ v. is_named i w v ≡ true)
        (some_inj.0 (sym (ap (λ b. if b then some u else find (is_named i w) ss) e) ∙ h)) e
  | inr e ↦
      found-named i w ss t (sym (ap (λ b. if b then some u else find (is_named i w) ss) e) ∙ h)
]

pub kind_eq_iff : (a b : StageType) → (kind_eq a b ≡ true) ↔ (a ≡ b)
unfolding kind_eq
kind_eq_iff a b = ground arith
