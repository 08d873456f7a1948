-- ===== src/Common/Searches.antt =====
-- What the searches of lists find.
use mathlib.Core.Path.{◌≡◌, refl, sym, ap, ◌∙◌}
use mathlib.Core.Bool.{Bool, true, false}
use mathlib.Core.Option.{some}
use mathlib.Core.List.{List, [], ◌∷◌}
use native.Mathlib.Omega.{arith}
use desk_be.Common.Tests.{if◌then◌else◌}
use desk_be.Common.Values.{get_or}
use desk_be.Common.Lists.{all, find}

-- the test holds of what a search finds
pub find-holds : {A : Type 0} (p : A → Bool) (xs : List A) (a : A) → find p xs ≡ some a → p a ≡ true
find-holds p [] a e = ground (arith, e)
find-holds {A} p (x ∷ xs) a e = by_test (p x) refl e (find-holds p xs a)
  where
    by_test :
        (b : Bool)
        → p x ≡ b
        → (if b then some x else find p xs) ≡ some a
        → (find p xs ≡ some a → p a ≡ true)
        → p a ≡ true
    by_test true k e rest = ap (λ o. p (get_or o x)) (sym e) ∙ k
    by_test false k e rest = rest e

-- what holds of all holds of what is found
pub all-find :
    {A : Type 0} (p q : A → Bool) (xs : List A) (a : A)
    → all p xs ≡ true
    → find q xs ≡ some a
    → p a ≡ true
all-find p q [] a h e = ground (arith, e)
all-find {A} p q (x ∷ xs) a h e = by_test (q x) e (all-find p q xs a (ground (arith, h)))
  where
    by_test :
        (b : Bool)
        → (if b then some x else find q xs) ≡ some a
        → (find q xs ≡ some a → p a ≡ true)
        → p a ≡ true
    by_test true e rest = ap (λ o. p (get_or o x)) (sym e) ∙ ground (arith, h)
    by_test false e rest = rest e
