-- ===== src/Lifecycle/Count.antt =====
-- How many rows of a table satisfy a test, through the writes of the stages.
use desk_be.Common.{
  ℕ, ◌+◌, ◌≤◌, List, [], ◌∷◌, ◌++◌, Bool, true, false, ◌&&◌, ◌≡◌, refl, any, find, some, keep,
  length, arith,
}
use desk_be.Lifecycle.{Stage, update_many}

abbrev pub count : (Stage → Bool) → List Stage → ℕ
count p ss = length (keep p ss)

abbrev pub bit : Bool → ℕ
bit true = 1
bit false = 0

pub count-cons :
    (p : Stage → Bool) (t : Stage) (ss : List Stage) → count p (t ∷ ss) ≡ bit (p t) + count p ss
count-cons p t ss = ground arith

pub count-append :
    (p : Stage → Bool) (ss : List Stage) (t : Stage)
    → count p (ss ++ t ∷ []) ≡ count p ss + bit (p t)
count-append p [] t = ground arith
count-append p (u ∷ ss) t =
    ground (arith, count-append p ss t, count-cons p u ss, count-cons p u (ss ++ t ∷ []))

pub count-none : (p : Stage → Bool) (ss : List Stage) → any p ss ≡ false → count p ss ≡ 0
count-none p [] h = refl
count-none p (t ∷ ss) h = ground (arith, count-none p ss)

pub count-never :
    (p : Stage → Bool) (ss : List Stage) → ((t : Stage) → p t ≡ false) → count p ss ≡ 0
count-never p [] h = refl
count-never p (t ∷ ss) h = ground (arith, h t, count-never p ss h)

pub count-keep : (p q : Stage → Bool) (ss : List Stage) → count p (keep q ss) ≤ count p ss
count-keep p q [] = ground arith
count-keep p q (t ∷ ss) = ground (arith, count-keep p q ss)

pub count_mono :
    (p q : Stage → Bool) (ss : List Stage)
    → ((t : Stage) → p t ≡ true → q t ≡ true)
    → count p ss ≤ count q ss
count_mono p q [] h = ground arith
count_mono p q (t ∷ ss) h = ground (arith, h t, count_mono p q ss h)

module _ (p q : Stage → Bool) (f : Stage → Stage) where
  -- rows that start to satisfy the test are among those that are written
  pub count-update :
      (ss : List Stage) → count p (update_many q f ss) ≤ count p ss + count (λ t. q t && p (f t)) ss
  count-update [] = ground arith
  count-update (t ∷ ss) = ground (arith, count-update ss)

  pub count-update_same :
      (ss : List Stage)
      → ((t : Stage) → q t ≡ true → p (f t) ≡ p t)
      → count p (update_many q f ss) ≡ count p ss
  count-update_same [] h = refl
  count-update_same (t ∷ ss) h = ground (arith, h t, count-update_same ss h)

  pub count-update_zero :
      (ss : List Stage)
      → ((t : Stage) → q t ≡ true → p (f t) ≡ false)
      → ((t : Stage) → p t ≡ true → q t ≡ true)
      → count p (update_many q f ss) ≡ 0
  count-update_zero [] h g = refl
  count-update_zero (t ∷ ss) h g = ground (arith, h t, g t, count-update_zero ss h g)

  pub count-update_fewer :
      (ss : List Stage)
      → ((t : Stage) → p (f t) ≡ true → p t ≡ true)
      → count p (update_many q f ss) ≤ count p ss
  count-update_fewer [] h = ground arith
  count-update_fewer (t ∷ ss) h = ground (arith, h t, count-update_fewer ss h)

module _ (p q : Stage → Bool) (f : Stage → Stage) where
  pub count-update_more :
      (ss : List Stage)
      → ((t : Stage) → p t ≡ true → p (f t) ≡ true)
      → count p ss ≤ count p (update_many q f ss)
  count-update_more [] h = ground arith
  count-update_more (t ∷ ss) h = ground (arith, h t, count-update_more ss h)

  -- the written rows that satisfy the test afterwards
  pub count-written :
      (ss : List Stage) → count (λ t. q t && p (f t)) ss ≤ count p (update_many q f ss)
  count-written [] = ground arith
  count-written (t ∷ ss) = ground (arith, count-written ss)

pub count-found :
    (p : Stage → Bool) (ss : List Stage) (t : Stage) → find p ss ≡ some t → 1 ≤ count p ss
count-found p [] t h = ground arith
count-found p (u ∷ ss) t h = ground (arith, count-found p ss t)

-- tests that no row satisfies together
pub count-disjoint :
    (p q r : Stage → Bool) (ss : List Stage)
    → ((t : Stage) → p t ≡ true → r t ≡ true)
    → ((t : Stage) → q t ≡ true → r t ≡ true)
    → ((t : Stage) → p t ≡ true → q t ≡ false)
    → count p ss + count q ss ≤ count r ss
count-disjoint p q r [] f g h = ground arith
count-disjoint p q r (t ∷ ss) f g h = ground (arith, f t, g t, h t, count-disjoint p q r ss f g h)
