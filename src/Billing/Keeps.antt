-- ===== src/Billing/Keeps.antt =====
-- Relations that a method of the billing service keeps between the state before it and after it,
-- whether it returns or throws.
use desk_be.Common.{String, Bool, true, false, ◌≡◌, if◌then◌else◌}
use desk_be.Billing.World.{
  World, M, Result, ok, err, ◌>>=◌, ◌>>◌, pure, throw, gets, catch, follow_up, recover,
}

pub record Keeps (R : World → World → Type 0) {A : Type 0} (m : M A) : Type 0 where
  pub keeps : (w : World) → R w (m w).1

pub record IsPreorder (R : World → World → Type 0) : Type 0 where
  pub reflexive : (w : World) → R w w
  pub transitive : (u v w : World) → R u v → R v w → R u w

module _ {R : World → World → Type 0} (pre : IsPreorder R) where
  pub Keeps-pure : {A : Type 0} (a : A) → Keeps R (pure a)
  Keeps-pure a = record { keeps = pre.reflexive }

  pub Keeps-throw : {A : Type 0} (e : String) → Keeps R (throw {A = A} e)
  Keeps-throw e = record { keeps = pre.reflexive }

  pub Keeps-gets : {A : Type 0} (f : World → A) → Keeps R (gets f)
  Keeps-gets f = record { keeps = pre.reflexive }

  keeps_follow_up :
      {A B : Type 0} (f : A → M B) (u v : World) (r : Result A)
      → R u v
      → ((a : A) → Keeps R (f a))
      → R u (follow_up f r v).1
  keeps_follow_up f u v (ok a) h k = pre.transitive u v _ h ((k a).keeps v)
  keeps_follow_up f u v (err e) h k = h

  pub Keeps-bind :
      {A B : Type 0} (m : M A) (f : A → M B)
      → Keeps R m
      → ((a : A) → Keeps R (f a))
      → Keeps R (m >>= f)
  Keeps-bind m f h k = record { keeps = λ w. keeps_follow_up f w (m w).1 (m w).0 (h.keeps w) k }

  pub Keeps-then : {A B : Type 0} (m : M A) (k : M B) → Keeps R m → Keeps R k → Keeps R (m >> k)
  Keeps-then m k h h' = Keeps-bind m (λ _. k) h (λ _. h')

  -- A read of the state before the rest.
  pub Keeps-read :
      {A B : Type 0} (g : World → A) (f : A → M B)
      → ((a : A) → Keeps R (f a))
      → Keeps R (gets g >>= f)
  Keeps-read g f k = record { keeps = λ w. (k (g w)).keeps w }

  keeps_recover :
      {A : Type 0} (handler : String → M A) (u v : World) (r : Result A)
      → R u v
      → ((e : String) → Keeps R (handler e))
      → R u (recover handler r v).1
  keeps_recover handler u v (ok a) h k = h
  keeps_recover handler u v (err e) h k = pre.transitive u v _ h ((k e).keeps v)

  pub Keeps-catch :
      {A : Type 0} (m : M A) (handler : String → M A)
      → Keeps R m
      → ((e : String) → Keeps R (handler e))
      → Keeps R (catch m handler)
  Keeps-catch m handler h k = record {
    keeps = λ w. keeps_recover handler w (m w).1 (m w).0 (h.keeps w) k;
  }

module _ {R : World → World → Type 0} where
  pub Keeps-if :
      {A : Type 0} (b : Bool) {m k : M A} → Keeps R m → Keeps R k → Keeps R (if b then m else k)
  Keeps-if true h k = h
  Keeps-if false h k = k

  -- where the test is known to hold, only that branch matters
  pub Keeps-then_branch :
      {A : Type 0} {b : Bool} (m k : M A) → b ≡ true → Keeps R m → Keeps R (if b then m else k)
  Keeps-then_branch m k e h = rw e h
