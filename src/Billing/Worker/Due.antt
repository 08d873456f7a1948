-- ===== src/Billing/Worker/Due.antt =====
-- The operations that a run of the loop takes up.
use mathlib.Core.Path.{subst}
use mathlib.Core.List.{Perm}
use mathlib.Core.List.Perm
use desk_be.Common.{
  ℕ, zero, suc, ◌≤◌, List, [], ◌∷◌, ◌++◌, ◌≡◌, refl, sym, ap, All, keep, take, length, ltb,
  Bool-cases, inl, inr, ◌⊎◌, arith,
}
use desk_be.Billing.Records.{Operation}
use desk_be.Billing.World.{World}
use desk_be.Billing.Worker.{due, insert_due, sort_due, due_operations}

-- Each operation comes before those that are due later.
unfoldable pub IsSorted : List Operation → Type 0
IsSorted [] = Unit
IsSorted (o ∷ os) = All (λ p. o.next_retry_at ≤ p.next_retry_at) os × IsSorted os

-- The longest due of the operations that are due: with the rest they are a permutation of these, in
-- order, and there is a rest only if there are 25.
pub record IsBatch (w : World) (os : List Operation) : Type 0 where
  pub rest : List Operation
  pub of_due : Perm (os ++ rest) (keep (due w.now) w.operations)
  pub in_order : IsSorted (os ++ rest)
  pub as_many : (length os ≡ 25) ⊎ ((length os ≤ 25) × (rest ≡ []))

module _ (P : Operation → Type 0) where
  insert-All : (o : Operation) (ps : List Operation) → P o → All P ps → All P (insert_due o ps)
  unfolding insert_due
  insert-All o [] h k = (h, tt)
  insert-All o (p ∷ ps) h k = elim (Bool-cases (ltb p.next_retry_at o.next_retry_at)) [
    | inl e ↦ rw (e) (k.0, insert-All o ps h k.1)
    | inr e ↦ rw (e) (h, k)
  ]

later_than :
    (o p : Operation) (ps : List Operation)
    → o.next_retry_at ≤ p.next_retry_at
    → All (λ q. p.next_retry_at ≤ q.next_retry_at) ps
    → All (λ q. o.next_retry_at ≤ q.next_retry_at) ps
later_than o p [] l h = tt
later_than o p (q ∷ ps) l h = (ground (arith, l, h.0), later_than o p ps l h.1)

insert-IsSorted : (o : Operation) (ps : List Operation) → IsSorted ps → IsSorted (insert_due o ps)
unfolding insert_due IsSorted
insert-IsSorted o [] h = (tt, tt)
insert-IsSorted o (p ∷ ps) h = elim (Bool-cases (ltb p.next_retry_at o.next_retry_at)) [
  | inl e ↦ rw (e) (
    insert-All (λ q. p.next_retry_at ≤ q.next_retry_at) o ps (ground (arith, e)) h.0,
    insert-IsSorted o ps h.1,
  )
  | inr e ↦
      let l : o.next_retry_at ≤ p.next_retry_at = ground (arith, e) in
      rw (e) ((l, later_than o p ps l h.0), h)
]

sort-IsSorted : (os : List Operation) → IsSorted (sort_due os)
unfolding sort_due IsSorted
sort-IsSorted [] = tt
sort-IsSorted (o ∷ os) = insert-IsSorted o (sort_due os) (sort-IsSorted os)

insert-Perm : (o : Operation) (ps : List Operation) → Perm (insert_due o ps) (o ∷ ps)
unfolding insert_due
insert-Perm o [] = Perm.rfl
insert-Perm o (p ∷ ps) = elim (Bool-cases (ltb p.next_retry_at o.next_retry_at)) [
  | inl e ↦ rw (e) (Perm.trans (Perm.cons p (insert-Perm o ps)) (Perm.swap o p ps))
  | inr e ↦ rw (e) Perm.rfl
]

sort-Perm : (os : List Operation) → Perm (sort_due os) os
unfolding sort_due
sort-Perm [] = Perm.rfl
sort-Perm (o ∷ os) = Perm.trans (insert-Perm o (sort_due os)) (Perm.cons o (sort-Perm os))

-- what a `take` leaves
left : ℕ → List Operation → List Operation
left zero os = os
left (suc n) [] = []
left (suc n) (o ∷ os) = left n os

take-append-left : (n : ℕ) (os : List Operation) → take n os ++ left n os ≡ os
unfolding left
take-append-left zero os = refl
take-append-left (suc n) [] = refl
take-append-left (suc n) (o ∷ os) = ap (λ l. o ∷ l) (take-append-left n os)

take-as_many :
    (n : ℕ) (os : List Operation)
    → (length (take n os) ≡ n) ⊎ ((length (take n os) ≤ n) × (left n os ≡ []))
unfolding left
take-as_many zero os = inl refl
take-as_many (suc n) [] = inr (omega arith, refl)
take-as_many (suc n) (o ∷ os) = elim (take-as_many n os) [
  | inl e ↦ inl (ap suc e)
  | inr (l, e) ↦ inr (omega (arith, l), e)
]

-- A run takes up the operations that are due and whose lock is free or has expired, all if there
-- are 25 at most, and else 25, none of them due later than one that it leaves; it takes them up in
-- the order in which they are due.
pub due_operations-IsBatch : (w : World) → IsBatch w (due_operations w)
unfolding due_operations
due_operations-IsBatch w =
    let sorted : List Operation = sort_due (keep (due w.now) w.operations) in
    record {
      rest = left 25 sorted;
      of_due =
          subst (λ os. Perm os (keep (due w.now) w.operations)) (sym (take-append-left 25 sorted))
            (sort-Perm (keep (due w.now) w.operations));
      in_order =
          subst IsSorted (sym (take-append-left 25 sorted))
            (sort-IsSorted (keep (due w.now) w.operations));
      as_many = take-as_many 25 sorted;
    }
