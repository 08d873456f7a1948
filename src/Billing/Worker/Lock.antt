-- ===== src/Billing/Worker/Lock.antt =====
-- The lock of an operation: while it is held no other worker claims the row, for five minutes.
use mathlib.Core.Path.{subst}
use desk_be.Common.{
  ℕ, ◌+◌, ◌≤◌, List, [], ◌∷◌, map, true, false, none, some, ◌≡◌, ◌≢◌, refl, All, any, eq_iff, arith,
  Bool-cases, inl, inr, if◌then◌else◌, sym, ◌∙◌,
}
use desk_be.Billing.Records.{Operation}
use desk_be.Billing.World.{World, ok}
use desk_be.Billing.Worker.{lock_ms, can_claim, locked, claim}

-- The unique index on `operation_key`.
abbrev pub UniqueKeys : List Operation → Type 0
UniqueKeys [] = Unit
UniqueKeys (o ∷ os) = All (λ p. p.operation_key ≢ o.operation_key) os × UniqueKeys os

-- What `claim` makes of a row.
abbrev claimed : Operation → ℕ → Operation → Operation
claimed o now row =
    if can_claim o now row then record (locked now row) { updated_at = now } else row

claimed-key :
    (o : Operation) (now : ℕ) (row : Operation)
    → (claimed o now row).operation_key ≡ row.operation_key
claimed-key o now row = elim (Bool-cases (can_claim o now row)) [
  | inl e ↦ rw e refl
  | inr e ↦ rw e refl
]

can_claim-key :
    (o : Operation) (now : ℕ) (row : Operation)
    → can_claim o now row ≡ true
    → row.operation_key ≡ o.operation_key
can_claim-key o now row h = ground (arith, eq_iff row.operation_key o.operation_key)

cannot_claim_other :
    (p : Operation) (now : ℕ) (row : Operation)
    → row.operation_key ≢ p.operation_key
    → can_claim p now row ≡ false
cannot_claim_other p now row h = ground (arith, eq_iff row.operation_key p.operation_key)

none_other :
    (o p : Operation) (now later : ℕ) (xs : List Operation)
    → All (λ x. x.operation_key ≢ p.operation_key) xs
    → any (can_claim p later) (map (claimed o now) xs) ≡ false
none_other o p now later [] h = refl
none_other o p now later (x ∷ xs) (here, h) =
    rw (cannot_claim_other p later (claimed o now x) (λ e. here (sym (claimed-key o now x) ∙ e)))
      (none_other o p now later xs h)

found_key :
    (o : Operation) (now : ℕ) (xs : List Operation)
    → any (can_claim o now) xs ≡ true
    → All (λ x. x.operation_key ≢ o.operation_key) xs
    → ⊥
found_key o now [] h a = cc
found_key o now (x ∷ xs) h (here, a) =
    found_key o now xs (rw (cannot_claim_other o now x here) at h) a

-- A claimed row cannot be claimed again before its lock expires.
claimed_blocks :
    (o p : Operation) (now later : ℕ) (row : Operation)
    → can_claim o now row ≡ true
    → later ≤ now + lock_ms
    → can_claim p later (claimed o now row) ≡ false
claimed_blocks o p now later row h l = rw h (ground arith)

claimed_once :
    (o p : Operation) (now later : ℕ) (xs : List Operation)
    → UniqueKeys xs
    → p.operation_key ≡ o.operation_key
    → later ≤ now + lock_ms
    → any (can_claim o now) xs ≡ true
    → any (can_claim p later) (map (claimed o now) xs) ≡ false
claimed_once o p now later [] u same l h = cc
claimed_once o p now later (x ∷ xs) (apart, u) same l h = elim (Bool-cases (can_claim o now x)) [
  | inl taken ↦ rw (claimed_blocks o p now later x taken l) (
      none_other o p now later xs (
        subst (λ k. All (λ q. q.operation_key ≢ k) xs) (can_claim-key o now x taken ∙ sym same)
          apart))
  | inr left ↦
      let rest : any (can_claim o now) xs ≡ true = rw left at h in
      let other : x.operation_key ≢ p.operation_key = λ e.
        found_key o now xs rest (subst (λ k. All (λ q. q.operation_key ≢ k) xs) (e ∙ same) apart) in
      rw (cannot_claim_other p later (claimed o now x) (λ e. other (sym (claimed-key o now x) ∙ e)))
        (claimed_once o p now later xs u same l rest)
]

claim-count :
    (o : Operation) (w : World) {row : Operation}
    → (claim o w).0 ≡ ok (some row)
    → any (can_claim o w.now) w.operations ≡ true
unfolding claim
claim-count o w h = elim (Bool-cases (any (can_claim o w.now) w.operations)) [
  | inl e ↦ e
  | inr e ↦ cc (rw (e, claim) at h)
]

claimed-operations :
    (o : Operation) (w : World)
    → any (can_claim o w.now) w.operations ≡ true
    → (claim o w).1.operations ≡ map (claimed o w.now) w.operations
unfolding claim
claimed-operations o w h = refl

claim_refused :
    (p : Operation) (w : World)
    → any (can_claim p w.now) w.operations ≡ false
    → (claim p w).0 ≡ ok none
unfolding claim
claim_refused p w h = rw h refl

-- Where the keys of the operations are unique, when a worker has claimed an operation, then as long
-- as the operations are as the claim left them, its lock not released, no claim of the same row
-- succeeds in the five minutes after it, whatever copy of the row the other worker has read and
-- whatever else has changed.
pub claim-exclusive :
    (o p : Operation) (w v : World) {row : Operation}
    → UniqueKeys w.operations
    → (claim o w).0 ≡ ok (some row)
    → p.operation_key ≡ o.operation_key
    → v.operations ≡ (claim o w).1.operations
    → v.now ≤ w.now + lock_ms
    → (claim p v).0 ≡ ok none
unfolding claim
claim-exclusive o p w v u got same held l =
    let k = claim-count o w got in
    claim_refused p v (
      subst (λ os. any (can_claim p v.now) os ≡ false) (sym (held ∙ claimed-operations o w k))
        (claimed_once o p w.now v.now w.operations u same l k))
