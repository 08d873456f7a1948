-- ===== src/Billing/Rows.antt =====
-- Looking rows of operations up by their key after the writes of the billing service.
use mathlib.Core.Option
use mathlib.Core.Option.{some_inj}
use desk_be.Common.{
  String, List, [], ◌∷◌, ◌++◌, map, true, false, Option, none, some, ◌≡◌, ◌≢◌, refl, ◌∙◌, ap, find,
  any, is_some, str_eq, eq_iff, arith, Bool-cases, inl, inr, if◌then◌else◌,
}
use desk_be.Billing.Records.{Operation}

-- `findUnique({ where: { operationKey } })` on a list of rows
abbrev pub find_key : String → List Operation → Option Operation
find_key k os = find (λ o. str_eq o.operation_key k) os

-- an update of the rows with a key
abbrev pub update_key : String → (Operation → Operation) → List Operation → List Operation
update_key key g os = map (λ o. if str_eq o.operation_key key then g o else o) os

module _ (key : String) (g : Operation → Operation)
    (same : (o : Operation) → (g o).operation_key ≡ o.operation_key) where
  pub find_key-update_self :
      (os : List Operation) → find_key key (update_key key g os) ≡ Option.map g (find_key key os)
  find_key-update_self [] = refl
  find_key-update_self (o ∷ os) = elim (Bool-cases (str_eq o.operation_key key)) [
    | inl here ↦
        let kept : str_eq (g o).operation_key key ≡ true = ap (λ k. str_eq k key) (same o) ∙ here in
        rw (here, kept) refl
    | inr other ↦ rw (other, other) (find_key-update_self os)
  ]

  pub find_key-update_ne :
      (k : String) (os : List Operation)
      → k ≢ key
      → find_key k (update_key key g os) ≡ find_key k os
  find_key-update_ne k [] ne = refl
  find_key-update_ne k (o ∷ os) ne = elim (Bool-cases (str_eq o.operation_key key)) [
    | inl here ↦
        let old : str_eq o.operation_key k ≡ false =
          ground (arith, eq_iff o.operation_key key, eq_iff o.operation_key k) in
        let kept : str_eq (g o).operation_key k ≡ false = ap (λ j. str_eq j k) (same o) ∙ old in
        rw (here, kept, old) (find_key-update_ne k os ne)
    | inr other ↦
        rw (other)
          (ap (λ r. if str_eq o.operation_key k then some o else r) (find_key-update_ne k os ne))
  ]

pub find_key-append :
    (k : String) (os : List Operation) (o : Operation)
    → find_key k os ≡ none
    → find_key k (os ++ o ∷ []) ≡ (if str_eq o.operation_key k then some o else none)
find_key-append k [] o h = refl
find_key-append k (p ∷ os) o h = ground (arith, find_key-append k os o)

pub any-key :
    (k : String) (os : List Operation)
    → any (λ o. str_eq o.operation_key k) os ≡ is_some (find_key k os)
any-key k [] = refl
any-key k (o ∷ os) = ground (arith, any-key k os)

pub find_key-append_ne :
    (k : String) (os : List Operation) (o : Operation)
    → o.operation_key ≢ k
    → find_key k (os ++ o ∷ []) ≡ find_key k os
find_key-append_ne k [] o ne = ground (arith, eq_iff o.operation_key k)
find_key-append_ne k (p ∷ os) o ne =
    ap (λ r. if str_eq p.operation_key k then some p else r) (find_key-append_ne k os o ne)
