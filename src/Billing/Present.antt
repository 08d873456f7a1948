-- ===== src/Billing/Present.antt =====
-- The rows of operations stay: no method of the billing service removes a row or changes its key.
use desk_be.Common.{
  ℕ, String, List, [], ◌∷◌, ◌++◌, map, Bool, true, Option, none, some, ◌≡◌, refl, ◌∙◌, ap, find,
  any, str_eq, arith, Bool-cases, inl, inr, if◌then◌else◌,
}
use desk_be.Billing.Records.{Operation, Subscription}
use desk_be.Billing.World.{
  World, M, has_key, update_operation, update_operations, insert_new, create_operation,
  update_subscription, write_subscription,
}
use desk_be.Billing.Keeps.{Keeps, IsPreorder}

abbrev pub IsPresent : String → World → Type 0
IsPresent key w = any (has_key key) w.operations ≡ true

abbrev pub StillThere : World → World → Type 0
StillThere v w = (key : String) → IsPresent key v → IsPresent key w

pub still_there : IsPreorder StillThere
still_there = record { reflexive = λ w key h. h; transitive = λ u v w h k key p. k key (h key p) }

-- a method that leaves the operations as they are
pub same-StillThere :
    {A : Type 0} (m : M A) → ((w : World) → (m w).1.operations ≡ w.operations) → Keeps StillThere m
same-StillThere m same = record { keeps = λ w key h. ap (any (has_key key)) (same w) ∙ h }

-- a change of a row that leaves its key
abbrev pub KeepsKey : (ℕ → Operation → Operation) → Type 0
KeepsKey f = (now : ℕ) (o : Operation) → (f now o).operation_key ≡ o.operation_key

any-map :
    (key : String) (p : Operation → Bool) (f : ℕ → Operation → Operation) (now : ℕ)
    (os : List Operation)
    → KeepsKey f
    → any (has_key key) (map (λ o. if p o then record (f now o) { updated_at = now } else o) os)
      ≡ any (has_key key) os
any-map key p f now [] k = refl
any-map key p f now (o ∷ os) k = elim (Bool-cases (p o)) [
  | inl e ↦ rw (e, k now o, any-map key p f now os k) refl
  | inr e ↦ rw (e, any-map key p f now os k) refl
]

pub update_operation-StillThere :
    (key : String) (f : ℕ → Operation → Operation)
    → KeepsKey f
    → Keeps StillThere (update_operation key f)
update_operation-StillThere key f k = record {
  keeps = λ w j h. elim (Bool-cases (any (has_key key) w.operations)) [
    | inl e ↦ rw (e) (any-map j (has_key key) f w.now w.operations k ∙ h)
    | inr e ↦ rw (e) h
  ];
}

pub update_operations-StillThere :
    (p : Operation → Bool) (f : ℕ → Operation → Operation)
    → KeepsKey f
    → Keeps StillThere (update_operations p f)
update_operations-StillThere p f k = record {
  keeps = λ w j h. any-map j p f w.now w.operations k ∙ h;
}

any-append :
    (p : Operation → Bool) (os ps : List Operation) → any p os ≡ true → any p (os ++ ps) ≡ true
any-append p [] ps h = cc
any-append p (o ∷ os) ps h = ground (arith, h, any-append p os ps)

insert_new-any :
    (p : Operation → Bool) (rs os : List Operation)
    → any p os ≡ true
    → any p (insert_new rs os) ≡ true
insert_new-any p [] os h = h
insert_new-any p (r ∷ rs) os h =
    elim (Bool-cases (any (λ o. str_eq o.operation_key r.operation_key) os)) [
      | inl e ↦ rw (e) (insert_new-any p rs os h)
      | inr e ↦ rw (e) (insert_new-any p rs (os ++ r ∷ []) (any-append p os (r ∷ []) h))
    ]

pub create_operation-StillThere : (o : Operation) → Keeps StillThere (create_operation o)
create_operation-StillThere o = record {
  keeps = λ w j h.
      let os = insert_new w.racing w.operations in
      let there = insert_new-any (has_key j) w.racing w.operations h in
      elim (Bool-cases (any (λ p. str_eq p.operation_key o.operation_key) os)) [
        | inl e ↦ rw (e) there
        | inr e ↦ rw (e) (any-append (has_key j) os (o ∷ []) there)
      ];
}

write_subscription-operations :
    (id : String) (f : ℕ → Subscription → Subscription) (s : Option Subscription) (w : World)
    → (write_subscription id f s w).1.operations ≡ w.operations
write_subscription-operations id f none w = refl
write_subscription-operations id f (some s) w = refl

pub update_subscription-StillThere :
    (id : String) (f : ℕ → Subscription → Subscription)
    → Keeps StillThere (update_subscription id f)
update_subscription-StillThere id f =
    same-StillThere _
      (λ w. write_subscription-operations id f (find (λ s. str_eq s.id id) w.subscriptions) w)
