-- ===== src/Billing/World.antt =====
-- The state that the billing service works on, the calls that it makes of Razorpay, and the monad
-- of its methods: state and exceptions. What was written stays written when a method throws.
use desk_be.Common.{
  ℕ, String, List, [], ◌∷◌, ◌++◌, map, Bool, true, false, Option, none, some, find, any, str_eq,
  ltb, if◌then◌else◌,
}
use desk_be.Billing.Records.{Operation, Subscription, Payment, ProviderSubscription}

-- A call of the payment provider.
pub data Call : Type 0 where
  fetch : String → Call
  cancel : String → Bool → Call
  refund : String → ℕ → Call

-- The parameters of `queueRazorpayReplacementCleanup`, which runs detached from its caller.
pub record Cleanup : Type 0 where
  pub workspace_id : String
  pub replaced : String
  pub replacement : String
  pub attempt : Option ℕ
  pub last_error : Option String

-- `now` is the clock that the method reads. `calls` are the calls of the provider so far, the
-- latest first. `queued` are the detached cleanups that have not run. `racing` are rows that other
-- processes insert before this process next creates a row. A row of `operations` is named by its
-- unique `operation_key`, which also stands for the generated `id`.
pub record World : Type 0 where
  pub now : ℕ
  pub operations : List Operation
  pub subscriptions : List Subscription
  pub payments : List Payment
  pub calls : List Call
  pub queued : List Cleanup
  pub racing : List Operation

pub data Result (A : Type 0) : Type 0 where
  ok : A → Result A
  err : String → Result A

abbrev pub M : Type 0 → Type 0
M A = World → Result A × World

-- what follows a step, at its result
abbrev pub follow_up : {A B : Type 0} → (A → M B) → Result A → M B
follow_up f (ok a) w = f a w
follow_up f (err e) w = (err e, w)

infixl 5 ◌>>=◌ ◌>>◌
abbrev pub ◌>>=◌ : {A B : Type 0} → M A → (A → M B) → M B
◌>>=◌ m f w = follow_up f (m w).0 (m w).1

abbrev pub ◌>>◌ : {A B : Type 0} → M A → M B → M B
m >> k = m >>= λ _. k

abbrev pub pure : {A : Type 0} → A → M A
pure a w = (ok a, w)

abbrev pub throw : {A : Type 0} → String → M A
throw e w = (err e, w)

abbrev pub gets : {A : Type 0} → (World → A) → M A
gets f w = (ok (f w), w)

abbrev pub recover : {A : Type 0} → (String → M A) → Result A → M A
recover handler (ok a) w = (ok a, w)
recover handler (err e) w = handler e w

-- `try { m } catch (error) { handler(error) }`
abbrev pub catch : {A : Type 0} → M A → (String → M A) → M A
catch m handler w = recover handler (m w).0 (m w).1

-- the result of a method whose `finally` has run
abbrev pub after_finally : {A B : Type 0} → Result A → Result B → Result A
after_finally r (ok b) = r
after_finally r (err e) = err e

-- `m.finally(last)`
abbrev pub finally : {A B : Type 0} → M A → M B → M A
finally m last w = (after_finally (m w).0 (last (m w).1).0, (last (m w).1).1)

-- An error that the SDK reports for a refused cancellation.
pub record RazorpayError : Type 0 where
  pub error_description : Option String
  pub description : Option String
  pub message : Option String
  pub status_code : ℕ

pub data Reply (A : Type 0) : Type 0 where
  answered : A → Reply A
  failed : String → Reply A

pub data CancelReply : Type 0 where
  accepted : Option String → CancelReply
  refused : RazorpayError → CancelReply

-- The payment provider, which is not part of the repository: its answers depend in any way on
-- the calls that were made before. The answer of a cancellation or a refund carries the status.
pub record Razorpay : Type 0 where
  pub on_fetch : List Call → String → Reply ProviderSubscription
  pub on_cancel : List Call → String → Bool → CancelReply
  pub on_refund : List Call → String → ℕ → Reply (Option String)

abbrev pub log_call : Call → World → World
log_call c w = record w { calls = c ∷ w.calls }

-- the test for a row with a key
abbrev pub has_key : String → Operation → Bool
has_key key o = str_eq o.operation_key key

-- `update({ where: { id } })`, or Prisma's P2025; `@updatedAt` is set by each write
abbrev pub update_operation : String → (ℕ → Operation → Operation) → M (Unit {0})
update_operation key f w =
    if any (has_key key) w.operations
    then (
      ok tt,
      record w {
        operations =
            map (λ o. if has_key key o then record (f w.now o) { updated_at = w.now } else o)
              w.operations;
      },
    )
    else (err "P2025", w)

-- `updateMany({ where })`
abbrev pub update_operations : (Operation → Bool) → (ℕ → Operation → Operation) → M (Unit {0})
update_operations p f w = (
  ok tt,
  record w {
    operations =
        map (λ o. if p o then record (f w.now o) { updated_at = w.now } else o) w.operations;
  },
)

-- `findUnique({ where: { operationKey } })`
abbrev pub find_operation : String → World → Option Operation
find_operation key w = find (λ o. str_eq o.operation_key key) w.operations

-- `findFirst({ where, orderBy: { updatedAt: 'desc' } })`
abbrev pub later_of : Operation → Option Operation → Operation
later_of o none = o
later_of o (some p) = if ltb o.updated_at p.updated_at then p else o

abbrev pub find_latest : (Operation → Bool) → List Operation → Option Operation
find_latest p [] = none
find_latest p (o ∷ os) = if p o then some (later_of o (find_latest p os)) else find_latest p os

-- Other processes insert rows; the unique index refuses a key that is there.
abbrev pub insert_new : List Operation → List Operation → List Operation
insert_new [] os = os
insert_new (r ∷ rs) os =
    insert_new rs
      (if any (λ o. str_eq o.operation_key r.operation_key) os then os else os ++ r ∷ [])

-- `create`: false when the unique index refuses the row (Prisma's P2002)
abbrev pub create_operation : Operation → M Bool
create_operation o w =
    let os = insert_new w.racing w.operations in
    if any (λ p. str_eq p.operation_key o.operation_key) os
    then (ok false, record w { operations = os; racing = [] })
    else (ok true, record w { operations = os ++ o ∷ []; racing = [] })

-- `subscription.findUnique({ where: { workspaceId } })`
abbrev pub find_subscription : String → World → Option Subscription
find_subscription workspace w = find (λ s. str_eq s.workspace_id workspace) w.subscriptions

-- `subscription.update({ where: { id } })`: the row that it leaves, or Prisma's P2025
abbrev pub write_subscription :
    String → (ℕ → Subscription → Subscription) → Option Subscription → M Subscription
write_subscription id f none w = (err "P2025", w)
write_subscription id f (some s) w = (
  ok (f w.now s),
  record w { subscriptions = map (λ t. if str_eq t.id id then f w.now t else t) w.subscriptions },
)

abbrev pub update_subscription : String → (ℕ → Subscription → Subscription) → M Subscription
update_subscription id f w = write_subscription id f (find (λ s. str_eq s.id id) w.subscriptions) w
