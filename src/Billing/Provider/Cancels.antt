-- ===== src/Billing/Provider/Cancels.antt =====
-- Which calls of the provider are cancellations: fetches and refunds are none.
use desk_be.Common.{
  ℕ, String, List, [], ◌∷◌, Option, none, some, ◌≡◌, refl, ◌∙◌, present, get_or, ◌==◌, ◌||◌, str_eq,
  find, ap, any, Bool-cases, inl, inr,
}
use desk_be.Billing.Records.{Operation, Subscription}
use desk_be.Billing.World.{
  World, Call, fetch, cancel, refund, Reply, answered, failed, Razorpay, log_call, has_key,
  update_operation, update_subscription, write_subscription,
}
use desk_be.Billing.Keeps.{Keeps, IsPreorder, Keeps-pure, Keeps-bind, Keeps-read, Keeps-if}
use desk_be.Billing.Provider.{
  reply, payment_id, fetch_subscription, fetch_status, refund_payment, refund_found, refund_named,
  refund_from, refunded, refund_was_made, find_payment, refund_replacement_credit,
}

-- The cancellations among the calls.
abbrev pub cancellations : List Call → List Call
cancellations [] = []
cancellations (fetch s ∷ calls) = cancellations calls
cancellations (cancel s b ∷ calls) = cancel s b ∷ cancellations calls
cancellations (refund p n ∷ calls) = cancellations calls

abbrev pub SameCancels : World → World → Type 0
SameCancels v w = cancellations w.calls ≡ cancellations v.calls

pub same_cancels : IsPreorder SameCancels
same_cancels = record { reflexive = λ w. refl; transitive = λ u v w h k. k ∙ h }

reply-calls : {A : Type 0} (r : Reply A) (w : World) → (reply r w).1 ≡ w
reply-calls (answered a) w = refl
reply-calls (failed e) w = refl

pub update_operation-Keeps :
    (key : String) (f : ℕ → Operation → Operation) → Keeps SameCancels (update_operation key f)
update_operation-Keeps key f = record {
  keeps = λ w. elim (Bool-cases (any (has_key key) w.operations)) [
    | inl e ↦ rw (e) refl
    | inr e ↦ rw (e) refl
  ];
}

pub write_subscription-calls :
    (id : String) (f : ℕ → Subscription → Subscription) (s : Option Subscription) (w : World)
    → (write_subscription id f s w).1.calls ≡ w.calls
write_subscription-calls id f none w = refl
write_subscription-calls id f (some s) w = refl

pub update_subscription-Keeps :
    (id : String) (f : ℕ → Subscription → Subscription)
    → Keeps SameCancels (update_subscription id f)
update_subscription-Keeps id f = record {
  keeps = λ w.
      ap cancellations
        (write_subscription-calls id f (find (λ s. str_eq s.id id) w.subscriptions) w);
}

pub fetch_subscription-Keeps :
    (rp : Razorpay) (sub : String) → Keeps SameCancels (fetch_subscription rp sub)
unfolding fetch_subscription
fetch_subscription-Keeps rp sub = record {
  keeps = λ w. rw (reply-calls (rp.on_fetch w.calls sub) (log_call (fetch sub) w)) refl;
}

pub fetch_status-Keeps : (rp : Razorpay) (sub : String) → Keeps SameCancels (fetch_status rp sub)
unfolding fetch_status
fetch_status-Keeps rp sub =
    Keeps-bind same_cancels (fetch_subscription rp sub) _ (fetch_subscription-Keeps rp sub)
      (λ s. Keeps-pure same_cancels _)

refund_payment-Keeps :
    (rp : Razorpay) (payment : String) (amount : ℕ)
    → Keeps SameCancels (refund_payment rp payment amount)
unfolding refund_payment
refund_payment-Keeps rp payment amount = record {
  keeps = λ w.
      rw (reply-calls (rp.on_refund w.calls payment amount) (log_call (refund payment amount) w))
        refl;
}

refund_found-Keeps :
    (rp : Razorpay) (s : Subscription) (amount : ℕ) (payment : Option String)
    → Keeps SameCancels (refund_found rp s amount payment)
unfolding refund_found
refund_found-Keeps rp s amount none = Keeps-pure same_cancels tt
refund_found-Keeps rp s amount (some p) =
    Keeps-bind same_cancels _ _ (refund_payment-Keeps rp p amount) λ status.
      Keeps-bind same_cancels _ _ (update_subscription-Keeps s.id (refunded status))
        (λ _. Keeps-pure same_cancels tt)

refund_named-Keeps :
    (rp : Razorpay) (s : Subscription) (old : Option String)
    → Keeps SameCancels (refund_named rp s old)
unfolding refund_named refund_from
refund_named-Keeps rp s none = Keeps-pure same_cancels tt
refund_named-Keeps rp s (some old) =
    Keeps-if (get_or s.last_refund_amount 0 == 0 || refund_was_made s) (Keeps-pure same_cancels tt)
      (Keeps-read same_cancels (find_payment s old)
        (λ p. refund_found rp s (get_or s.last_refund_amount 0) (payment_id p))
        (λ p. refund_found-Keeps rp s (get_or s.last_refund_amount 0) (payment_id p)))

pub refund-Keeps :
    (rp : Razorpay) (s : Subscription) (old : Option String)
    → Keeps SameCancels (refund_replacement_credit rp s old)
unfolding refund_replacement_credit
refund-Keeps rp s old = refund_named-Keeps rp s (present old)
